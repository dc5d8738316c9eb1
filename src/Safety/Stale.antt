-- ===== src/Safety/Stale.antt =====
-- A kept-alive client that is paired with a second backend, and closed (connection_pair and
-- connection_close, src/network/connection.c).
use epoll_proxy.Base.{ℕ, ◌≡◌, ◌≢◌, ◌<◌, ◌∙◌, some, inl, inr, arith, ap}
use epoll_proxy.Config.{Config, closed, max_connections}
use epoll_proxy.Kernel.{Os}
use epoll_proxy.Connection.{alloc, free, pair, unpair, is_closed}
use epoll_proxy.Connection.FreeList.{alloc_pops, free_pushes}
use epoll_proxy.Connection.Pool.Steps.{free-given_back}
use epoll_proxy.State.{State, done}
use epoll_proxy.Proxy.Lifecycle.{close, close_open}
use epoll_proxy.Safety.{IsOpen, IsSafe, Ensures, ensures}
use epoll_proxy.Safety.Rules.{branch, after_quiet}
use epoll_proxy.Safety.Kernel.{close_socket-IsQuiet}
use epoll_proxy.Safety.Lifecycle.{release-Released, free_count-unpair}

-- The second pairing leaves the first backend's pointer, and unpairing the client does not reach it.
peer-unpair-pair :
    (c : Config) (client old new : ℕ)
    → old ≢ client
    → new ≢ client
    → old ≢ new
    → ((unpair (pair (pair c client old) client new) (some client)).connections old).peer
      ≡ some client
unfolding pair unpair
peer-unpair-pair c client old new h k l = ground (arith, h, k, l)

-- What is freed is handed out next.
alloc-free :
    (c : Config) (i : ℕ)
    → i < max_connections
    → c.free_count < max_connections
    → (alloc (free c (some i))).0 ≡ some i
alloc-free c i h room =
    let pushed = free_pushes c i h room in
    elim (alloc_pops (free c (some i))) [ inl (empty, _) ↦ cc | inr (j, top, e) ↦ cc ]

module _ ⦃os : Os⦄ where
  -- If a client in use was paired with one backend and then with another, `connection_close` of the
  -- client in a safe state leaves the first backend pointing to the client's slot, which is closed
  -- and the next that `connection_alloc` hands out.
  pub close-pair :
      (client old new : ℕ) (c : Config) (s : State)
      → IsSafe s
      → s.config ≡ pair (pair c client old) client new
      → IsOpen s.config client
      → old ≢ client
      → new ≢ client
      → old ≢ new
      → Ensures
          (λ _ s'.
            ((s'.config.connections client).state ≡ closed)
            × ((s'.config.connections old).peer ≡ some client)
            × ((alloc s'.config).0 ≡ some client))
          (close (some client) s)
  unfolding close close_open
  close-pair client old new c s v paired o h k l =
      let u = unpair s.config (some client) in
      let room = free_count-unpair s.config client v.sound o in
      let same = free-given_back u client o.0 room in
      let stale : (u.connections old).peer ≡ some client =
        ap (λ d. ((unpair d (some client)).connections old).peer) paired
        ∙ peer-unpair-pair c client old new h k l in
      let kept : ((free u (some client)).connections old).peer ≡ some client =
        ap (λ d. (d.connections old).peer) same ∙ ground (arith, stale, h) in
      branch (is_closed (s.config.connections client).state) done (close_open client)
        (λ e. absurd (o.1 (ground arith)))
        (λ _.
          after_quiet s _
            (close_socket-IsQuiet s.config.epoll_fd (s.config.connections client).fd s)
            (λ _ _. ensures (
              (release-Released s.config client v.sound o).is_closed,
              kept,
              alloc-free u client o.0 room,
            )))
