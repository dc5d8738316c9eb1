-- ===== src/Safety/Accepting.antt =====
-- handle_accept (src/proxy/proxy.c) against the invariant.
use epoll_proxy.Base.{
  ℕ, zero, suc, ◌+◌, ◌≡◌, refl, Option, none, some, true, arith, inl, inr, Bool-cases,
}
use epoll_proxy.Config.{
  Config, Connection, Fd, ProxyMode, tcp, http, connected, reading_request, update,
}
use epoll_proxy.Kernel.{Os, FdReply, opened, IsReliable}
use epoll_proxy.Http
use epoll_proxy.Http.{Request}
use epoll_proxy.Buffer.Refine.{clear-IsValid}
use epoll_proxy.Connection.{alloc, reset, set_conn}
use epoll_proxy.Connection.Pool.{IsProper}
use epoll_proxy.Connection.Pool.Steps.{proper}
use epoll_proxy.Epoll.{in_events, close_fd}
use epoll_proxy.Epoll.Quiet.{set_nonblocking-IsQuiet, set_socket_options-IsQuiet}
use epoll_proxy.State.{State, M, release, allocate, ◌>>◌, and_then}
use epoll_proxy.Proxy.Lifecycle.{close}
use epoll_proxy.Proxy.Accept.{
  register, with_request, init_client, with_client, accepted, after_accept, handle_accept,
}
use epoll_proxy.Safety.{IsOpen, IsClient, IsSafe, IsBusy, Ensures, ensures, Safely}
use epoll_proxy.Safety.Rules.{bind, branch, after_quiet}
use epoll_proxy.Safety.Kernel.{close_fd-IsQuiet, after_add}
use epoll_proxy.Safety.Lifecycle.{close-Safely}
use epoll_proxy.Safety.Close.{
  IsValidBut, weaken-IsValidBut, freed-IsValidBut, mend-Safely, after_release, after_release-none,
}
use epoll_proxy.Safety.Open.{alloc-IsValid, connection_init_lem}
use epoll_proxy.Safety.Forwarding.{alloc-none}
use epoll_proxy.Safety.Fresh.{set_conn-IsValidBut, fresh-IsValid, tcp-IsValid}

module _ ⦃os : Os⦄ where
  -- The two ends of `calloc`.
  after_allocate :
      {B : Type 0} {Q : B → State → Type 0} (req : Request) (s : State) (f : Option ℕ → M B)
      → ((k : os.Kernel)
          → Ensures Q (
              f (some s.next) (record s {
                kernel = k;
                heap = update s.heap s.next (some req);
                next = s.next + 1;
              })))
      → ((k : os.Kernel) → Ensures Q (f none (record s { kernel = k })))
      → Ensures Q (and_then (allocate req s) f)
  unfolding allocate
  after_allocate req s f granted refused = elim (Bool-cases (os.calloc s.kernel).0) [
    | inl e ↦ rw e (granted (os.calloc s.kernel).1)
    | inr e ↦ rw e (refused (os.calloc s.kernel).1)
  ]

  give_up-Safely :
      (i : ℕ) (m : ProxyMode) (s : State)
      → IsBusy i s
      → (s.config.connections i).is_client ≡ true
      → s.config.mode ≡ m
      → ¬ (IsReliable os)
      → Safely ((release (s.config.connections i).http_req >> close (some i)) s)
  give_up-Safely i tcp s b q e t =
      after_release-none _ s _ (b.0.unused e i b.1.0) (close-Safely i s b.0 b.1.0)
  give_up-Safely i http s b q e t =
      let client : IsClient s.config i = record {
        in_pool = b.1.0;
        client = q;
        open_state = b.1.1;
      } in
      let l = b.0.live e i client in
      after_release _ s _ l (
        mend-Safely i (record s { heap = update s.heap l.address none })
          (freed-IsValidBut i l.address b.0 e client l.is_address) b.1 (λ h. absurd (t h)))

  register-Safely :
      (i : ℕ) (fd : Fd) (s : State)
      → IsBusy i s
      → (s.config.connections i).is_client ≡ true
      → Safely (register i fd s)
  unfolding register
  register-Safely i fd s b q =
      after_add s.config.epoll_fd fd in_events (some i) s _ (λ k. ensures b.0)
        (λ k. give_up-Safely i s.config.mode (record s { kernel = k }) b q refl)

  close_fd-Safely : (fd : Fd) (s : State) → IsSafe s → Safely (close_fd fd s)
  close_fd-Safely fd s v = let (a, k, same) = close_fd-IsQuiet fd s in rw same (ensures v)

  init_client-Safely :
      (i : ℕ) (fd : Fd) (m : ProxyMode) (s : State)
      → IsValidBut (IsReliable os) i s.config s.heap s.next
      → IsOpen s.config i
      → (s.config.connections i).is_client ≡ true
      → s.config.mode ≡ m
      → Safely (init_client i fd m s)
  unfolding init_client with_request
  init_client-Safely i fd tcp s v o q e = register-Safely i fd s (tcp-IsValid i e v, o) q
  init_client-Safely i fd http s v o q e =
      let p = proper v.sound i o.0 in
      let given : Option ℕ → Connection = λ r. record (s.config.connections i) { http_req = r } in
      let proper_given : (r : Option ℕ) → IsProper (given r) =
        λ r. record { reading = p.reading; writing = p.writing; peer_in = p.peer_in } in
      let but : (r : Option ℕ)
          → IsValidBut (IsReliable os) i (set_conn s.config i (given r)) s.heap s.next =
        λ r. set_conn-IsValidBut i (given r) v (proper_given r) (inr (λ c. c)) (λ m. cc) in
      after_allocate Http.init s _
        (λ k.
          let c : Config = set_conn s.config i (given (some s.next)) in
          let conn : Connection = record (c.connections i) { state = reading_request } in
          let p' = proper (but (some s.next)).sound i o.0 in
          let v' : IsValidBut (IsReliable os) i (set_conn c i conn) s.heap s.next =
            set_conn-IsValidBut i conn (but (some s.next))
              (record { reading = p'.reading; writing = p'.writing; peer_in = p'.peer_in })
              (inr (λ c. absurd (o.1 (ground arith)))) (λ m. cc) in
          register-Safely i fd _
            (fresh-IsValid i Http.init e v' (ground arith), (o.0, ground arith))
            (ground (arith, q)))
        (λ k.
          bind
            (mend-Safely i (record s { config = set_conn s.config i (given none); kernel = k })
              (but none) (o.0, ground (arith, o)) (λ _. ground arith))
            (λ _ s' v'. close_fd-Safely fd s' v'))

  -- `found` is what `connection_alloc` returns.
  with_client-Safely :
      (fd : Fd) (found : Option ℕ) (s : State)
      → IsSafe s
      → (alloc s.config).0 ≡ found
      → Safely (with_client fd found (record s { config = (alloc s.config).1 }))
  unfolding with_client reset
  with_client-Safely fd none s v e =
      close_fd-Safely fd (record s { config = (alloc s.config).1 }) (rw (alloc-none s.config e) v)
  with_client-Safely fd (some i) s v e =
      let (v', t) = alloc-IsValid i v e in
      let s' : State = record s { config = (alloc s.config).1 } in
      let p = proper v'.sound i t.in_pool in
      let (now, k, same) = connection_init_lem i fd true connected s' in
      let conn = reset (s'.config.connections i) fd true connected now in
      rw same (
        init_client-Safely i fd s'.config.mode
          (record s' { config = set_conn s'.config i conn; kernel = k })
          (set_conn-IsValidBut i conn (weaken-IsValidBut i v')
            (record {
              reading = clear-IsValid p.reading;
              writing = clear-IsValid p.writing;
              peer_in = λ j e'. cc;
            })
            (inl t.absent) (λ m. v'.unused m i t.in_pool))
          (t.in_pool, ground arith) (ground arith) refl)

  accepted-Safely : (fd : Fd) (s : State) → IsSafe s → Safely (accepted fd s)
  unfolding accepted
  accepted-Safely fd s v = after_quiet s _ (set_nonblocking-IsQuiet fd s) λ nonblocking k.
      let s' : State = record s { kernel = k } in
      branch nonblocking _ (close_fd fd)
        (λ _. after_quiet s' _ (set_socket_options-IsQuiet fd s') λ configured k'.
          let s'' : State = record s { kernel = k' } in
          branch configured _ (close_fd fd)
            (λ _. with_client-Safely fd (alloc s.config).0 s'' v refl)
            (λ _. close_fd-Safely fd s'' v))
        (λ _. close_fd-Safely fd s' v)

  after_accept-Safely :
      (rest : M (Unit {0})) (r : FdReply) (s : State)
      → IsSafe s
      → ((s' : State) → IsSafe s' → Safely (rest s'))
      → Safely (after_accept rest r s)
  unfolding after_accept
  after_accept-Safely rest (FdReply.failed e) s v h = ensures v
  after_accept-Safely rest (opened fd) s v h =
      bind (accepted-Safely (some fd) s v) (λ _ s' v'. h s' v')

  -- In a safe state, any number of rounds of `handle_accept` come to their end and leave a safe
  -- state, whatever the kernel answers, and whether or not a slot or memory for a request is left.
  pub handle_accept-Safely : (rounds : ℕ) (s : State) → IsSafe s → Safely (handle_accept rounds s)
  unfolding handle_accept
  handle_accept-Safely zero s v = ensures v
  handle_accept-Safely (suc rounds) s v =
      let (r, k) = os.accept s.kernel s.config.listen_fd in
      after_accept-Safely (handle_accept rounds) r (record s { kernel = k }) v
        (handle_accept-Safely rounds)
