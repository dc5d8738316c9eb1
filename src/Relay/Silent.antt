-- ===== src/Relay/Silent.antt =====
-- Commands of the proxy (src/core/epoll.c, src/proxy/proxy.c) that carry no bytes: they change
-- nothing but the kernel's state, and not the traffic in it.
use epoll_proxy.Base.{ℕ, ◌≡◌, refl, ◌∙◌, ap, Option, none, some, not, Bool-cases, inl, inr}
use epoll_proxy.Config.{Fd}
use epoll_proxy.Kernel.{Os, Events, modify, delete}
use epoll_proxy.Connection.{is_valid}
use epoll_proxy.Epoll.{epoll_mod, epoll_del, close_fd, with_defaults}
use epoll_proxy.State.{State, M, and_then, pure, ◌>>=◌}
use epoll_proxy.Proxy.Lifecycle.{get_timestamp_ms, close_socket}
use epoll_proxy.Proxy.Events.{update_epoll_events, update_peer_events}
use epoll_proxy.Proxy.Write.{refresh_events}
use epoll_proxy.Relay.Traffic.{IsRecorded}
use epoll_proxy.Relay.Yields.{Yields}

module _ ⦃os : Os⦄ (rec : IsRecorded os) where
  -- A run that changes the kernel's state alone.
  abbrev pub Silent : {A : Type 0} → State → Option (A × State) → Type 0
  Silent {A} s r =
      (a : A) × (k : os.Kernel) × (r ≡ some (a, record s { kernel = k }))
      × (rec.seen k ≡ rec.seen s.kernel)

  abbrev pub IsSilent : {A : Type 0} → M A → Type 0
  IsSilent m = (s : State) → Silent s (m s)

  pure-IsSilent : {A : Type 0} (a : A) → IsSilent (pure a)
  pure-IsSilent a s = (a, s.kernel, refl, refl)

  bind-IsSilent :
      {A B : Type 0} (m : M A) (f : A → M B)
      → IsSilent m
      → ((a : A) → IsSilent (f a))
      → IsSilent (m >>= f)
  bind-IsSilent m f q h s =
      let (a, k, e, same) = q s in
      let (b, k', e', same') = h a (record s { kernel = k }) in
      (b, k', ap (λ r. and_then r f) e ∙ e', same' ∙ same)

  epoll_mod-IsSilent :
      (epfd fd : Fd) (ev : Events) (conn : Option ℕ) → IsSilent (epoll_mod epfd fd ev conn)
  unfolding epoll_mod
  epoll_mod-IsSilent epfd fd ev conn s =
      (_, _, refl, rec.on_ctl s.kernel epfd (modify (with_defaults ev) conn) fd)

  pub update_epoll_events-IsSilent : (i : ℕ) → IsSilent (update_epoll_events i)
  unfolding update_epoll_events
  update_epoll_events-IsSilent i s = elim (Bool-cases (is_valid (s.config.connections i))) [
    | inl e ↦ rw (e, not) (epoll_mod-IsSilent _ _ _ _ s)
    | inr e ↦ rw (e, not) (_, _, refl, refl)
  ]

  update_peer_events-IsSilent : (peer : Option ℕ) → IsSilent (update_peer_events peer)
  unfolding update_peer_events
  update_peer_events-IsSilent none s = (_, _, refl, refl)
  update_peer_events-IsSilent (some j) s =
      bind-IsSilent _ _ (update_epoll_events-IsSilent j) (λ _. pure-IsSilent tt) s

  pub refresh_events-IsSilent : (i : ℕ) → IsSilent (refresh_events i)
  unfolding refresh_events
  refresh_events-IsSilent i =
      bind-IsSilent _ _ (update_epoll_events-IsSilent i)
        (λ _ s. update_peer_events-IsSilent (s.config.connections i).peer s)

  pub close_socket-IsSilent : (epfd fd : Fd) → IsSilent (close_socket epfd fd)
  unfolding close_socket epoll_del close_fd
  close_socket-IsSilent epfd none s = (_, _, refl, refl)
  close_socket-IsSilent epfd (some fd) s =
      (_, _, refl, rec.on_close _ (some fd) ∙ rec.on_ctl s.kernel epfd delete (some fd))

  pub get_timestamp_ms-IsSilent : IsSilent get_timestamp_ms
  unfolding get_timestamp_ms
  get_timestamp_ms-IsSilent s = (_, _, refl, rec.on_clock s.kernel)

  -- A silent command, and then the rest.
  pub after-Silent :
      {A B : Type 0} {Q : B → State → Type 0} {r : Option (A × State)} (s : State) (f : A → M B)
      → Silent s r
      → ((a : A) (k : os.Kernel)
          → rec.seen k ≡ rec.seen s.kernel
          → Yields Q (f a (record s { kernel = k })))
      → Yields Q (and_then r f)
  after-Silent s f (a, k, e, same) h = rw e (h a k same)
