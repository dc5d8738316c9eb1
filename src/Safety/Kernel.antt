-- ===== src/Safety/Kernel.antt =====
-- The wrappers of src/core/epoll.c, and update_epoll_events, change nothing but the kernel's state.
use epoll_proxy.Base.{
  ℕ, refl, Option, none, some, Bool-cases, inl, inr, not, Bool, true, false, arith,
}
use epoll_proxy.Config.{Fd}
use epoll_proxy.Kernel.{Os, Events, add, IsReliable}
use epoll_proxy.Connection.{is_valid}
use epoll_proxy.Epoll.{epoll_add, epoll_mod, epoll_del, close_fd, with_defaults, succeeded}
use epoll_proxy.Proxy.Lifecycle.{get_timestamp_ms, close_socket}
use epoll_proxy.Proxy.Events.{update_epoll_events, update_peer_events}
use epoll_proxy.Proxy.Write.{refresh_events}
use epoll_proxy.Safety.{IsQuiet, Ensures}
use epoll_proxy.State.{State, M, and_then}
use epoll_proxy.Safety.Rules.{pure-IsQuiet, bind-IsQuiet}

module _ ⦃os : Os⦄ where
  pub epoll_add-IsQuiet :
      (epfd fd : Fd) (ev : Events) (conn : Option ℕ) → IsQuiet (epoll_add epfd fd ev conn)
  unfolding epoll_add
  epoll_add-IsQuiet epfd fd ev conn s = (_, _, refl)

  -- A kernel that refuses is not a reliable one.
  pub after_add :
      {B : Type 0} {Q : B → State → Type 0} (epfd fd : Fd) (ev : Events) (conn : Option ℕ)
      (s : State) (f : Bool → M B)
      → ((k : os.Kernel) → Ensures Q (f true (record s { kernel = k })))
      → ((k : os.Kernel) → ¬ (IsReliable os) → Ensures Q (f false (record s { kernel = k })))
      → Ensures Q (and_then (epoll_add epfd fd ev conn s) f)
  unfolding epoll_add
  after_add epfd fd ev conn s f granted refused =
      let answer = os.epoll_ctl s.kernel epfd (add (with_defaults ev) conn) fd in
      elim (Bool-cases (succeeded answer.0)) [
        | inl e ↦ rw e (granted answer.1)
        | inr e ↦ rw e (
            refused answer.1
              (λ h. ground (arith, e, h.registers s.kernel epfd fd (with_defaults ev) conn)))
      ]

  pub epoll_mod-IsQuiet :
      (epfd fd : Fd) (ev : Events) (conn : Option ℕ) → IsQuiet (epoll_mod epfd fd ev conn)
  unfolding epoll_mod
  epoll_mod-IsQuiet epfd fd ev conn s = (_, _, refl)

  pub epoll_del-IsQuiet : (epfd fd : Fd) → IsQuiet (epoll_del epfd fd)
  unfolding epoll_del
  epoll_del-IsQuiet epfd fd s = (_, _, refl)

  pub close_fd-IsQuiet : (fd : Fd) → IsQuiet (close_fd fd)
  unfolding close_fd
  close_fd-IsQuiet fd s = (_, _, refl)

  pub get_timestamp_ms-IsQuiet : IsQuiet get_timestamp_ms
  unfolding get_timestamp_ms
  get_timestamp_ms-IsQuiet s = (_, _, refl)

  pub close_socket-IsQuiet : (epfd fd : Fd) → IsQuiet (close_socket epfd fd)
  unfolding close_socket epoll_del close_fd
  close_socket-IsQuiet epfd none s = (_, _, refl)
  close_socket-IsQuiet epfd (some fd) s = (_, _, refl)

  pub update_epoll_events-IsQuiet : (i : ℕ) → IsQuiet (update_epoll_events i)
  unfolding update_epoll_events
  update_epoll_events-IsQuiet i s = elim (Bool-cases (is_valid (s.config.connections i))) [
    | inl e ↦ rw (e, not) (epoll_mod-IsQuiet _ _ _ _ s)
    | inr e ↦ rw (e, not) (_, _, refl)
  ]

  pub update_peer_events-IsQuiet : (peer : Option ℕ) → IsQuiet (update_peer_events peer)
  unfolding update_peer_events
  update_peer_events-IsQuiet none s = (_, _, refl)
  update_peer_events-IsQuiet (some j) s =
      bind-IsQuiet _ _ (update_epoll_events-IsQuiet j) (λ _. pure-IsQuiet tt) s

  pub refresh_events-IsQuiet : (i : ℕ) → IsQuiet (refresh_events i)
  unfolding refresh_events
  refresh_events-IsQuiet i =
      bind-IsQuiet _ _ (update_epoll_events-IsQuiet i)
        (λ _ s. update_peer_events-IsQuiet (s.config.connections i).peer s)
