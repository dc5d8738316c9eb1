-- ===== src/Safety/Events.antt =====
-- handle_error and handle_connect (src/proxy/proxy.c) keep the invariant.
use epoll_proxy.Base.{ℕ, ◌<◌, refl, none, some, Option-cases, inl, inr, ◌&&◌, codes}
use epoll_proxy.Config.{connected, max_connections}
use epoll_proxy.Kernel.{Os, SocketError, pending, unavailable}
use epoll_proxy.Connection.{set_conn, set_state}
use epoll_proxy.Connection.Pool.Steps.{proper}
use epoll_proxy.State.{State}
use epoll_proxy.Proxy.Lifecycle.{close, close_pair}
use epoll_proxy.Proxy.Events.{
  handle_error, handle_connect, fail_connect, connect_result, count_error, close_side, is_http,
}
use epoll_proxy.Proxy.Respond.{send_http_error}
use epoll_proxy.Safety.{IsSafe, IsBusy, ensures, Safely}
use epoll_proxy.Safety.Rules.{branch, after_quiet}
use epoll_proxy.Safety.Assign.{set_stats-IsValid}
use epoll_proxy.Safety.Kernel.{update_epoll_events-IsQuiet}
use epoll_proxy.Safety.Lifecycle.{close-Safely, close_pair-Safely}
use epoll_proxy.Safety.Touch.{move-IsValid, send_http_error-Safely}

module _ ⦃os : Os⦄ where
  pub close_side-Safely :
      (i : ℕ) (s : State) → IsSafe s → i < max_connections → Safely (close_side i s)
  unfolding close_side
  close_side-Safely i s v h =
      branch (is_http s.config.mode && (s.config.connections i).is_client) (close (some i))
        (close_pair (some i)) (λ e. close-Safely i s v h) (λ e. close_pair-Safely i s v h)

  -- In a safe state, an error event on any connection of the pool, in use or not, is handled to its
  -- end, and leaves a safe state.
  pub handle_error-Safely :
      (i : ℕ) (s : State) → IsSafe s → i < max_connections → Safely (handle_error i s)
  unfolding handle_error
  handle_error-Safely i s v h =
      close_side-Safely i _ (set_stats-IsValid (count_error s.config.stats) v refl) h

  fail_connect-Safely :
      (i : ℕ) (s : State) → IsSafe s → i < max_connections → Safely (fail_connect i s)
  unfolding fail_connect
  fail_connect-Safely i s v h = elim (Option-cases (s.config.connections i).peer) [
    | inl e ↦ rw (e, fail_connect) (close_pair-Safely i s v h)
    | inr (j, e) ↦
        rw (e, fail_connect)
          (branch (is_http s.config.mode && (s.config.connections j).is_client)
            (send_http_error j 502 (codes "Bad Gateway")) (close_pair (some i))
            (λ _. send_http_error-Safely j 502 (codes "Bad Gateway") s v (v.sound.peers i j h e))
            (λ _. close_pair-Safely i s v h))
  ]

  connect_result-Safely :
      (i : ℕ) (r : SocketError) (s : State) → IsBusy i s → Safely (connect_result i r s)
  unfolding connect_result set_state
  connect_result-Safely i unavailable s (v, o) = fail_connect-Safely i s v o.0
  connect_result-Safely i (pending (some e)) s (v, o) =
      fail_connect-Safely i
        (record s { config = record s.config { stats = count_error s.config.stats } })
        (set_stats-IsValid (count_error s.config.stats) v refl) o.0
  connect_result-Safely i (pending none) s (v, o) =
      let p = proper v.sound i o.0 in
      let conn = record (s.config.connections i) { state = connected } in
      let s' : State = record s { config = set_conn s.config i conn } in
      after_quiet s' _ (update_epoll_events-IsQuiet i s') (λ _ k. ensures (
        move-IsValid i conn v o
          (record { reading = p.reading; writing = p.writing; peer_in = p.peer_in }) refl refl))

  -- In a safe state, the end of a connect on a connection in use is handled to its end, however the
  -- connect came out, and leaves a safe state.
  pub handle_connect-Safely : (i : ℕ) (s : State) → IsBusy i s → Safely (handle_connect i s)
  unfolding handle_connect
  handle_connect-Safely i s b = connect_result-Safely i _ _ b
