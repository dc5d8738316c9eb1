-- ===== src/Safety/Running.antt =====
-- proxy_run (src/proxy/proxy.c) against the invariant: every event, whatever came before it.
use epoll_proxy.Base.{
  ℕ, zero, suc, ◌<◌, ◌≡◌, refl, ap, List, [], ◌∷◌, Option, none, some, not, ◌&&◌, ◌||◌, arith,
}
use epoll_proxy.Config.{max_connections, max_events}
use epoll_proxy.Kernel.{Os, IsPosix, Events, WaitReply, ready, eintr}
use epoll_proxy.Connection.{is_valid, is_connecting, is_connected}
use epoll_proxy.Epoll.{epoll_wait_events}
use epoll_proxy.State.{State, M, done}
use epoll_proxy.Proxy.Events.{is_http, handle_error}
use epoll_proxy.Proxy.Write.{handle_write}
use epoll_proxy.Proxy.Read.{handle_read, handle_read_http_client, handle_read_tcp}
use epoll_proxy.Proxy.Loop.{
  RunResult, connect_event, read_write_event, handle_event, handle_events, after_wait, proxy_run,
}
use epoll_proxy.Safety.{IsSafe, IsBusy, ensures, Safely}
use epoll_proxy.Safety.Rules.{bind, branch, after_quiet}
use epoll_proxy.Safety.Kernel.{get_timestamp_ms-IsQuiet}
use epoll_proxy.Safety.Events.{handle_error-Safely, handle_connect-Safely}
use epoll_proxy.Safety.Write.{handle_write-Safely, open_of_valid}
use epoll_proxy.Safety.ReadHttp.{handle_read_http_client-Safely}
use epoll_proxy.Safety.ReadTcp.{handle_read_tcp-Safely}
use epoll_proxy.Safety.Accepting.{handle_accept-Safely}

-- The pointers of a list of events lie in the pool.
abbrev pub InPool : List (Events × Option ℕ) → Type 0
InPool [] = Unit
InPool ((ev, none) ∷ evs) = InPool evs
InPool ((ev, some i) ∷ evs) = (i < max_connections) × InPool evs

-- What epoll promises of `data.ptr`: it is one that was registered, and those are NULL and
-- connections of the pool.
pub record IsEpoll (os : Os) : Type 0 where
  pub delivers :
      (k k' : os.Kernel) (epoll_fd : Option ℕ) (n ms : ℕ) (evs : List (Events × Option ℕ))
      → os.epoll_wait k epoll_fd n ms ≡ (ready evs, k')
      → InPool evs

module _ ⦃os : Os⦄ where
  -- With read counts that POSIX allows, in a safe state, a read event on any connection of the
  -- pool, in use or not, is handled to its end in either mode, whatever else the kernel answers,
  -- and leaves a safe state.
  pub handle_read-Safely :
      IsPosix os → (i : ℕ) (s : State) → IsSafe s → i < max_connections → Safely (handle_read i s)
  unfolding handle_read
  handle_read-Safely posix i s v h =
      let conn = s.config.connections i in
      branch (not (is_valid conn)) done _ (λ _. ensures v)
        (λ e.
          let b : IsBusy i s = (v, (h, open_of_valid conn (ground arith))) in
          branch (is_http s.config.mode && conn.is_client) (handle_read_http_client i)
            (handle_read_tcp i)
            (λ e'. handle_read_http_client-Safely posix i s b (ground arith) (ground arith))
            (λ _. handle_read_tcp-Safely posix i s b))

  connect_event-Safely : IsPosix os → (i : ℕ) (s : State) → IsBusy i s → Safely (connect_event i s)
  unfolding connect_event
  connect_event-Safely posix i s b = bind (handle_connect-Safely i s b) (λ _ s' v.
      branch (is_connected (s'.config.connections i).state) (handle_write i) done
        (λ _. handle_write-Safely posix i s' v b.1.0) (λ _. ensures v))

  read_write_event-Safely :
      IsPosix os
      → (ev : Events) (i : ℕ) (s : State) → IsSafe s
      → i < max_connections
      → Safely (read_write_event ev i s)
  unfolding read_write_event
  read_write_event-Safely posix ev i s v h =
      bind
        (branch ev.epoll_out (handle_write i) done (λ _. handle_write-Safely posix i s v h)
          (λ _. ensures v))
        (λ _ s' v'.
          branch ev.epoll_in (handle_read i) done (λ _. handle_read-Safely posix i s' v' h)
            (λ _. ensures v'))

  pub handle_event-Safely :
      IsPosix os
      → (rounds : ℕ) (ev : Events) (conn : Option ℕ) (s : State) → IsSafe s
      → InPool ((ev, conn) ∷ [])
      → Safely (handle_event rounds ev conn s)
  unfolding handle_event
  handle_event-Safely posix rounds ev none s v h = handle_accept-Safely rounds s v
  handle_event-Safely posix rounds ev (some i) s v h =
      branch (ev.epoll_err || ev.epoll_hup || ev.epoll_rdhup) (handle_error i) _
        (λ _. handle_error-Safely i s v h.0)
        (λ _.
          branch (is_connecting (s.config.connections i).state && ev.epoll_out) (connect_event i)
            (read_write_event ev i)
            (λ e. connect_event-Safely posix i s (v, (h.0, λ c. ground arith)))
            (λ _. read_write_event-Safely posix ev i s v h.0))

  -- With read and write counts that POSIX allows, in a safe state, the events of a turn on
  -- connections of the pool and on the listening socket are handled to their end one after
  -- another, even when one of them closes the connection of a later one, and leave a safe state.
  pub handle_events-Safely :
      IsPosix os
      → (rounds : ℕ) (evs : List (Events × Option ℕ)) (s : State) → IsSafe s
      → InPool evs
      → Safely (handle_events rounds evs s)
  unfolding handle_events
  handle_events-Safely posix rounds [] s v h = ensures v
  handle_events-Safely posix rounds ((ev, none) ∷ evs) s v h =
      bind (handle_event-Safely posix rounds ev none s v tt)
        (λ _ s' v'. handle_events-Safely posix rounds evs s' v' h)
  handle_events-Safely posix rounds ((ev, some i) ∷ evs) s v h =
      bind (handle_event-Safely posix rounds ev (some i) s v (h.0, tt))
        (λ _ s' v'. handle_events-Safely posix rounds evs s' v' h.1)

  after_wait-Safely :
      IsPosix os
      → (rest : M RunResult) (rounds : ℕ) (r : WaitReply) (s : State) → IsSafe s
      → ((evs : List (Events × Option ℕ)) → r ≡ ready evs → InPool evs)
      → ((s' : State) → IsSafe s' → Safely (rest s'))
      → Safely (after_wait rest rounds r s)
  unfolding after_wait
  after_wait-Safely posix rest rounds (WaitReply.failed eintr) s v h k = k s v
  after_wait-Safely posix rest rounds (WaitReply.failed e) s v h k = ensures v
  after_wait-Safely posix rest rounds (ready evs) s v h k =
      bind (handle_events-Safely posix rounds evs s v (h evs refl))
        (λ _ s' v'. after_quiet s' _ (get_timestamp_ms-IsQuiet s') (λ _ k'. k _ v'))

  -- With a kernel that behaves as POSIX and epoll say, from a safe state, any number of turns of
  -- the event loop, with any events in any order, comes to its end and leaves a safe state: no loop
  -- of a handler runs out of its fuel, and no request is read, written or freed through a pointer
  -- that is NULL or was freed.
  pub proxy_run-Safely :
      IsPosix os
      → IsEpoll os
      → (turns rounds : ℕ) (s : State) → IsSafe s
      → Safely (proxy_run turns rounds s)
  unfolding proxy_run epoll_wait_events
  proxy_run-Safely posix epoll zero rounds s v = ensures v
  proxy_run-Safely posix epoll (suc turns) rounds s v =
      branch (os.interrupted s.kernel) _ _ (λ _. ensures v)
        (λ _.
          let (r, k) = os.epoll_wait s.kernel s.config.epoll_fd max_events 1000 in
          after_wait-Safely posix (proxy_run turns rounds) rounds r (record s { kernel = k }) v
            (λ evs e. epoll.delivers s.kernel k s.config.epoll_fd max_events 1000 evs (pair_eq e))
            (proxy_run-Safely posix epoll turns rounds))
    where
      pair_eq : {r : WaitReply × os.Kernel} {a : WaitReply} → r.0 ≡ a → r ≡ (a, r.1)
      pair_eq {r} e = ap (λ a. (a, r.1)) e
