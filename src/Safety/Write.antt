-- ===== src/Safety/Write.antt =====
-- handle_write (src/proxy/proxy.c) ends, and keeps the invariant.
use epoll_proxy.Base.{
  ℕ, zero, suc, ◌<◌, ◌≡◌, ◌≢◌, refl, some, Bool, true, false, not, arith, length,
}
use epoll_proxy.Config.{Config, Connection, http, closed, max_connections}
use epoll_proxy.Kernel.{Os, IsPosix}
use epoll_proxy.Http
use epoll_proxy.Buffer
use epoll_proxy.Buffer.{IoResult, count, error}
use epoll_proxy.Buffer.Refine.{contents, length-contents, clear-IsValid}
use epoll_proxy.Buffer.Progress.{write_fd_progress}
use epoll_proxy.Connection.{set_conn, can_write, is_valid, timestamp_ms}
use epoll_proxy.Connection.Pool.{IsProper}
use epoll_proxy.Connection.Pool.Steps.{proper}
use epoll_proxy.State.{State, M, pure, done, ◌>>=◌}
use epoll_proxy.Proxy.Lifecycle.{close, update_activity, get_timestamp_ms}
use epoll_proxy.Proxy.Events.{count_error}
use epoll_proxy.Proxy.Write.{
  Exit, broke, returned, is_again, count_sent, count_reused, reset_for_next, write_buffer,
  fail_write, after_write, until_empty, write_loop, reuse, check_requests, next_request,
  after_writing, is_finished, finish_response, handle_write, write_fuel, is_limit_reached,
}
use epoll_proxy.Safety.{IsSafe, IsBusy, Ensures, ensures, Safely}
use epoll_proxy.Safety.Rules.{bind, branch}
use epoll_proxy.Safety.Assign.{set_stats-IsValid}
use epoll_proxy.Safety.Kernel.{refresh_events-IsQuiet}
use epoll_proxy.Safety.Lifecycle.{close-Safely}
use epoll_proxy.Safety.Events.{close_side-Safely}
use epoll_proxy.Safety.Touch.{SameRole, touch-IsValid, touch-IsOpen, move-IsValid}
use epoll_proxy.Safety.Heap.{after_store}

-- How a loop of a handler leaves the state: a `break` leaves the connection in use.
module _ ⦃os : Os⦄ where
  abbrev pub Leaves : ℕ → Exit → State → Type 0
  Leaves i broke s = IsBusy i s
  Leaves i returned s = IsSafe s

abbrev pub waiting : Config → ℕ → ℕ
waiting c i = length (contents (c.connections i).write_buf)

pub open_of_valid : (conn : Connection) → is_valid conn ≡ true → conn.state ≢ closed
unfolding is_valid
open_of_valid conn e h = ground arith

pub open_of_can_write : (conn : Connection) → can_write conn ≡ true → conn.state ≢ closed
unfolding can_write
open_of_can_write conn e h = ground arith

reset_for_next-IsProper : {conn : Connection} → IsProper conn → IsProper (reset_for_next conn)
unfolding reset_for_next
reset_for_next-IsProper p = record {
  reading = clear-IsValid p.reading;
  writing = clear-IsValid p.writing;
  peer_in = p.peer_in;
}

module _ ⦃os : Os⦄ where
  fail_write-Leaves : (i : ℕ) (s : State) → IsBusy i s → Ensures (Leaves i) (fail_write i s)
  unfolding fail_write
  fail_write-Leaves i s (v, o) =
      bind
        (close_side-Safely i
          (record s { config = record s.config { stats = count_error s.config.stats } })
          (set_stats-IsValid (count_error s.config.stats) v refl) o.0)
        (λ _ s' v'. ensures v')

  -- A touched connection is still in use.
  pub touch-IsBusy :
      (i : ℕ) (conn : Connection) (s : State)
      → IsBusy i s
      → IsProper conn
      → SameRole (s.config.connections i) conn
      → (k : os.Kernel) → IsBusy i (record s { config = set_conn s.config i conn; kernel = k })
  touch-IsBusy i conn s (v, o) p same k =
      (touch-IsValid i conn v p same, touch-IsOpen s.config i i conn same.state o)

  -- `update_activity` leaves the buffers alone.
  pub activity-IsBusy :
      {B : Type 0} {Q : B → State → Type 0} (i : ℕ) (s : State) (f : Unit {0} → M B)
      → IsBusy i s
      → ((now : ℕ) (k : os.Kernel)
          → let conn = record (s.config.connections i) { last_active = now } in
            let s' : State = record s { config = set_conn s.config i conn; kernel = k } in
            IsBusy i s' → Ensures Q (f tt s'))
      → Ensures Q ((update_activity i >>= f) s)
  unfolding update_activity get_timestamp_ms
  activity-IsBusy i s f b h =
      let p = proper b.0.sound i b.1.0 in
      h (timestamp_ms (os.clock_gettime s.kernel).0) (os.clock_gettime s.kernel).1 (
        touch-IsBusy i _ s b
          (record { reading = p.reading; writing = p.writing; peer_in = p.peer_in })
          (record { state = refl; client = refl; request = refl }) (os.clock_gettime s.kernel).1)

  until_empty-Leaves :
      (rest : M Exit) (i : ℕ) (s : State)
      → IsBusy i s
      → Ensures (Leaves i) (rest s)
      → Ensures (Leaves i) (until_empty rest i s)
  unfolding until_empty
  until_empty-Leaves rest i s b h =
      branch (Buffer.is_empty (s.config.connections i).write_buf) (pure broke) rest (λ _. ensures b)
        (λ _. h)

  -- A round after `buffer_write_fd`: the loop goes on with what waited still waiting.
  after_write-Leaves :
      (rest : M Exit) (i : ℕ) (r : IoResult) (s : State)
      → IsBusy i s
      → ((n : ℕ) (s' : State)
          → r ≡ count (suc n)
          → IsBusy i s'
          → waiting s'.config i ≡ waiting s.config i
          → Ensures (Leaves i) (rest s'))
      → Ensures (Leaves i) (after_write rest i r s)
  unfolding after_write
  after_write-Leaves rest i (error e) s b h =
      branch (is_again e) (pure broke) (fail_write i) (λ _. ensures b)
        (λ _. fail_write-Leaves i s b)
  after_write-Leaves rest i (count zero) s b h = ensures b
  after_write-Leaves rest i (count (suc n)) s b h = activity-IsBusy i s _ b λ now k b'.
      let counted = set_stats-IsValid (count_sent (suc n) s.config.stats) b'.0 refl in
      until_empty-Leaves rest i _ (counted, b'.1) (h n _ refl (counted, b'.1) (ground arith))

  write_loop-Leaves :
      IsPosix os
      → (fuel i : ℕ) (s : State) → IsBusy i s
      → waiting s.config i < fuel
      → Ensures (Leaves i) (write_loop fuel i s)
  unfolding write_loop write_buffer
  write_loop-Leaves posix zero i s b m = absurd (omega arith)
  write_loop-Leaves posix (suc fuel) i s (v, o) m =
      let conn = s.config.connections i in
      let p = proper v.sound i o.0 in
      let (valid, progress) =
        write_fd_progress os posix s.kernel conn.write_buf conn.fd p.writing in
      let (r, buf, k) = Buffer.write_fd os s.kernel conn.write_buf conn.fd in
      let b =
        touch-IsBusy i (record conn { write_buf = buf }) s (v, o)
          (record { reading = p.reading; writing = valid; peer_in = p.peer_in })
          (record { state = refl; client = refl; request = refl }) k in
      after_write-Leaves (write_loop fuel i) i r _ b
        (λ n s' e b' same. write_loop-Leaves posix fuel i s' b' (ground (arith, progress n e)))

  reuse-Safely : (i : ℕ) (s : State) → IsSafe s → Safely (reuse i s)
  unfolding reuse
  reuse-Safely i s v =
      let s' : State = record s {
        config = record s.config { stats = count_reused s.config.stats };
      } in
      let (a, k, e) = refresh_events-IsQuiet i s' in
      rw e (ensures (set_stats-IsValid (count_reused s.config.stats) v refl))

  check_requests-Safely :
      (i : ℕ) (s : State) → IsSafe s → i < max_connections → Safely (check_requests i s)
  unfolding check_requests
  check_requests-Safely i s v h =
      branch (is_limit_reached (s.config.connections i).requests_handled) (close (some i)) (reuse i)
        (λ _. close-Safely i s v h) (λ _. reuse-Safely i s v)

  next_request-Safely :
      (i : ℕ) (s : State)
      → IsBusy i s
      → s.config.mode ≡ http
      → (s.config.connections i).is_client ≡ true
      → Safely (next_request i s)
  unfolding next_request
  next_request-Safely i s (v, o) m q =
      let live = v.live m i (record { in_pool = o.0; client = q; open_state = o.1 }) in
      after_store _ Http.init s _ live v λ heap v'.
        check_requests-Safely i _
          (move-IsValid i (reset_for_next (s.config.connections i)) v' o
            (reset_for_next-IsProper (proper v.sound i o.0)) (role _).0 (role _).1)
          o.0
    where
      role :
          (conn : Connection)
          → ((reset_for_next conn).is_client ≡ conn.is_client)
            × ((reset_for_next conn).http_req ≡ conn.http_req)
      role conn = (unfold reset_for_next in refl, unfold reset_for_next in refl)

  finish_response-Safely :
      (finished : Bool) (i : ℕ) (s : State)
      → is_finished s.config i ≡ finished
      → IsBusy i s
      → Safely (finish_response finished i s)
  unfolding finish_response is_finished
  finish_response-Safely false i s e b =
      let (a, k, same) = refresh_events-IsQuiet i s in rw same (ensures b.0)
  finish_response-Safely true i s e b =
      branch (not (s.config.connections i).keep_alive) (close (some i)) (next_request i)
        (λ _. close-Safely i s b.0 b.1.0)
        (λ _. next_request-Safely i s b (ground arith) (ground arith))

  after_writing-Safely :
      (i : ℕ) (e : Exit) (s : State) → Leaves i e s → Safely (after_writing i e s)
  unfolding after_writing
  after_writing-Safely i returned s v = ensures v
  after_writing-Safely i broke s b = finish_response-Safely (is_finished s.config i) i s refl b

  -- With read and write counts that POSIX allows, in a safe state, a write event on any connection
  -- of the pool is handled to its end, whatever else the kernel answers: the fuel of the loop
  -- suffices, every request that is used is live, and the state is safe again.
  pub handle_write-Safely :
      IsPosix os → (i : ℕ) (s : State) → IsSafe s → i < max_connections → Safely (handle_write i s)
  unfolding handle_write
  handle_write-Safely posix i s v h =
      branch (not (can_write (s.config.connections i))) done
        (write_loop write_fuel i >>= after_writing i) (λ _. ensures v)
        (λ e.
          bind
            (write_loop-Leaves posix write_fuel i s
              (v, (h, open_of_can_write (s.config.connections i) (ground arith)))
              (omega
                (arith, length-contents (v.sound.buffers i h).1, (v.sound.buffers i h).1.inside)))
            (λ exit s' leaves. after_writing-Safely i exit s' leaves))
