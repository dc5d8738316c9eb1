-- ===== src/Relay/Sent.antt =====
-- A request on its last step: from the write buffer of a new connection to the socket of the
-- backend (handle_connect and handle_write, src/proxy/proxy.c).
use epoll_proxy.Base.{
  ℕ, ◌<◌, ◌≡◌, refl, sym, ◌∙◌, ap, List, ◌++◌, append-nil, none, some, Bool, true, false, not, ◌||◌,
  arith,
}
use epoll_proxy.Config.{Connection, connected, max_connections}
use epoll_proxy.Kernel.{Os, IsPosix, Events, pending}
use epoll_proxy.Buffer
use epoll_proxy.Buffer.{IoResult, count, error}
use epoll_proxy.Buffer.Refine.{contents, contents-empty}
use epoll_proxy.Connection.{set_state, can_write, is_connecting, is_connected}
use epoll_proxy.Proxy.Events.{handle_connect, connect_result}
use epoll_proxy.Proxy.Write.{
  Exit, broke, returned, write_loop, after_writing, write_fuel, handle_write,
}
use epoll_proxy.Proxy.Loop.{connect_event, handle_event}
use epoll_proxy.State.{State, done, ◌>>=◌}
use epoll_proxy.Safety.{IsSafe, IsBusy, Ensures}
use epoll_proxy.Safety.Drain.{IsTaking, IsDrained, write_loop-IsDrained}
use epoll_proxy.Safety.Running.{handle_event-Safely}
use epoll_proxy.Safety.Paired.{IsForwarded}
use epoll_proxy.Relay.Traffic.{IsRecorded}
use epoll_proxy.Relay.Yields.{
  Yields, yields, weaken-Yields, bind-Yields, branch-Yields, total_of, Yields-of_ensured, result_of,
}
use epoll_proxy.Relay.Silent.{update_epoll_events-IsSilent}
use epoll_proxy.Relay.Sending.{after_writing-IsStill, IsSending, Leaving, write_loop-Leaving}
use epoll_proxy.Safety.Events.{handle_connect-Safely}

empty_of_blocked :
    (conn : Connection) (n : ℕ)
    → conn.fd ≡ some n
    → conn.state ≡ connected
    → can_write conn ≡ false
    → Buffer.is_empty conn.write_buf ≡ true
unfolding can_write
empty_of_blocked conn n e e' h = ground (arith, e, e', h)

module _ ⦃os : Os⦄ (rec : IsRecorded os) (posix : IsPosix os) (taking : IsTaking os) (i n : ℕ)
    (hi : i < max_connections) (total : List ℕ) where
  -- The loop writes everything out.
  write_loop_sends :
      (s : State)
      → IsBusy i s
      → IsSending rec i hi (some n) total s
      → Yields (λ e t. (rec.seen t.kernel).went (some n) ≡ total) (write_loop write_fuel i s)
  write_loop_sends s b q =
      weaken-Yields (λ e t. all_out e t)
        (Yields-of_ensured (
          total_of (write_loop-IsDrained posix taking i s b)
            (write_loop-Leaving rec i hi (some n) total posix write_fuel s q)))
    where
      all_out :
          (e : Exit) (t : State)
          → IsDrained i e t × Leaving rec i hi (some n) total e t
          → (rec.seen t.kernel).went (some n) ≡ total
      all_out broke t (drained, sending) =
          sym (append-nil _)
          ∙ ap (λ xs. (rec.seen t.kernel).went (some n) ++ xs) (sym drained.2)
          ∙ sending.sum
      all_out returned t (drained, sending) = absurd (ground (arith, drained.0))

  handle_write_sends :
      (s : State)
      → IsBusy i s
      → (s.config.connections i).state ≡ connected
      → IsSending rec i hi (some n) total s
      → Yields (λ _ t. (rec.seen t.kernel).went (some n) ≡ total) (handle_write i s)
  unfolding handle_write
  handle_write_sends s b e q =
      let conn = s.config.connections i in
      branch-Yields (not (can_write conn)) done (write_loop write_fuel i >>= after_writing i)
        (λ blocked.
          let empty = empty_of_blocked conn n q.fd_is e (ground (arith, blocked)) in
          yields (
            sym (append-nil _)
            ∙ ap (λ xs. (rec.seen s.kernel).went (some n) ++ xs)
                (sym (contents-empty conn.write_buf (ground (arith, empty))))
            ∙ q.sum))
        (λ _. bind-Yields (write_loop_sends s b q) (λ exit t out.
          weaken-Yields (λ _ u still. ap (λ r. r.went (some n)) still ∙ out)
            (after_writing-IsStill rec i hi exit t)))

  -- What `handle_connect` does when no error is pending.
  connect_run :
      (s : State)
      → (s.config.connections i).fd ≡ some n
      → (os.socket_error s.kernel (some n)).0 ≡ pending none
      → (k : os.Kernel) × (handle_connect i s
          ≡ some (tt, record s { config = set_state s.config (some i) connected; kernel = k }))
        × (rec.seen k ≡ rec.seen s.kernel)
  unfolding handle_connect connect_result
  connect_run s e none_pending =
      let k = (os.socket_error s.kernel (some n)).1 in
      let s' : State = record s { config = set_state s.config (some i) connected; kernel = k } in
      let (a, k', run, same) = update_epoll_events-IsSilent rec i s' in
      (k', rw (e, none_pending, connect_result, run) refl, same ∙ rec.on_error s.kernel (some n))

module _ ⦃os : Os⦄ (rec : IsRecorded os) (posix : IsPosix os) (taking : IsTaking os) where
  connect_event_sends :
      (i n : ℕ) (s : State)
      → IsBusy i s
      → (s.config.connections i).fd ≡ some n
      → (os.socket_error s.kernel (some n)).0 ≡ pending none
      → Yields
          (λ _ t.
            (rec.seen t.kernel).went (some n)
            ≡ (rec.seen s.kernel).went (some n) ++ contents (s.config.connections i).write_buf)
          (connect_event i s)
  unfolding connect_event set_state
  connect_event_sends i n s b e none_pending =
      let conn = s.config.connections i in
      let hi = b.1.0 in
      let total = (rec.seen s.kernel).went (some n) ++ contents conn.write_buf in
      let (k, run, same) = connect_run rec posix taking i n hi total s e none_pending in
      let s' : State = record s { config = set_state s.config (some i) connected; kernel = k } in
      let conn' = s'.config.connections i in
      let is_now : conn'.state ≡ connected = ground arith in
      let same_buf : conn'.write_buf ≡ conn.write_buf = ground arith in
      let b' : IsBusy i s' =
        (result_of run (handle_connect-Safely i s b), (hi, λ h. ground (arith, is_now))) in
      let q : IsSending rec i hi (some n) total s' = record {
        fd_is = ground (arith, e);
        valid = (b'.0.sound.buffers i hi).1;
        sum =
            ap (λ buf. (rec.seen k).went (some n) ++ contents buf) same_buf
            ∙ ap (λ r. r.went (some n) ++ contents conn.write_buf) same;
      } in
      rw run (
        branch-Yields (is_connected conn'.state) (handle_write i) done
          (λ _. handle_write_sends rec posix taking i n hi total s' b' is_now q)
          (λ off. absurd (ground (arith, is_now, off))))

  -- With a kernel that records its traffic, counts as POSIX allows and takes at least one byte of
  -- each write: in a safe state in which a request was forwarded to a new connection, an event that
  -- tells that its socket can be written to, with no error on it, is handled to its end and leaves
  -- a safe state in which exactly the bytes of the request have gone out at that socket.
  pub handle_event-IsForwarded :
      (client backend n rounds : ℕ) (keep_alive : Bool) (text : List ℕ) (ev : Events) (s : State)
      → IsSafe s
      → backend < max_connections
      → IsForwarded client backend (some n) keep_alive text s.config
      → (os.socket_error s.kernel (some n)).0 ≡ pending none
      → ev.epoll_out ≡ true
      → (ev.epoll_err || ev.epoll_hup || ev.epoll_rdhup) ≡ false
      → Ensures
          (λ _ t.
            IsSafe t
            × ((rec.seen t.kernel).went (some n) ≡ (rec.seen s.kernel).went (some n) ++ text))
          (handle_event rounds ev (some backend) s)
  unfolding handle_event
  handle_event-IsForwarded client backend n rounds keep_alive text ev s v h f none_pending out
        fine =
      let b : IsBusy backend s = (v, (h, λ c. ground (arith, f.connects))) in
      let sends = connect_event_sends backend n s b f.descriptor none_pending in
      let connecting_now : is_connecting (s.config.connections backend).state ≡ true =
        ap is_connecting f.connects in
      total_of (handle_event-Safely posix rounds ev (some backend) s v (h, tt)) (
        rw (fine, connecting_now, out)
          (weaken-Yields (λ _ t e. e ∙ ap (λ xs. (rec.seen s.kernel).went (some n) ++ xs) f.sent)
            sends))
