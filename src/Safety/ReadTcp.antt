-- ===== src/Safety/ReadTcp.antt =====
-- handle_read_tcp (src/proxy/proxy.c) ends, and keeps the invariant.
use epoll_proxy.Base.{
  ℕ, zero, suc, ◌+◌, ◌-◌, min, ◌*◌, ◌<◌, ◌≡◌, refl, sym, ◌∙◌, ap, Option, none, some, not, arith,
  length, length-append, take,
}
use epoll_proxy.Config.{Config, buffer_size}
use epoll_proxy.Kernel.{Os, IsPosix}
use epoll_proxy.Buffer
use epoll_proxy.Buffer.{IoResult, count, error}
use epoll_proxy.Buffer.Refine.{contents}
use epoll_proxy.Buffer.Progress.{read_fd_progress}
use epoll_proxy.Connection.{set_conn, can_read}
use epoll_proxy.Connection.Pool.Steps.{proper}
use epoll_proxy.State.{State, M, pure, done, put_stats, ◌>>◌, ◌>>=◌}
use epoll_proxy.Proxy.Forward.{forward_data}
use epoll_proxy.Proxy.Forward.Stream.{forward_data_stream}
use epoll_proxy.Proxy.Events.{count_error}
use epoll_proxy.Proxy.Write.{Exit, broke, returned, is_again}
use epoll_proxy.Proxy.Lifecycle.{close_pair}
use epoll_proxy.Proxy.Read.{
  count_received, read_buffer, forward, after_forward, after_read_tcp, read_loop_tcp, refresh_if,
  read_fuel, handle_read_tcp,
}
use epoll_proxy.Safety.{IsSafe, IsBusy, ensures, Safely}
use epoll_proxy.Safety.Rules.{bind, branch}
use epoll_proxy.Safety.Assign.{set_stats-IsValid}
use epoll_proxy.Safety.Kernel.{refresh_events-IsQuiet}
use epoll_proxy.Safety.Lifecycle.{close_pair-Safely}
use epoll_proxy.Safety.Events.{handle_error-Safely}
use epoll_proxy.Safety.Write.{touch-IsBusy, activity-IsBusy}
use epoll_proxy.Safety.Paths.{
  on_the_way-le, forward_data-IsValid, peer-forward_data, touched-SamePaths, path_more, path,
  path-same, on_the_way, forward_data-none,
}

module _ ⦃os : Os⦄ where
  -- `forward_data` and what follows it, for the peer that the connection has.
  after_forward-Safely :
      (rest : M Exit) (i : ℕ) (peer : Option ℕ) (s : State)
      → IsBusy i s
      → (s.config.connections i).peer ≡ peer
      → ((s' : State) → IsBusy i s' → path s'.config i ≡ path s.config i → Safely (rest s'))
      → (let (n, c') = forward_data s.config (some i) peer in
          Safely (after_forward rest i n (record s { config = c' })))
  unfolding after_forward
  after_forward-Safely rest i none s b e h =
      rw (forward_data-none s.config i, after_forward)
        (bind (handle_error-Safely i s b.0 b.1.0) (λ _ s' v. ensures v))
  after_forward-Safely rest i (some j) s (v, o) e h =
      let hj = v.sound.peers i j o.0 e in
      let src = (v.sound.buffers i o.0).0 in
      let dst = (v.sound.buffers j hj).1 in
      let (result, joined, left, _, _) = forward_data_stream s.config i j src dst in
      let n =
        min (length (contents (s.config.connections i).read_buf))
          (buffer_size - (s.config.connections j).write_buf.len) in
      let moved_bytes = take n (contents (s.config.connections i).read_buf) in
      let (_, c') = forward_data s.config (some i) (some j) in
      let same : on_the_way c' i (some j) ≡ on_the_way s.config i (some j) = omega (
        arith,
        ap length joined,
        ap length left,
        length-append (contents (s.config.connections j).write_buf) moved_bytes,
        length-append moved_bytes (contents (c'.connections i).read_buf),
      ) in
      rw (result, after_forward)
        (h (record s { config = c' }) (forward_data-IsValid i j v o hj)
          (ap (on_the_way c' i) (peer-forward_data s.config i j i ∙ e)
            ∙ same
            ∙ ap (on_the_way s.config i) (sym e)))

  after_read_tcp-Safely :
      (rest : M Exit) (i : ℕ) (r : IoResult) (s : State)
      → IsBusy i s
      → ((n : ℕ) (s' : State)
          → r ≡ count (suc n)
          → IsBusy i s'
          → path s'.config i ≡ path s.config i
          → Safely (rest s'))
      → Safely (after_read_tcp rest i r s)
  unfolding after_read_tcp forward
  after_read_tcp-Safely rest i (error e) s b h =
      branch (is_again e) (pure broke)
        (put_stats count_error >> (close_pair (some i) >> pure returned)) (λ _. ensures b.0)
        (λ _.
          bind
            (close_pair-Safely i
              (record s { config = record s.config { stats = count_error s.config.stats } })
              (set_stats-IsValid (count_error s.config.stats) b.0 refl) b.1.0)
            (λ _ s' v. ensures v))
  after_read_tcp-Safely rest i (count zero) s b h =
      bind (close_pair-Safely i s b.0 b.1.0) (λ _ s' v. ensures v)
  after_read_tcp-Safely rest i (count (suc n)) s b h = activity-IsBusy i s _ b λ now k b'.
      let c : Config =
        set_conn s.config i (record (s.config.connections i) { last_active = now }) in
      let s' : State = record s {
        config = record c { stats = count_received (suc n) c.stats };
        kernel = k;
      } in
      let counted = set_stats-IsValid (count_received (suc n) s.config.stats) b'.0 refl in
      let same =
        path-same s.config s'.config i
          (touched-SamePaths s.config i now (count_received (suc n) c.stats)) in
      after_forward-Safely rest i (s'.config.connections i).peer s' (counted, b'.1) refl
        (λ s'' b'' same'. h n s'' refl b'' (same' ∙ same))

  read_loop_tcp-Safely :
      IsPosix os
      → (fuel i : ℕ) (s : State) → IsBusy i s
      → 2 * buffer_size < fuel + path s.config i
      → Safely (read_loop_tcp fuel i s)
  unfolding read_loop_tcp read_buffer
  read_loop_tcp-Safely posix zero i s (v, o) m =
      absurd (omega (arith, on_the_way-le i (s.config.connections i).peer v o.0 refl))
  read_loop_tcp-Safely posix (suc fuel) i s (v, o) m =
      let conn = s.config.connections i in
      let p = proper v.sound i o.0 in
      let (valid, progress) = read_fd_progress os posix s.kernel conn.read_buf conn.fd p.reading in
      let (r, buf, k) = Buffer.read_fd os s.kernel conn.read_buf conn.fd in
      let b' =
        touch-IsBusy i (record conn { read_buf = buf }) s (v, o)
          (record { reading = valid; writing = p.writing; peer_in = p.peer_in })
          (record { state = refl; client = refl; request = refl }) k in
      after_read_tcp-Safely (read_loop_tcp fuel i) i r _ b' (λ n s' e b'' same.
        read_loop_tcp-Safely posix fuel i s' b''
          (omega (arith, same, path_more s.config i (suc n) buf (progress n e))))

  refresh_if-Safely : (i : ℕ) (e : Exit) (s : State) → IsSafe s → Safely (refresh_if i e s)
  refresh_if-Safely i returned s v = ensures v
  refresh_if-Safely i broke s v =
      let (a, k, same) = refresh_events-IsQuiet i s in rw same (ensures v)

  -- With read counts that POSIX allows, in a safe state, a read event on a connection in use is
  -- handled by `handle_read_tcp` to its end, whatever else the kernel answers: the fuel of the loop
  -- suffices, and the state is safe again.
  pub handle_read_tcp-Safely :
      IsPosix os → (i : ℕ) (s : State) → IsBusy i s → Safely (handle_read_tcp i s)
  unfolding handle_read_tcp
  handle_read_tcp-Safely posix i s b =
      branch (not (can_read s.config i)) done (read_loop_tcp read_fuel i >>= refresh_if i)
        (λ _. ensures b.0)
        (λ _.
          bind (read_loop_tcp-Safely posix read_fuel i s b (omega arith))
            (λ e s' v. refresh_if-Safely i e s' v))
