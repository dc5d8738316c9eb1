-- ===== src/Safety/ReadHttp.antt =====
-- handle_read_http_client (src/proxy/proxy.c) ends, and keeps the invariant.
use epoll_proxy.Base.{
  ℕ, zero, suc, ◌+◌, ◌<◌, ◌≡◌, refl, some, true, not, arith, length, ltb, take, codes,
}
use epoll_proxy.Config.{
  Config, Connection, Stats, http, request_complete, max_connections, max_request_size, buffer_size,
}
use epoll_proxy.Kernel.{Os, IsPosix}
use epoll_proxy.Http.{Request, Method}
use epoll_proxy.Http.Parse
use epoll_proxy.Http.Parse.{ParseResult, complete, need_more, malformed}
use epoll_proxy.Http.Query
use epoll_proxy.Buffer
use epoll_proxy.Buffer.{IoResult, count, error}
use epoll_proxy.Buffer.Refine.{contents, length-contents}
use epoll_proxy.Buffer.Progress.{read_fd_progress}
use epoll_proxy.Connection.{set_conn}
use epoll_proxy.Connection.Pool.Steps.{proper}
use epoll_proxy.State.{State, M, pure, done, put_stats, ◌>>◌}
use epoll_proxy.Proxy.Events.{count_error}
use epoll_proxy.Proxy.Write.{Exit, broke, returned, is_again}
use epoll_proxy.Proxy.Lifecycle.{close}
use epoll_proxy.Proxy.Read.{
  count_received, count_bad_request, count_request, read_buffer, request_read, after_parse,
  parse_buffer, after_read_http, read_loop_http, check_size, http_fuel, handle_read_http_client,
}
use epoll_proxy.Safety.{IsSafe, IsBusy, ensures, Safely}
use epoll_proxy.Safety.Rules.{bind, branch}
use epoll_proxy.Safety.Assign.{set_stats-IsValid}
use epoll_proxy.Safety.Lifecycle.{close-Safely}
use epoll_proxy.Safety.Touch.{move-IsValid, send_http_error-Safely}
use epoll_proxy.Safety.Heap.{after_load, after_store}
use epoll_proxy.Safety.Write.{touch-IsBusy, activity-IsBusy}
use epoll_proxy.Safety.Forwarding.{handle_http_request-Safely}

abbrev held : Config → ℕ → ℕ
held c i = length (contents (c.connections i).read_buf)

pub active-count_request :
    (m : Method) (st : Stats) → (count_request m st).active_connections ≡ st.active_connections
unfolding count_request
active-count_request m st = ground arith

module _ ⦃os : Os⦄ where
  -- A client in use in HTTP mode.
  pub record IsReading (i : ℕ) (s : State) : Type 0 where
    pub busy : IsBusy i s
    pub mode : s.config.mode ≡ http
    pub client : (s.config.connections i).is_client ≡ true

  request_read-Safely :
      (i : ℕ) (req : Request) (s : State) → IsReading i s → Safely (request_read i req s)
  unfolding request_read
  request_read-Safely i req s b =
      let v = b.busy.0 in
      let o = b.busy.1 in
      let p = proper v.sound i o.0 in
      let conn : Connection = record (s.config.connections i) { state = request_complete } in
      let c : Config = set_conn s.config i conn in
      let v' =
        move-IsValid i conn v o
          (record { reading = p.reading; writing = p.writing; peer_in = p.peer_in }) refl refl in
      branch (not (Query.is_valid req)) _ _
        (λ _.
          send_http_error-Safely i 400 (codes "Bad Request")
            (record s { config = record c { stats = count_bad_request c.stats } })
            (set_stats-IsValid (count_bad_request c.stats) v' refl) o.0)
        (λ _.
          handle_http_request-Safely i
            (record s { config = record c { stats = count_request req.method c.stats } })
            (
              set_stats-IsValid (count_request req.method c.stats) v'
                  (active-count_request req.method c.stats),
              (o.0, ground arith),
            )
            b.mode (ground (arith, b.client)))

  after_parse-Safely :
      (rest : M Exit) (i : ℕ) (r : ParseResult) (req : Request) (s : State)
      → IsReading i s
      → Safely (rest s)
      → Safely (after_parse rest i r req s)
  unfolding after_parse
  after_parse-Safely rest i complete req s b h =
      bind (request_read-Safely i req s b) (λ _ s' v. ensures v)
  after_parse-Safely rest i need_more req s b h = h
  after_parse-Safely rest i malformed req s b h =
      bind
        (send_http_error-Safely i 400 (codes "Malformed Request")
          (record s { config = record s.config { stats = count_bad_request s.config.stats } })
          (set_stats-IsValid (count_bad_request s.config.stats) b.busy.0 refl) b.busy.1.0)
        (λ _ s' v. ensures v)

  parse_buffer-Safely :
      (rest : M Exit) (i : ℕ) (s : State)
      → IsReading i s
      → ((s' : State) → IsReading i s' → held s'.config i ≡ held s.config i → Safely (rest s'))
      → Safely (parse_buffer rest i s)
  unfolding parse_buffer
  parse_buffer-Safely rest i s b h =
      let conn = s.config.connections i in
      let live =
        b.busy.0.live b.mode i
          (record { in_pool = b.busy.1.0; client = b.client; open_state = b.busy.1.1 }) in
      after_load conn.http_req s _ live (λ req.
        let (result, req') = Parse.parse req (take conn.read_buf.len conn.read_buf.bytes) in
        after_store conn.http_req req' s _ live b.busy.0 (λ heap v'.
          let s' : State = record s { heap = heap } in
          let b' : IsReading i s' = record {
            busy = (v', b.busy.1);
            mode = b.mode;
            client = b.client;
          } in
          after_parse-Safely rest i result req' s' b' (h s' b' refl)))

  after_read_http-Safely :
      (rest : M Exit) (i : ℕ) (r : IoResult) (s : State)
      → IsReading i s
      → ((n : ℕ) (s' : State)
          → r ≡ count (suc n)
          → IsReading i s'
          → held s'.config i ≡ held s.config i
          → Safely (rest s'))
      → Safely (after_read_http rest i r s)
  unfolding after_read_http
  after_read_http-Safely rest i (error e) s b h =
      branch (is_again e) (pure broke) (put_stats count_error >> (close (some i) >> pure returned))
        (λ _. ensures b.busy.0)
        (λ _.
          bind
            (close-Safely i
              (record s { config = record s.config { stats = count_error s.config.stats } })
              (set_stats-IsValid (count_error s.config.stats) b.busy.0 refl) b.busy.1.0)
            (λ _ s' v. ensures v))
  after_read_http-Safely rest i (count zero) s b h =
      bind (close-Safely i s b.busy.0 b.busy.1.0) (λ _ s' v. ensures v)
  after_read_http-Safely rest i (count (suc n)) s b h = activity-IsBusy i s _ b.busy λ now k b'.
      let counted = set_stats-IsValid (count_received (suc n) s.config.stats) b'.0 refl in
      parse_buffer-Safely rest i _
        (record { busy = (counted, b'.1); mode = b.mode; client = ground (arith, b.client) })
        (λ s' r' same. h n s' refl r' (ground (arith, same)))

  read_loop_http-Safely :
      IsPosix os
      → (fuel i : ℕ) (s : State) → IsReading i s
      → buffer_size < fuel + held s.config i
      → Safely (read_loop_http fuel i s)
  unfolding read_loop_http read_buffer
  read_loop_http-Safely posix zero i s b m =
      let p = proper b.busy.0.sound i b.busy.1.0 in
      absurd (omega (arith, length-contents p.reading, p.reading.inside))
  read_loop_http-Safely posix (suc fuel) i s b m =
      let conn = s.config.connections i in
      let p = proper b.busy.0.sound i b.busy.1.0 in
      let (valid, progress) = read_fd_progress os posix s.kernel conn.read_buf conn.fd p.reading in
      let (r, buf, k) = Buffer.read_fd os s.kernel conn.read_buf conn.fd in
      let b' =
        touch-IsBusy i (record conn { read_buf = buf }) s b.busy
          (record { reading = valid; writing = p.writing; peer_in = p.peer_in })
          (record { state = refl; client = refl; request = refl }) k in
      after_read_http-Safely (read_loop_http fuel i) i r _
        (record { busy = b'; mode = b.mode; client = ground (arith, b.client) })
        (λ n s' e r' same.
          read_loop_http-Safely posix fuel i s' r' (ground (arith, same, progress n e)))

  check_size-Safely :
      (i : ℕ) (e : Exit) (s : State) → IsSafe s → i < max_connections → Safely (check_size i e s)
  unfolding check_size
  check_size-Safely i returned s v h = ensures v
  check_size-Safely i broke s v h =
      branch (ltb max_request_size (s.config.connections i).read_buf.len) _ done
        (λ _.
          send_http_error-Safely i 413 (codes "Request Too Large")
            (record s { config = record s.config { stats = count_bad_request s.config.stats } })
            (set_stats-IsValid (count_bad_request s.config.stats) v refl) h)
        (λ _. ensures v)

  -- With read counts that POSIX allows, in a safe state in HTTP mode, a read event on a client in
  -- use is handled to its end, through any number of pieces of a request, whatever else the kernel
  -- answers: the fuel of the loop suffices, the request that is parsed is live, and the state is
  -- safe again.
  pub handle_read_http_client-Safely :
      IsPosix os
      → (i : ℕ) (s : State) → IsBusy i s
      → s.config.mode ≡ http
      → (s.config.connections i).is_client ≡ true
      → Safely (handle_read_http_client i s)
  unfolding handle_read_http_client
  handle_read_http_client-Safely posix i s b m q =
      bind
        (read_loop_http-Safely posix http_fuel i s (record { busy = b; mode = m; client = q })
          (omega arith))
        (λ e s' v. check_size-Safely i e s' v b.1.0)
