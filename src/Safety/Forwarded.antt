-- ===== src/Safety/Forwarded.antt =====
-- What handle_http_request (src/proxy/proxy.c) sends to the backend.
use epoll_proxy.Base.{
  ℕ, ◌≡◌, ◌≢◌, sym, ◌∙◌, ap, List, some, true, false, arith, ltb, length, Bool, subst,
}
use epoll_proxy.Config.{Config, Connection, Fd, connecting, writing_response, buffer_size}
use epoll_proxy.Kernel.{Os, IsReliable}
use epoll_proxy.Http.{Request}
use epoll_proxy.Buffer
use epoll_proxy.Buffer.Refine.{IsValid}
use epoll_proxy.Connection.{alloc, pair, reset, set_conn}
use epoll_proxy.Connection.Pool.Steps.{proper, alloc-connections}
use epoll_proxy.Epoll.{create_backend_connection, out_events}
use epoll_proxy.State.{State}
use epoll_proxy.Proxy.Request.{
  with_request, request_sent, forward_request, with_backend, with_socket, handle_http_request,
}
use epoll_proxy.Safety.{IsBusy, Ensures, ensures}
use epoll_proxy.Safety.Rules.{branch, after_quiet}
use epoll_proxy.Safety.Kernel.{after_add, update_epoll_events-IsQuiet}
use epoll_proxy.Safety.Heap.{after_load-held}
use epoll_proxy.Safety.Open.{alloc-IsValid, open_is_not_taken, connection_init_lem, alloc-IsOpen}
use epoll_proxy.Safety.Paired.{
  IsForwarded, IsReceived, request_bytes, IsPaired, copied-IsForwarded, pair-IsPaired,
  pair-SameRequest,
}

module _ ⦃os : Os⦄ (reliable : IsReliable os) where
  request_sent-IsForwarded :
      (client backend : ℕ) (fd : Fd) (keep_alive : Bool) (text : List ℕ) (s : State)
      → client ≢ backend
      → IsForwarded client backend fd keep_alive text (
          set_conn s.config client
            (record (s.config.connections client) { state = writing_response }))
      → Ensures
          (λ _ s'. IsForwarded client backend fd keep_alive text s'.config)
          (request_sent client true s)
  unfolding request_sent
  request_sent-IsForwarded client backend fd keep_alive text s ne f =
      let conn : Connection = record (s.config.connections client) { state = writing_response } in
      let s' : State = record s { config = set_conn s.config client conn } in
      after_quiet s' _ (update_epoll_events-IsQuiet client s') (λ _ k. ensures f)

  forward_request-IsForwarded :
      (client backend : ℕ) (fd : Fd) (req : Request) (s : State)
      → IsPaired client backend fd s.config
      → IsReceived (s.config.connections client).read_buf req
      → Ensures
          (λ _ s'.
            IsForwarded client backend fd req.keep_alive
              (request_bytes (s.config.connections client).read_buf req)
              s'.config)
          (forward_request client backend fd req s)
  unfolding forward_request
  forward_request-IsForwarded client backend fd req s p r =
      let conn = s.config.connections client in
      let copied = with_request (s.config.connections backend) conn req.total_length in
      let c : Config = set_conn s.config backend copied in
      let cleared : Connection = record (c.connections client) {
        read_buf = Buffer.clear (c.connections client).read_buf;
        keep_alive = req.keep_alive;
      } in
      let s' : State = record s { config = set_conn c client cleared } in
      after_add s.config.epoll_fd fd out_events (some backend) s' _
        (λ k.
          request_sent-IsForwarded client backend fd req.keep_alive _ (record s' { kernel = k })
            p.apart (copied-IsForwarded client backend fd req s.config p r))
        (λ k no. absurd (no reliable))

  with_backend-IsForwarded :
      (client backend a : ℕ) (fd : Fd) (req : Request) (s : State)
      → client ≢ backend
      → (s.config.connections client).http_req ≡ some a
      → s.heap a ≡ some req
      → IsReceived (s.config.connections client).read_buf req
      → IsValid (s.config.connections client).read_buf
      → length (s.config.connections backend).write_buf.bytes ≡ buffer_size
      → Ensures
          (λ _ s'.
            IsForwarded client backend fd req.keep_alive
              (request_bytes (s.config.connections client).read_buf req)
              s'.config)
          (with_backend client fd (some backend) s)
  unfolding with_backend
  with_backend-IsForwarded client backend a fd req s ne held live r v w =
      let (now, k, same_state) = connection_init_lem backend fd false connecting s in
      rw same_state (
        let conn = reset (s.config.connections backend) fd false connecting now in
        let c : Config = pair (set_conn s.config backend conn) client backend in
        let s' : State = record s { config = c; kernel = k } in
        let (same_buf, same_req) = pair-SameRequest s.config client backend conn ne in
        let p = pair-IsPaired s.config client backend fd now ne v w in
        after_load-held _ a req s' _ (same_req ∙ held) live (
          branch (ltb buffer_size req.total_length) _ _
            (λ e. absurd (ground (arith, r.arrived, v.inside)))
            (λ _.
              subst
                (λ b.
                  Ensures
                    (λ _ s''.
                      IsForwarded client backend fd req.keep_alive (request_bytes b req) s''.config)
                    (forward_request client backend fd req s'))
                same_buf
                (forward_request-IsForwarded client backend fd req s' p
                  (subst (λ b. IsReceived b req) (sym same_buf) r)))))

  -- With a kernel that never refuses to register a descriptor: for a client in use in a safe state
  -- whose complete request lies at the front of its buffer, if the connection to the backend is begun
  -- and the pool has a slot, `handle_http_request` comes to its end with the two connections paired,
  -- with exactly the bytes of the request waiting to be written to the backend, the client's buffer
  -- empty, and the client waiting for the response.
  pub handle_http_request-IsForwarded :
      (client backend a fd : ℕ) (req : Request) (k : os.Kernel) (s : State)
      → IsBusy client s
      → (s.config.connections client).http_req ≡ some a
      → s.heap a ≡ some req
      → IsReceived (s.config.connections client).read_buf req
      → create_backend_connection s.config.backend_addr s.config.backend_port s
        ≡ some (some fd, record s { kernel = k })
      → (alloc s.config).0 ≡ some backend
      → Ensures
          (λ _ s'.
            IsForwarded client backend
              (some fd)
              req.keep_alive
              (request_bytes (s.config.connections client).read_buf req)
              s'.config)
          (handle_http_request client s)
  unfolding handle_http_request with_socket
  handle_http_request-IsForwarded client backend a fd req k s b held live r opened taken =
      let (v, t) = alloc-IsValid backend b.0 taken in
      let same = alloc-connections backend client b.0.sound taken in
      let o = alloc-IsOpen s.config client backend b.0.sound taken b.1 in
      let ne : client ≢ backend = open_is_not_taken (alloc s.config).1 client backend o t in
      let s' : State = record s { config = (alloc s.config).1; kernel = k } in
      let reading = (proper v.sound client o.0).reading in
      let whole = (proper v.sound backend t.in_pool).writing.whole in
      rw opened (
        rw taken (
          subst
            (λ conn.
              Ensures
                (λ _ s''.
                  IsForwarded client backend (some fd) req.keep_alive
                    (request_bytes conn.read_buf req) s''.config)
                (with_backend client (some fd) (some backend) s'))
            same
            (with_backend-IsForwarded client backend a (some fd) req s' ne
              (ap (λ conn. conn.http_req) same ∙ held) live
              (subst (λ conn. IsReceived conn.read_buf req) (sym same) r) reading whole)))
