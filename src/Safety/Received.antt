-- ===== src/Safety/Received.antt =====
-- A request that has arrived whole: from the parser to the backend (handle_read_http_client and
-- handle_http_request, src/proxy/proxy.c).
use epoll_proxy.Base.{ℕ, ◌≡◌, refl, sym, ◌∙◌, subst, some, true, not, arith, take}
use epoll_proxy.Config.{Config, Connection, Stats, request_complete, update}
use epoll_proxy.Kernel.{Os, IsReliable}
use epoll_proxy.Http.{Request}
use epoll_proxy.Http.Parse
use epoll_proxy.Http.Parse.{complete}
use epoll_proxy.Http.Query
use epoll_proxy.Connection.{alloc, set_conn}
use epoll_proxy.Connection.Pool.Steps.{proper}
use epoll_proxy.Epoll.{create_backend_connection}
use epoll_proxy.State.{State, M}
use epoll_proxy.Proxy.Write.{Exit}
use epoll_proxy.Proxy.Request.{handle_http_request}
use epoll_proxy.Proxy.Read.{count_request, request_read, after_parse, parse_buffer}
use epoll_proxy.Safety.{IsBusy, Ensures, ensures}
use epoll_proxy.Safety.Rules.{bind, branch}
use epoll_proxy.Safety.Assign.{set_stats-IsValid}
use epoll_proxy.Safety.Touch.{move-IsValid}
use epoll_proxy.Safety.Heap.{after_load-held, after_store-held, store-IsValid}
use epoll_proxy.Safety.ReadHttp.{active-count_request}
use epoll_proxy.Safety.Paired.{IsForwarded, IsReceived, request_bytes}
use epoll_proxy.Safety.Forwarded.{handle_http_request-IsForwarded}

-- What the free list hands out does not depend on what is assigned to a slot or to the statistics.
alloc-set_conn :
    (c : Config) (i : ℕ) (conn : Connection) (st : Stats)
    → (alloc (record (set_conn c i conn) { stats = st })).0 ≡ (alloc c).0
unfolding alloc
alloc-set_conn c i conn st = ground arith

module _ ⦃os : Os⦄ where
  -- The connection to the backend is begun in every state.
  abbrev pub IsConnecting : Config → ℕ → Type 0
  IsConnecting c fd =
      (s : State)
      → (k : os.Kernel) × (create_backend_connection c.backend_addr c.backend_port s
          ≡ some (some fd, record s { kernel = k }))

  module _ (reliable : IsReliable os) where
    request_read-IsForwarded :
        (i backend a fd : ℕ) (req : Request) (s : State)
        → IsBusy i s
        → (s.config.connections i).http_req ≡ some a
        → s.heap a ≡ some req
        → IsReceived (s.config.connections i).read_buf req
        → Query.is_valid req ≡ true
        → IsConnecting s.config fd
        → (alloc s.config).0 ≡ some backend
        → Ensures
            (λ _ s'.
              IsForwarded i backend
                (some fd)
                req.keep_alive
                (request_bytes (s.config.connections i).read_buf req)
                s'.config)
            (request_read i req s)
    unfolding request_read
    request_read-IsForwarded i backend a fd req s (v, o) held live r valid connects taken =
        let p = proper v.sound i o.0 in
        let conn : Connection = record (s.config.connections i) { state = request_complete } in
        let c : Config = set_conn s.config i conn in
        let st = count_request req.method c.stats in
        let s' : State = record s { config = record c { stats = st } } in
        let v' =
          move-IsValid i conn v o
            (record { reading = p.reading; writing = p.writing; peer_in = p.peer_in }) refl refl in
        let same : (c.connections i).read_buf ≡ (s.config.connections i).read_buf = ground arith in
        let (k, opened) = connects s' in
        branch (not (Query.is_valid req)) _ _ (λ e. absurd (ground (arith, valid, e)))
          (λ _.
            subst
              (λ b.
                Ensures
                  (λ _ s''.
                    IsForwarded i backend (some fd) req.keep_alive (request_bytes b req) s''.config)
                  (handle_http_request i s'))
              same
              (handle_http_request-IsForwarded reliable i backend a fd req k s'
                (
                  set_stats-IsValid st v' (active-count_request req.method c.stats),
                  (o.0, ground arith),
                )
                (ground (arith, held)) live (subst (λ b. IsReceived b req) (sym same) r) opened
                (alloc-set_conn s.config i conn st ∙ taken)))

    -- With a kernel that never refuses to register a descriptor, and where a connection to the
    -- backend can be begun: if the parser accepts what is in the buffer of a client in use in a safe
    -- state as a whole and valid request, and the pool has a slot, the request is forwarded: the
    -- client is paired with a new connection to the backend, to which exactly the bytes of the
    -- request wait to be written, the client's buffer is empty, and the client waits for the response.
    pub parse_buffer-IsForwarded :
        (rest : M Exit) (i backend a fd : ℕ) (old req : Request) (s : State)
        → IsBusy i s
        → (s.config.connections i).http_req ≡ some a
        → s.heap a ≡ some old
        → let b = (s.config.connections i).read_buf in
          Parse.parse old (take b.len b.bytes) ≡ (complete, req)
          → IsReceived (s.config.connections i).read_buf req
          → Query.is_valid req ≡ true
          → IsConnecting s.config fd
          → (alloc s.config).0 ≡ some backend
          → Ensures
              (λ _ s'.
                IsForwarded i backend
                  (some fd)
                  req.keep_alive
                  (request_bytes (s.config.connections i).read_buf req)
                  s'.config)
              (parse_buffer rest i s)
    unfolding parse_buffer after_parse
    parse_buffer-IsForwarded rest i backend a fd old req s (v, o) held live parsed r valid connects
          taken =
        let s' : State = record s { heap = update s.heap a (some req) } in
        after_load-held _ a old s _ held live (
          rw parsed (
            after_store-held _ a old req s _ held live (
              bind
                (request_read-IsForwarded i backend a fd req s' (store-IsValid a req v, o) held
                  (ground arith) r valid connects taken)
                (λ _ s'' f. ensures f))))
