-- ===== src/Safety/Forwarding.antt =====
-- handle_http_request (src/proxy/proxy.c) against the invariant.
use epoll_proxy.Base.{
  ℕ, ◌<◌, ◌≤◌, ◌≡◌, ◌≢◌, refl, sym, ◌∙◌, Option, none, some, Bool, true, false, arith, ltb, inl,
  inr, take, length-blit, length-take, ap, codes,
}
use epoll_proxy.Config.{
  Config, Connection, Fd, http, connecting, writing_response, max_connections, buffer_size,
}
use epoll_proxy.Kernel.{Os, IsReliable}
use epoll_proxy.Http.{Request}
use epoll_proxy.Buffer
use epoll_proxy.Buffer.Refine.{clear-IsValid}
use epoll_proxy.Connection.{alloc, pair, reset, set_conn}
use epoll_proxy.Connection.FreeList.{alloc_pops}
use epoll_proxy.Connection.Pool.{IsProper}
use epoll_proxy.Connection.Pool.Steps.{proper, alloc-connections}
use epoll_proxy.Epoll.{out_events}
use epoll_proxy.Epoll.Quiet.{create_backend_connection-IsQuiet}
use epoll_proxy.State.{State}
use epoll_proxy.Proxy.Request.{
  with_request, request_sent, forward_request, with_backend, with_socket, handle_http_request,
}
use epoll_proxy.Safety.{IsOpen, IsValid, IsBusy, ensures, Safely}
use epoll_proxy.Safety.Rules.{bind, branch, after_quiet}
use epoll_proxy.Safety.Kernel.{epoll_add-IsQuiet, close_fd-IsQuiet, update_epoll_events-IsQuiet}
use epoll_proxy.Safety.Lifecycle.{close-Safely, close_pair-Safely}
use epoll_proxy.Safety.Touch.{
  SameRole, touch-IsValid, touch-IsOpen, move-IsValid, pair-IsValid, send_http_error-Safely,
}
use epoll_proxy.Safety.Heap.{after_load}
use epoll_proxy.Safety.Open.{
  IsTaken, alloc-IsValid, reset-IsValid, open_is_not_taken, alloc-IsOpen, mode-alloc,
  connection_init_lem,
}

with_request-IsProper :
    (backend client : Connection) (n : ℕ)
    → IsProper backend
    → n ≤ buffer_size
    → IsProper client
    → IsProper (with_request backend client n)
unfolding with_request
with_request-IsProper backend client n p h q = record {
  reading = ground (arith, p.reading);
  writing = ground (
    arith,
    p.writing,
    q.reading,
    length-take n client.read_buf.bytes,
    length-blit backend.write_buf.bytes 0 (take n client.read_buf.bytes),
  );
  peer_in = λ j e. ground (arith, p.peer_in j);
}

with_request-SameRole :
    (backend client : Connection) (n : ℕ) → SameRole backend (with_request backend client n)
unfolding with_request
with_request-SameRole backend client n = ground arith

-- Opening and pairing a backend leaves the client's part alone.
pair-SameRole :
    (c : Config) (i j : ℕ) (conn : Connection)
    → i ≢ j
    → SameRole (c.connections i) ((pair (set_conn c j conn) i j).connections i)
unfolding pair
pair-SameRole c i j conn ne = ground arith

mode-pair : (c : Config) (i j : ℕ) → (pair c i j).mode ≡ c.mode
unfolding pair
mode-pair c i j = ground arith

pub alloc-none : (c : Config) → (alloc c).0 ≡ none → (alloc c).1 ≡ c
alloc-none c e = elim (alloc_pops c) [ inl (_, same) ↦ ap (λ r. r.1) same | inr (i, _, e') ↦ cc ]

module _ ⦃os : Os⦄ where
  request_sent-Safely :
      (client : ℕ) (sent : Bool) (s : State) → IsBusy client s → Safely (request_sent client sent s)
  unfolding request_sent
  request_sent-Safely client false s b = close_pair-Safely client s b.0 b.1.0
  request_sent-Safely client true s (v, o) =
      let p = proper v.sound client o.0 in
      let conn : Connection = record (s.config.connections client) { state = writing_response } in
      let s' : State = record s { config = set_conn s.config client conn } in
      after_quiet s' _ (update_epoll_events-IsQuiet client s') (λ _ k. ensures (
        move-IsValid client conn v o
          (record { reading = p.reading; writing = p.writing; peer_in = p.peer_in }) refl refl))

  forward_request-Safely :
      (client backend : ℕ) (fd : Fd) (req : Request) (s : State)
      → IsBusy client s
      → backend < max_connections
      → req.total_length ≤ buffer_size
      → Safely (forward_request client backend fd req s)
  unfolding forward_request
  forward_request-Safely client backend fd req s (v, o) hb h =
      let copied =
        with_request (s.config.connections backend) (s.config.connections client)
          req.total_length in
      let c' : Config = set_conn s.config backend copied in
      let same =
        with_request-SameRole (s.config.connections backend) (s.config.connections client)
          req.total_length in
      let v' : IsValid (IsReliable os) c' s.heap s.next =
        touch-IsValid backend copied v
          (with_request-IsProper _ _ _ (proper v.sound backend hb) h (proper v.sound client o.0))
          same in
      let o' : IsOpen c' client = touch-IsOpen s.config backend client copied same.state o in
      let p = proper v'.sound client o.0 in
      let cleared : Connection = record (c'.connections client) {
        read_buf = Buffer.clear (c'.connections client).read_buf;
        keep_alive = req.keep_alive;
      } in
      let v'' : IsValid (IsReliable os) (set_conn c' client cleared) s.heap s.next =
        touch-IsValid client cleared v'
          (record { reading = clear-IsValid p.reading; writing = p.writing; peer_in = p.peer_in })
          (record { state = refl; client = refl; request = refl }) in
      let s' : State = record s { config = set_conn c' client cleared } in
      after_quiet s' _ (epoll_add-IsQuiet s.config.epoll_fd fd out_events (some backend) s')
        (λ sent k.
          request_sent-Safely client sent _ (v'', touch-IsOpen c' client client cleared refl o'))

  with_backend-Safely :
      (client backend : ℕ) (fd : Fd) (s : State)
      → IsBusy client s
      → s.config.mode ≡ http
      → (s.config.connections client).is_client ≡ true
      → IsTaken s.config backend
      → Safely (with_backend client fd (some backend) s)
  unfolding with_backend
  with_backend-Safely client backend fd s (v, o) m q t =
      let (now, k, same_state) = connection_init_lem backend fd false connecting s in
      rw same_state (
        let conn = reset (s.config.connections backend) fd false connecting now in
        let c : Config = pair (set_conn s.config backend conn) client backend in
        let same =
          pair-SameRole s.config client backend conn
            (open_is_not_taken s.config client backend o t) in
        let v' : IsValid (IsReliable os) c s.heap s.next =
          pair-IsValid client backend (reset-IsValid backend fd connecting now v t) o.0 t.in_pool in
        let o' : IsOpen c client = (o.0, λ e. o.1 (sym same.state ∙ e)) in
        let s' : State = record s { config = c; kernel = k } in
        after_load _ s' _
          (v'.live (mode-pair (set_conn s.config backend conn) client backend ∙ m) client
            (record { in_pool = o.0; client = same.client ∙ q; open_state = o'.1 }))
          (λ req.
            branch (ltb buffer_size req.total_length) _ _
              (λ _.
                bind (close-Safely backend s' v' t.in_pool)
                  (λ _ s'' v''. send_http_error-Safely client 413 _ s'' v'' o.0))
              (λ e.
                forward_request-Safely client backend fd req s' (v', o') t.in_pool (ground arith))))

  -- `found` is what `connection_alloc` returns.
  with_allocated-Safely :
      (client : ℕ) (fd : Fd) (found : Option ℕ) (s : State)
      → IsBusy client s
      → s.config.mode ≡ http
      → (s.config.connections client).is_client ≡ true
      → (alloc s.config).0 ≡ found
      → Safely (with_backend client fd found (record s { config = (alloc s.config).1 }))
  unfolding with_backend
  with_allocated-Safely client fd none s (v, o) m q e =
      let s' : State = record s { config = (alloc s.config).1 } in
      after_quiet s' _ (close_fd-IsQuiet fd s') (λ _ k.
        send_http_error-Safely client 503 (codes "Service Unavailable") _
          (rw (alloc-none s.config e) v) o.0)
  with_allocated-Safely client fd (some j) s (v, o) m q e =
      let (v', t) = alloc-IsValid j v e in
      with_backend-Safely client j fd (record s { config = (alloc s.config).1 })
        (v', alloc-IsOpen s.config client j v.sound e o) (mode-alloc s.config ∙ m)
        (ap (λ conn. conn.is_client) (alloc-connections j client v.sound e) ∙ q) t

  with_socket-Safely :
      (client : ℕ) (fd : Fd) (s : State)
      → IsBusy client s
      → s.config.mode ≡ http
      → (s.config.connections client).is_client ≡ true
      → Safely (with_socket client fd s)
  unfolding with_socket
  with_socket-Safely client none s b m q = send_http_error-Safely client 502 _ s b.0 b.1.0
  with_socket-Safely client (some fd) s b m q =
      with_allocated-Safely client (some fd) (alloc s.config).0 s b m q refl

  -- In a safe state in HTTP mode, the request of a client in use is handled to its end, whatever
  -- the kernel answers and whether or not the pool has a slot for the backend, and the state that
  -- is left is safe.
  pub handle_http_request-Safely :
      (client : ℕ) (s : State)
      → IsBusy client s
      → s.config.mode ≡ http
      → (s.config.connections client).is_client ≡ true
      → Safely (handle_http_request client s)
  unfolding handle_http_request
  handle_http_request-Safely client s b m q =
      after_quiet s _
        (create_backend_connection-IsQuiet s.config.backend_addr s.config.backend_port s)
        (λ fd k. with_socket-Safely client fd _ b m q)
