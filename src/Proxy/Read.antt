-- ===== src/Proxy/Read.antt =====
-- handle_read, handle_read_tcp and handle_read_http_client (src/proxy/proxy.c).
use epoll_proxy.Base.{
  ℕ, zero, suc, ◌+◌, ◌*◌, Option, none, some, not, ◌&&◌, ltb, if◌then◌else◌, add_size, take, codes,
}
use epoll_proxy.Config.{Stats, request_complete, buffer_size, max_request_size}
use epoll_proxy.Kernel.{Os}
use epoll_proxy.Buffer
use epoll_proxy.Buffer.{IoResult, count, error}
use epoll_proxy.Connection.{set_conn, is_valid, can_read}
use epoll_proxy.Http.{Request, Method, get, post}
use epoll_proxy.Http.Parse
use epoll_proxy.Http.Parse.{ParseResult, complete, need_more, malformed}
use epoll_proxy.Http.Query
use epoll_proxy.State.{
  M, pure, done, undefined, get_config, put_config, get_conn, put_conn, put_stats, load, store,
  ◌>>=◌, ◌>>◌,
}
use epoll_proxy.Proxy.Lifecycle.{close, close_pair, update_activity}
use epoll_proxy.Proxy.Forward.{forward_data}
use epoll_proxy.Proxy.Events.{is_http, count_error, handle_error}
use epoll_proxy.Proxy.Respond.{send_http_error}
use epoll_proxy.Proxy.Write.{Exit, broke, returned, is_again, refresh_events}
use epoll_proxy.Proxy.Request.{handle_http_request}

abbrev pub count_received : ℕ → Stats → Stats
count_received n st = record st { bytes_received = add_size st.bytes_received n }

abbrev pub count_bad_request : Stats → Stats
count_bad_request st = record st { requests_error = add_size st.requests_error 1 }

-- "Update stats"
unfoldable pub count_request : Method → Stats → Stats
count_request m st =
    let st' : Stats = record st { requests_total = add_size st.requests_total 1 } in
    elim m [
      | get ↦ record st' { requests_get = add_size st'.requests_get 1 }
      | post ↦ record st' { requests_post = add_size st'.requests_post 1 }
      | _ ↦ st'
    ]

module _ ⦃os : Os⦄ where
  -- `buffer_read_fd(&conn->read_buf, conn->fd)`
  unfoldable pub read_buffer : ℕ → M IoResult
  read_buffer i s =
      let conn = s.config.connections i in
      let (r, b, k) = Buffer.read_fd os s.kernel conn.read_buf conn.fd in
      some (r, record s { config = set_conn s.config i (record conn { read_buf = b }); kernel = k })

  -- `forward_data(conn, conn->peer)`
  unfoldable pub forward : ℕ → M (Option ℕ)
  forward i = do
    c ← get_config
    let (n, c') = forward_data c (some i) (c.connections i).peer
    put_config c'
    pure n

  unfoldable pub after_forward : M Exit → ℕ → Option ℕ → M Exit
  after_forward rest i none = handle_error i >> pure returned
  after_forward rest i (some m) = rest

  -- A round of the loop of `handle_read_tcp` after `buffer_read_fd`; `rest` is the loop.
  unfoldable pub after_read_tcp : M Exit → ℕ → IoResult → M Exit
  after_read_tcp rest i (error e) =
      if is_again e
      then pure broke
      else (put_stats count_error >> (close_pair (some i) >> pure returned))
  after_read_tcp rest i (count zero) = close_pair (some i) >> pure returned
  after_read_tcp rest i (count (suc n)) = do
    update_activity i
    put_stats (count_received (suc n))
    moved ← forward i
    after_forward rest i moved

  unfoldable pub read_loop_tcp : ℕ → ℕ → M Exit
  read_loop_tcp zero i = undefined
  read_loop_tcp (suc fuel) i = do r ← read_buffer i; after_read_tcp (read_loop_tcp fuel i) i r

  abbrev pub refresh_if : ℕ → Exit → M (Unit {0})
  refresh_if i broke = refresh_events i
  refresh_if i returned = done

  -- A round that goes on adds a byte to those that wait in the two buffers.
  abbrev pub read_fuel : ℕ
  read_fuel = 2 * buffer_size + 1

  unfoldable pub handle_read_tcp : ℕ → M (Unit {0})
  handle_read_tcp i = do
    c ← get_config
    if not (can_read c i) then done else (do e ← read_loop_tcp read_fuel i; refresh_if i e)

  -- "Request complete!"
  unfoldable pub request_read : ℕ → Request → M (Unit {0})
  request_read i req = do
    conn ← get_conn i
    put_conn i (record conn { state = request_complete })
    if not (Query.is_valid req)
        then (put_stats count_bad_request >> send_http_error i 400 (codes "Bad Request"))
        else (put_stats (count_request req.method) >> handle_http_request i)

  -- What the parser's result leads to; `rest` is the loop.
  unfoldable pub after_parse : M Exit → ℕ → ParseResult → Request → M Exit
  after_parse rest i complete req = request_read i req >> pure returned
  after_parse rest i malformed req = do
    put_stats count_bad_request
    send_http_error i 400 (codes "Malformed Request")
    pure returned
  after_parse rest i need_more req = rest

  -- "Try to parse HTTP request"
  unfoldable pub parse_buffer : M Exit → ℕ → M Exit
  parse_buffer rest i = do
    conn ← get_conn i
    req ← load conn.http_req
    let (result, req') = Parse.parse req (take conn.read_buf.len conn.read_buf.bytes)
    store conn.http_req req'
    after_parse rest i result req'

  unfoldable pub after_read_http : M Exit → ℕ → IoResult → M Exit
  after_read_http rest i (error e) =
      if is_again e
      then pure broke
      else (put_stats count_error >> (close (some i) >> pure returned))
  after_read_http rest i (count zero) = close (some i) >> pure returned
  after_read_http rest i (count (suc n)) = do
    update_activity i
    put_stats (count_received (suc n))
    parse_buffer rest i

  unfoldable pub read_loop_http : ℕ → ℕ → M Exit
  read_loop_http zero i = undefined
  read_loop_http (suc fuel) i = do r ← read_buffer i; after_read_http (read_loop_http fuel i) i r

  -- "Check if request is getting too large"
  unfoldable pub check_size : ℕ → Exit → M (Unit {0})
  check_size i returned = done
  check_size i broke = do
    conn ← get_conn i
    if ltb max_request_size conn.read_buf.len
        then (put_stats count_bad_request >> send_http_error i 413 (codes "Request Too Large"))
        else done

  -- A round that goes on adds a byte to the read buffer.
  abbrev pub http_fuel : ℕ
  http_fuel = buffer_size + 1

  unfoldable pub handle_read_http_client : ℕ → M (Unit {0})
  handle_read_http_client i = do e ← read_loop_http http_fuel i; check_size i e

  unfoldable pub handle_read : ℕ → M (Unit {0})
  handle_read i = do
    c ← get_config
    let conn = c.connections i
    if not (is_valid conn)
        then done
        else if is_http c.mode && conn.is_client
        then handle_read_http_client i
        else handle_read_tcp i
