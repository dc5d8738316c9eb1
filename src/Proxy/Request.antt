-- ===== src/Proxy/Request.antt =====
-- handle_http_request (src/proxy/proxy.c).
use epoll_proxy.Base.{
  ℕ, Option, none, some, Bool, true, false, ltb, if◌then◌else◌, take, blit, codes,
}
use epoll_proxy.Config.{Connection, Fd, connecting, writing_response, buffer_size}
use epoll_proxy.Kernel.{Os}
use epoll_proxy.Buffer
use epoll_proxy.Connection.{alloc, pair}
use epoll_proxy.Epoll.{create_backend_connection, close_fd, epoll_add, out_events}
use epoll_proxy.Http.{Request}
use epoll_proxy.State.{M, pure, done, get_config, put_config, get_conn, put_conn, load, ◌>>=◌, ◌>>◌}
use epoll_proxy.Proxy.Lifecycle.{connection_init, close, close_pair}
use epoll_proxy.Proxy.Events.{update_epoll_events}
use epoll_proxy.Proxy.Respond.{send_http_error}

-- `backend` after the request is copied to its write buffer.
unfoldable pub with_request : Connection → Connection → ℕ → Connection
with_request backend client request_len = record backend {
  write_buf = record backend.write_buf {
    bytes = blit backend.write_buf.bytes 0 (take request_len client.read_buf.bytes);
    len = request_len;
    pos = 0;
  };
}

module _ ⦃os : Os⦄ where
  -- `connection_alloc`
  abbrev pub allocate_conn : M (Option ℕ)
  allocate_conn = do c ← get_config; let (i, c') = alloc c; put_config c'; pure i

  -- From "Update client state" on.
  unfoldable pub request_sent : ℕ → Bool → M (Unit {0})
  request_sent client false = close_pair (some client)
  request_sent client true = do
    conn ← get_conn client
    put_conn client (record conn { state = writing_response })
    _ ← update_epoll_events client
    done

  -- "Copy request data to backend write buffer", and on.
  unfoldable pub forward_request : ℕ → ℕ → Fd → Request → M (Unit {0})
  forward_request client backend backend_fd req = do
    c ← get_config
    put_conn backend (with_request (c.connections backend) (c.connections client) req.total_length)
    conn ← get_conn client
    put_conn client
        (record conn { read_buf = Buffer.clear conn.read_buf; keep_alive = req.keep_alive })
    c' ← get_config
    added ← epoll_add c'.epoll_fd backend_fd out_events (some backend)
    request_sent client added

  unfoldable pub with_backend : ℕ → Fd → Option ℕ → M (Unit {0})
  with_backend client backend_fd none = do
    close_fd backend_fd
    send_http_error client 503 (codes "Service Unavailable")
  with_backend client backend_fd (some backend) = do
    connection_init backend backend_fd false connecting
    c ← get_config
    put_config (pair c client backend)
    conn ← get_conn client
    req ← load conn.http_req
    if ltb buffer_size req.total_length
        then (close (some backend) >> send_http_error client 413 (codes "Request Entity Too Large"))
        else forward_request client backend backend_fd req

  unfoldable pub with_socket : ℕ → Fd → M (Unit {0})
  with_socket client none = send_http_error client 502 (codes "Bad Gateway")
  with_socket client (some fd) = do backend ← allocate_conn; with_backend client (some fd) backend

  unfoldable pub handle_http_request : ℕ → M (Unit {0})
  handle_http_request client = do
    c ← get_config
    backend_fd ← create_backend_connection c.backend_addr c.backend_port
    with_socket client backend_fd
