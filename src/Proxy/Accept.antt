-- ===== src/Proxy/Accept.antt =====
-- handle_accept (src/proxy/proxy.c).
use epoll_proxy.Base.{ℕ, zero, suc, Option, none, some, true, if◌then◌else◌}
use epoll_proxy.Config.{Fd, ProxyMode, tcp, http, connected, reading_request}
use epoll_proxy.Kernel.{Os, FdReply, opened}
use epoll_proxy.Epoll.{close_fd, epoll_add, in_events, set_nonblocking, set_socket_options}
use epoll_proxy.Http
use epoll_proxy.State.{
  M, done, system, get_config, get_conn, put_conn, allocate, release, ◌>>=◌, ◌>>◌,
}
use epoll_proxy.Proxy.Lifecycle.{close, connection_init}
use epoll_proxy.Proxy.Request.{allocate_conn}

module _ ⦃os : Os⦄ where
  -- "Add to epoll". The pointer is freed if that fails, and stays in the connection.
  unfoldable pub register : ℕ → Fd → M (Unit {0})
  register client client_fd = do
    c ← get_config
    added ← epoll_add c.epoll_fd client_fd in_events (some client)
    if added then done else (do conn ← get_conn client; release conn.http_req; close (some client))

  -- What follows `calloc`, whose result is already stored in the connection.
  unfoldable pub with_request : ℕ → Fd → Option ℕ → M (Unit {0})
  with_request client client_fd none = close (some client) >> close_fd client_fd
  with_request client client_fd (some p) = do
    conn ← get_conn client
    put_conn client (record conn { state = reading_request })
    register client client_fd

  unfoldable pub init_client : ℕ → Fd → ProxyMode → M (Unit {0})
  init_client client client_fd tcp = register client client_fd
  init_client client client_fd http = do
    p ← allocate Http.init
    conn ← get_conn client
    put_conn client (record conn { http_req = p })
    with_request client client_fd p

  unfoldable pub with_client : Fd → Option ℕ → M (Unit {0})
  with_client client_fd none = close_fd client_fd
  with_client client_fd (some client) = do
    connection_init client client_fd true connected
    c ← get_config
    init_client client client_fd c.mode

  -- A round of the loop for an accepted descriptor.
  unfoldable pub accepted : Fd → M (Unit {0})
  accepted client_fd = do
    nonblocking ← set_nonblocking client_fd
    if nonblocking
        then (do
          configured ← set_socket_options client_fd
          if configured
              then (do client ← allocate_conn; with_client client_fd client)
              else close_fd client_fd)
        else close_fd client_fd

  unfoldable pub after_accept : M (Unit {0}) → FdReply → M (Unit {0})
  after_accept rest (FdReply.failed e) = done
  after_accept rest (opened fd) = accepted (some fd) >> rest

  -- The loop ends when `accept` fails. How many connections wait is not the program's to bound:
  -- the model follows the first `rounds` of them.
  unfoldable pub handle_accept : ℕ → M (Unit {0})
  handle_accept zero = done
  handle_accept (suc rounds) = do
    c ← get_config
    r ← system (λ k. os.accept k c.listen_fd)
    after_accept (handle_accept rounds) r
