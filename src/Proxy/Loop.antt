-- ===== src/Proxy/Loop.antt =====
-- proxy_init_http, proxy_init and proxy_run (src/proxy/proxy.c).
use epoll_proxy.Base.{
  ℕ, zero, suc, List, [], ◌∷◌, Option, none, some, Bool, true, false, ◌&&◌, ◌||◌, if◌then◌else◌,
}
use epoll_proxy.Config.{Fd, tcp, http, max_events}
use epoll_proxy.Kernel.{Os, eintr, Events, WaitReply, ready, reuse_addr, reuse_port, defer_accept}
use epoll_proxy.Connection.{pool_init, is_connecting, is_connected}
use epoll_proxy.Epoll.{
  epoll_init, epoll_add, epoll_wait_events, close_fd, create_listen_socket, in_events,
}
use epoll_proxy.State.{M, pure, done, system, get_config, put_config, get_conn, ◌>>=◌, ◌>>◌}
use epoll_proxy.Proxy.Lifecycle.{get_timestamp_ms}
use epoll_proxy.Proxy.Events.{handle_error, handle_connect}
use epoll_proxy.Proxy.Write.{handle_write}
use epoll_proxy.Proxy.Read.{handle_read}
use epoll_proxy.Proxy.Accept.{handle_accept}

-- `proxy_run` returned 0 or -1, or is still in its loop after the rounds that the model follows.
pub data RunResult : Type 0 where
  stopped wait_failed running : RunResult

module _ ⦃os : Os⦄ where
  -- From the test of `config->listen_fd` on. The options are only reported when they fail.
  unfoldable pub register_listener : ℕ → Fd → M Bool
  register_listener epoll_fd none = close_fd (some epoll_fd) >> pure false
  register_listener epoll_fd (some fd) = do
    _ ← system (λ k. os.setsockopt k (some fd) reuse_addr)
    _ ← system (λ k. os.setsockopt k (some fd) reuse_port)
    _ ← system (λ k. os.setsockopt k (some fd) defer_accept)
    added ← epoll_add (some epoll_fd) (some fd) in_events none
    if added then pure true else (close_fd (some fd) >> (close_fd (some epoll_fd) >> pure false))

  -- The listening socket is created and registered with the new epoll instance.
  unfoldable pub start_listening : List ℕ → ℕ → Fd → M Bool
  start_listening addr port none = pure false
  start_listening addr port (some epoll_fd) = do
    listen_fd ← create_listen_socket addr port
    c ← get_config
    put_config (record c { listen_fd = listen_fd })
    register_listener epoll_fd listen_fd

  -- `true` is the return value 0.
  unfoldable pub proxy_init_http : List ℕ → ℕ → List ℕ → ℕ → M Bool
  proxy_init_http listen_addr listen_port backend_addr backend_port = do
    c ← get_config
    put_config (
        pool_init (record c {
          listen_addr = listen_addr;
          listen_port = listen_port;
          backend_addr = backend_addr;
          backend_port = backend_port;
          mode = http;
        }))
    epoll_fd ← epoll_init
    c' ← get_config
    put_config (record c' { epoll_fd = epoll_fd })
    start_listening listen_addr listen_port epoll_fd

  unfoldable pub proxy_init : List ℕ → ℕ → List ℕ → ℕ → M Bool
  proxy_init listen_addr listen_port backend_addr backend_port = do
    c ← get_config
    put_config (record c { mode = tcp })
    proxy_init_http listen_addr listen_port backend_addr backend_port

  -- A connection whose connect has completed is written to at once.
  unfoldable pub connect_event : ℕ → M (Unit {0})
  connect_event i = do
    handle_connect i
    conn ← get_conn i
    if is_connected conn.state then handle_write i else done

  unfoldable pub read_write_event : Events → ℕ → M (Unit {0})
  read_write_event ev i = do
    if ev.epoll_out then handle_write i else done
    if ev.epoll_in then handle_read i else done

  -- The body of the loop over the ready events; `rounds` is for `handle_accept`.
  unfoldable pub handle_event : ℕ → Events → Option ℕ → M (Unit {0})
  handle_event rounds ev none = handle_accept rounds
  handle_event rounds ev (some i) = do
    conn ← get_conn i
    if ev.epoll_err || ev.epoll_hup || ev.epoll_rdhup
        then handle_error i
        else if is_connecting conn.state && ev.epoll_out
        then connect_event i
        else read_write_event ev i

  unfoldable pub handle_events : ℕ → List (Events × Option ℕ) → M (Unit {0})
  handle_events rounds [] = done
  handle_events rounds ((ev, conn) ∷ evs) = handle_event rounds ev conn >> handle_events rounds evs

  -- The time is read for the periodic tasks, of which there are none yet.
  unfoldable pub after_wait : M RunResult → ℕ → WaitReply → M RunResult
  after_wait rest rounds (WaitReply.failed eintr) = rest
  after_wait rest rounds (WaitReply.failed _) = pure wait_failed
  after_wait rest rounds (ready evs) = do handle_events rounds evs; _ ← get_timestamp_ms; rest

  -- `!running`, which the signal handler sets
  abbrev interrupted : M Bool
  interrupted s = some (os.interrupted s.kernel, s)

  -- The first `turns` turns of the event loop.
  unfoldable pub proxy_run : ℕ → ℕ → M RunResult
  proxy_run zero rounds = pure running
  proxy_run (suc turns) rounds = do
    stop ← interrupted
    if stop then pure stopped else (do
      c ← get_config
      r ← epoll_wait_events c.epoll_fd max_events 1000
      after_wait (proxy_run turns rounds) rounds r)
