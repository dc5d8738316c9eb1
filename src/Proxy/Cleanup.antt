-- ===== src/Proxy/Cleanup.antt =====
-- proxy_cleanup (src/proxy/proxy.c), less the statistics that it prints.
use epoll_proxy.Base.{ℕ, zero, suc, ◌+◌, none, some, if◌then◌else◌}
use epoll_proxy.Config.{Fd, max_connections}
use epoll_proxy.Kernel.{Os}
use epoll_proxy.Connection.{is_closed}
use epoll_proxy.Epoll.{epoll_del, close_fd}
use epoll_proxy.State.{M, done, get_config, get_conn, put_conn, release, ◌>>=◌, ◌>>◌}
use epoll_proxy.Proxy.Lifecycle.{close}

module _ ⦃os : Os⦄ where
  -- "Free HTTP request if allocated", and the close.
  unfoldable pub drop_open : ℕ → M (Unit {0})
  drop_open i = do
    conn ← get_conn i
    release conn.http_req
    conn' ← get_conn i
    put_conn i (record conn' { http_req = none })
    close (some i)

  unfoldable pub drop_slot : ℕ → M (Unit {0})
  drop_slot i = do conn ← get_conn i; if is_closed conn.state then done else drop_open i

  -- The rounds `i` to `i + rounds - 1` of the loop over the pool.
  unfoldable pub drop_slots : ℕ → ℕ → M (Unit {0})
  drop_slots zero i = done
  drop_slots (suc rounds) i = drop_slot i >> drop_slots rounds (i + 1)

  unfoldable pub drop_listener : Fd → Fd → M (Unit {0})
  drop_listener epoll_fd none = done
  drop_listener epoll_fd (some fd) = do _ ← epoll_del epoll_fd (some fd); close_fd (some fd)

  unfoldable pub drop_epoll : Fd → M (Unit {0})
  drop_epoll none = done
  drop_epoll (some fd) = close_fd (some fd)

  unfoldable pub proxy_cleanup : M (Unit {0})
  proxy_cleanup = do
    drop_slots max_connections 0
    c ← get_config
    drop_listener c.epoll_fd c.listen_fd
    drop_epoll c.epoll_fd
