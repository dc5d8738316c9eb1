-- ===== src/Proxy/Lifecycle.antt =====
-- connection_init, connection_close, connection_close_pair and connection_update_activity
-- (src/network/connection.c).
use epoll_proxy.Base.{ℕ, Option, none, some, Bool, if◌then◌else◌}
use epoll_proxy.Config.{ConnState, Fd}
use epoll_proxy.Kernel.{Os}
use epoll_proxy.Connection.{timestamp_ms, reset, unpair, free, is_closed}
use epoll_proxy.Epoll.{epoll_del, close_fd}
use epoll_proxy.State.{
  M, pure, done, system, get_config, put_config, get_conn, put_conn, ◌>>=◌, ◌>>◌,
}

module _ ⦃os : Os⦄ where
  unfoldable pub get_timestamp_ms : M ℕ
  get_timestamp_ms = do t ← system os.clock_gettime; pure (timestamp_ms t)

  unfoldable pub connection_init : ℕ → Fd → Bool → ConnState → M (Unit {0})
  connection_init i fd is_client state = do
    now ← get_timestamp_ms
    conn ← get_conn i
    put_conn i (reset conn fd is_client state now)

  unfoldable pub update_activity : ℕ → M (Unit {0})
  update_activity i = do
    now ← get_timestamp_ms
    conn ← get_conn i
    put_conn i (record conn { last_active = now })

  -- The descriptor is taken out of epoll and closed, if there is one.
  unfoldable pub close_socket : Fd → Fd → M (Unit {0})
  close_socket epoll_fd none = done
  close_socket epoll_fd (some fd) = do _ ← epoll_del epoll_fd (some fd); close_fd (some fd)

  -- What `connection_close` does to a connection that is not closed.
  unfoldable pub close_open : ℕ → M (Unit {0})
  close_open i = do
    c ← get_config
    close_socket c.epoll_fd (c.connections i).fd
    c' ← get_config
    put_config (free (unpair c' (some i)) (some i))

  unfoldable pub close : Option ℕ → M (Unit {0})
  close none = done
  close (some i) = do conn ← get_conn i; if is_closed conn.state then done else close_open i

  -- The peer is read before the first close unpairs the two.
  unfoldable pub close_pair : Option ℕ → M (Unit {0})
  close_pair none = done
  close_pair (some i) = do conn ← get_conn i; close (some i); close conn.peer
