-- ===== src/Proxy/Events.antt =====
-- update_epoll_events, handle_error and handle_connect (src/proxy/proxy.c).
use epoll_proxy.Base.{
  ℕ, Option, none, some, Bool, true, false, not, ◌&&◌, ◌||◌, if◌then◌else◌, add_size, codes,
}
use epoll_proxy.Config.{Config, Stats, ProxyMode, tcp, http, connected}
use epoll_proxy.Kernel.{Os, Events, SocketError, pending, unavailable}
use epoll_proxy.Connection.{is_valid, wants_read, wants_write, set_state}
use epoll_proxy.Epoll.{epoll_mod, no_events}
use epoll_proxy.State.{
  M, pure, done, system, get_config, put_config, get_conn, put_stats, ◌>>=◌, ◌>>◌,
}
use epoll_proxy.Proxy.Lifecycle.{close, close_pair}
use epoll_proxy.Proxy.Respond.{send_http_error}

abbrev pub is_http : ProxyMode → Bool
is_http http = true
is_http tcp = false

-- The events that a connection asks for: EPOLLIN when it asks for none.
unfoldable pub wanted_events : Config → ℕ → Events
wanted_events c i =
    let in_wanted = wants_read c i in
    let out_wanted = wants_write (c.connections i) in
    record no_events { epoll_in = in_wanted || not out_wanted; epoll_out = out_wanted }

abbrev pub count_error : Stats → Stats
count_error st = record st { errors = add_size st.errors 1 }

module _ ⦃os : Os⦄ where
  unfoldable pub update_epoll_events : ℕ → M Bool
  update_epoll_events i = do
    c ← get_config
    if not (is_valid (c.connections i))
        then pure false
        else epoll_mod c.epoll_fd (c.connections i).fd (wanted_events c i) (some i)

  -- `if (conn->peer) update_epoll_events(config, conn->peer)`
  unfoldable pub update_peer_events : Option ℕ → M (Unit {0})
  update_peer_events none = done
  update_peer_events (some j) = do _ ← update_epoll_events j; done

  -- "In HTTP mode, client errors don't close backend"
  unfoldable pub close_side : ℕ → M (Unit {0})
  close_side i = do
    c ← get_config
    if is_http c.mode && (c.connections i).is_client then close (some i) else close_pair (some i)

  -- The pending error is only reported.
  unfoldable pub handle_error : ℕ → M (Unit {0})
  handle_error i = do
    conn ← get_conn i
    _ ← system (λ k. os.socket_error k conn.fd)
    put_stats count_error
    close_side i

  -- "In HTTP mode, send error to client"
  unfoldable pub fail_connect : ℕ → M (Unit {0})
  fail_connect i = do
    c ← get_config
    elim (c.connections i).peer [
      | none ↦ close_pair (some i)
      | some j ↦
          if is_http c.mode && (c.connections j).is_client
          then send_http_error j 502 (codes "Bad Gateway")
          else close_pair (some i)
    ]

  -- What `handle_connect` does with the pending error.
  unfoldable pub connect_result : ℕ → SocketError → M (Unit {0})
  connect_result i unavailable = fail_connect i
  connect_result i (pending (some e)) = put_stats count_error >> fail_connect i
  connect_result i (pending none) = do
    c ← get_config
    put_config (set_state c (some i) connected)
    _ ← update_epoll_events i
    done

  unfoldable pub handle_connect : ℕ → M (Unit {0})
  handle_connect i = do
    conn ← get_conn i
    r ← system (λ k. os.socket_error k conn.fd)
    connect_result i r
