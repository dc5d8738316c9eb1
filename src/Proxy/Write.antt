-- ===== src/Proxy/Write.antt =====
-- handle_write (src/proxy/proxy.c).
use epoll_proxy.Base.{
  ℕ, zero, suc, ◌+◌, some, Bool, true, false, not, ◌&&◌, leb, if◌then◌else◌, add_size, ◌%◌, ◌^◌,
  ltb,
}
use epoll_proxy.Config.{
  Config, Connection, Stats, reading_request, buffer_size, max_requests_per_conn,
}
use epoll_proxy.Kernel.{Os, Errno, eagain}
use epoll_proxy.Buffer
use epoll_proxy.Buffer.{IoResult, count, error}
use epoll_proxy.Connection.{set_conn, can_write}
use epoll_proxy.Http
use epoll_proxy.State.{
  M, pure, done, undefined, get_config, get_conn, put_conn, put_stats, store, ◌>>=◌, ◌>>◌,
}
use epoll_proxy.Proxy.Lifecycle.{close, update_activity}
use epoll_proxy.Proxy.Events.{
  close_side, is_http, count_error, update_epoll_events, update_peer_events,
}

-- `errno == EAGAIN || errno == EWOULDBLOCK`
abbrev pub is_again : Errno → Bool
is_again eagain = true
is_again _ = false

abbrev pub count_sent : ℕ → Stats → Stats
count_sent n st = record st { bytes_sent = add_size st.bytes_sent n }

abbrev pub count_reused : Stats → Stats
count_reused st = record st { keep_alive_reused = add_size st.keep_alive_reused 1 }

-- How a loop of a handler ends: by `break`, or by `return` from the handler.
pub data Exit : Type 0 where
  broke returned : Exit

-- `requests_handled` is an `int`, as its 32 bits. ISO C leaves its overflow undefined; here it wraps
-- around in two's complement, as compilers do with -fwrapv.
abbrev pub increment_int : ℕ → ℕ
increment_int n = (n + 1) % 2 ^ 32

-- `requests_handled >= MAX_REQUESTS_PER_CONN`; from 2 ^ 31 on the value is negative.
abbrev pub is_limit_reached : ℕ → Bool
is_limit_reached n = leb max_requests_per_conn n && ltb n (2 ^ 31)

-- "Reset for next request"
unfoldable pub reset_for_next : Connection → Connection
reset_for_next conn = record conn {
  read_buf = Buffer.clear conn.read_buf;
  write_buf = Buffer.clear conn.write_buf;
  state = reading_request;
  requests_handled = increment_int conn.requests_handled;
}

module _ ⦃os : Os⦄ where
  -- `buffer_write_fd(&conn->write_buf, conn->fd)`
  unfoldable pub write_buffer : ℕ → M IoResult
  write_buffer i s =
      let conn = s.config.connections i in
      let (r, b, k) = Buffer.write_fd os s.kernel conn.write_buf conn.fd in
      some
        (r, record s { config = set_conn s.config i (record conn { write_buf = b }); kernel = k })

  -- A real error: the client alone is closed in HTTP mode.
  unfoldable pub fail_write : ℕ → M Exit
  fail_write i = do put_stats count_error; close_side i; pure returned

  -- `if (buffer_is_empty(&conn->write_buf)) break; continue;`
  unfoldable pub until_empty : M Exit → ℕ → M Exit
  until_empty rest i = do
    conn ← get_conn i
    if Buffer.is_empty conn.write_buf then pure broke else rest

  -- A round of the loop after `buffer_write_fd` returned; `rest` is the loop.
  unfoldable pub after_write : M Exit → ℕ → IoResult → M Exit
  after_write rest i (error e) = if is_again e then pure broke else fail_write i
  after_write rest i (count zero) = pure broke
  after_write rest i (count (suc n)) = do
    update_activity i
    put_stats (count_sent (suc n))
    until_empty rest i

  unfoldable pub write_loop : ℕ → ℕ → M Exit
  write_loop zero i = undefined
  write_loop (suc fuel) i = do r ← write_buffer i; after_write (write_loop fuel i) i r

  -- The end of the handler: both sides' events are brought up to date.
  unfoldable pub refresh_events : ℕ → M (Unit {0})
  refresh_events i = do _ ← update_epoll_events i; conn ← get_conn i; update_peer_events conn.peer

  unfoldable pub reuse : ℕ → M (Unit {0})
  reuse i = do put_stats count_reused; refresh_events i

  -- "Check max requests limit"
  unfoldable pub check_requests : ℕ → M (Unit {0})
  check_requests i = do
    conn ← get_conn i
    if is_limit_reached conn.requests_handled then close (some i) else reuse i

  -- "prepare for next request"
  unfoldable pub next_request : ℕ → M (Unit {0})
  next_request i = do
    conn ← get_conn i
    store conn.http_req Http.init
    put_conn i (reset_for_next conn)
    check_requests i

  -- What follows the loop, from whether the client's response is finished.
  unfoldable pub finish_response : Bool → ℕ → M (Unit {0})
  finish_response false i = refresh_events i
  finish_response true i = do
    conn ← get_conn i
    if not conn.keep_alive then close (some i) else next_request i

  unfoldable pub is_finished : Config → ℕ → Bool
  is_finished c i =
      let conn = c.connections i in
      is_http c.mode && conn.is_client && Buffer.is_empty conn.write_buf

  unfoldable pub after_writing : ℕ → Exit → M (Unit {0})
  after_writing i returned = done
  after_writing i broke = do c ← get_config; finish_response (is_finished c i) i

  -- A round that goes on takes at least one byte out of the buffer, so its size bounds the rounds.
  abbrev pub write_fuel : ℕ
  write_fuel = buffer_size + 1

  unfoldable pub handle_write : ℕ → M (Unit {0})
  handle_write i = do
    conn ← get_conn i
    if not (can_write conn) then done else (do e ← write_loop write_fuel i; after_writing i e)
