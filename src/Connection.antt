-- ===== src/Connection.antt =====
-- src/network/connection.c: the pool with its free list, the life of a connection, pairing, and the
-- state machine's predicates. The functions that make system calls are in Proxy.Lifecycle.
pub mod FreeList
pub mod Pool
use epoll_proxy.Base.{
  ℕ, zero, suc, ◌+◌, ◌-◌, ◌*◌, ◌/◌, ◌%◌, ◌^◌, List, [], ◌∷◌, Option, none, some, Bool, true, false,
  not, ◌&&◌, ◌||◌, ◌==◌, leb, if◌then◌else◌, add_size, sub_size,
}
use epoll_proxy.Config.{
  Connection, Config, Stats, ConnState, connecting, connected, reading_request, request_complete,
  writing_response, closing, closed, Fd, max_connections, update,
}
use epoll_proxy.Buffer

abbrev pub is_connecting : ConnState → Bool
is_connecting connecting = true
is_connecting _ = false

abbrev pub is_connected : ConnState → Bool
is_connected connected = true
is_connected _ = false

abbrev pub is_writing_response : ConnState → Bool
is_writing_response writing_response = true
is_writing_response _ = false

abbrev pub is_reading_request : ConnState → Bool
is_reading_request reading_request = true
is_reading_request _ = false

abbrev pub is_request_complete : ConnState → Bool
is_request_complete request_complete = true
is_request_complete _ = false

abbrev pub is_closed : ConnState → Bool
is_closed closed = true
is_closed _ = false

abbrev pub is_none {ℓ} : {A : Type ℓ} → Option A → Bool
is_none none = true
is_none (some a) = false

abbrev pub zero_stats : Stats
zero_stats = record {
  total_connections = 0;
  active_connections = 0;
  bytes_received = 0;
  bytes_sent = 0;
  errors = 0;
  requests_total = 0;
  requests_get = 0;
  requests_post = 0;
  requests_error = 0;
  keep_alive_reused = 0;
}

-- An assignment to a connection of the pool.
abbrev pub set_conn : Config → ℕ → Connection → Config
set_conn c i conn = record c { connections = update c.connections i conn }

-- One round of the loop of `connection_pool_init`.
unfoldable pub init_slot : Config → ℕ → Config
init_slot c i =
    let conn = c.connections i in
    record c {
      connections = update c.connections i (record conn {
        fd = none;
        peer = none;
        state = closed;
        is_client = false;
        last_active = 0;
        read_buf = Buffer.init;
        write_buf = Buffer.init;
      });
      free_list = update c.free_list i (max_connections - 1 - i);
    }

-- The rounds `i` to `i + rounds - 1`.
unfoldable pub init_slots : ℕ → ℕ → Config → Config
init_slots zero i c = c
init_slots (suc rounds) i c = init_slots rounds (i + 1) (init_slot c i)

unfoldable pub pool_init : Config → Config
pool_init c =
    let c' = init_slots max_connections 0 c in
    record c' { free_count = max_connections; stats = zero_stats }

-- `none` is NULL: the pool is exhausted.
unfoldable pub alloc : Config → Option ℕ × Config
alloc c =
    if c.free_count == 0
    then (none, c)
    else let index = c.free_list (c.free_count - 1) in
      let conn = c.connections index in
      let conn' = if is_closed conn.state then conn else record conn { state = closed } in
      (
        some index,
        record c {
          free_count = c.free_count - 1;
          connections = update c.connections index conn';
          stats = record c.stats {
            total_connections = add_size c.stats.total_connections 1;
            active_connections = add_size c.stats.active_connections 1;
          };
        },
      )

-- The fields that `connection_free` resets.
unfoldable pub freed : Connection → Connection
freed conn = record conn {
  state = closed;
  fd = none;
  peer = none;
  read_buf = Buffer.clear conn.read_buf;
  write_buf = Buffer.clear conn.write_buf;
}

-- A pointer into the pool is its index; one outside it is refused.
unfoldable pub free : Config → Option ℕ → Config
free c none = c
free c (some i) =
    let c' = set_conn c i (freed (c.connections i)) in
    if leb max_connections i
    then c
    else if leb max_connections c.free_count
    then c'
    else record c' {
      free_list = update c.free_list c.free_count i;
      free_count = c.free_count + 1;
      stats = record c.stats { active_connections = sub_size c.stats.active_connections 1 };
    }

-- `connection_init` at the time `now`; the HTTP fields are left as they were.
unfoldable pub reset : Connection → Fd → Bool → ConnState → ℕ → Connection
reset conn fd is_client state now = record conn {
  fd = fd;
  is_client = is_client;
  state = state;
  peer = none;
  last_active = now;
  read_buf = Buffer.clear conn.read_buf;
  write_buf = Buffer.clear conn.write_buf;
}

abbrev pub set_peer : Config → ℕ → Option ℕ → Config
set_peer c i peer = set_conn c i (record (c.connections i) { peer = peer })

unfoldable pub pair : Config → ℕ → ℕ → Config
pair c client backend = set_peer (set_peer c client (some backend)) backend (some client)

unfoldable pub unpair : Config → Option ℕ → Config
unpair c none = c
unpair c (some i) = elim (c.connections i).peer [
  | none ↦ c
  | some j ↦ set_peer (set_peer c j none) i none
]

unfoldable pub set_state : Config → Option ℕ → ConnState → Config
set_state c none state = c
set_state c (some i) state = set_conn c i (record (c.connections i) { state = state })

unfoldable pub is_valid : Connection → Bool
is_valid conn = not (is_closed conn.state) && not (is_none conn.fd)

unfoldable pub can_read : Config → ℕ → Bool
unfolding is_valid
can_read c i =
    let conn = c.connections i in
    if not (is_valid conn)
    then false
    else if is_connecting conn.state || is_writing_response conn.state
    then false
    else elim conn.peer [
      | none ↦ is_reading_request conn.state || is_request_complete conn.state
      | some j ↦ not (Buffer.is_full (c.connections j).write_buf)
    ]

unfoldable pub can_write : Connection → Bool
unfolding is_valid
can_write conn =
    if not (is_valid conn)
    then false
    else if not (is_connected conn.state)
        && not (is_connecting conn.state)
        && not (is_writing_response conn.state)
    then false
    else if is_connecting conn.state
    then true
    else not (Buffer.is_empty conn.write_buf)

unfoldable pub wants_read : Config → ℕ → Bool
unfolding can_read
wants_read c i = can_read c i

unfoldable pub wants_write : Connection → Bool
unfolding is_valid
wants_write conn =
    if not (is_valid conn)
    then false
    else if is_connecting conn.state
    then true
    else not (Buffer.is_empty conn.write_buf)

-- `get_timestamp_ms` of what `clock_gettime` returned, in uint64_t.
unfoldable pub timestamp_ms : Option (ℕ × ℕ) → ℕ
timestamp_ms none = 0
timestamp_ms (some (sec, nsec)) = (sec * 1000 + nsec / 1000000) % 2 ^ 64
