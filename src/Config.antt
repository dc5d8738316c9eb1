-- ===== src/Config.antt =====
-- include/config.h: the constants, the connection state machine, and the structs of the proxy.
--
-- A C array of structs is a function from its index; `connection_t *` is an index into
-- `config->connections`, and NULL is `none`. A descriptor is `some fd`, and -1 is `none`. An `int`
-- that holds 0 or 1 is a Bool. `http_req` points into a heap of its own (see Proxy.State).
use epoll_proxy.Base.{ℕ, ◌*◌, List, Option, Bool, ◌==◌, if◌then◌else◌}

abbrev pub max_connections : ℕ
max_connections = 10000

abbrev pub max_events : ℕ
max_events = 256

abbrev pub buffer_size : ℕ
buffer_size = 16384

abbrev pub max_request_size : ℕ
max_request_size = 10 * 1024 * 1024

abbrev pub max_requests_per_conn : ℕ
max_requests_per_conn = 1000

-- `conn_state_t`
pub data ConnState : Type 0 where
  connecting connected reading_request request_complete writing_response closing closed : ConnState

-- `buffer_t`; `bytes` is the array `data`.
pub record Buffer : Type 0 where
  pub bytes : List ℕ
  pub len : ℕ
  pub pos : ℕ

abbrev pub Fd : Type 0
Fd = Option ℕ

-- `connection_t`
pub record Connection : Type 0 where
  pub fd : Fd
  pub peer : Option ℕ
  pub state : ConnState
  pub read_buf : Buffer
  pub write_buf : Buffer
  pub is_client : Bool
  pub last_active : ℕ
  pub http_req : Option ℕ
  -- the 32 bits of an `int`
  pub requests_handled : ℕ
  pub keep_alive : Bool

-- `proxy_mode_t`
pub data ProxyMode : Type 0 where
  tcp http : ProxyMode

-- The anonymous struct `stats`; each field is a uint64_t.
pub record Stats : Type 0 where
  pub total_connections : ℕ
  pub active_connections : ℕ
  pub bytes_received : ℕ
  pub bytes_sent : ℕ
  pub errors : ℕ
  pub requests_total : ℕ
  pub requests_get : ℕ
  pub requests_post : ℕ
  pub requests_error : ℕ
  pub keep_alive_reused : ℕ

-- `proxy_config_t`; an address is its bytes.
pub record Config : Type 0 where
  pub listen_addr : List ℕ
  pub listen_port : ℕ
  pub backend_addr : List ℕ
  pub backend_port : ℕ
  pub mode : ProxyMode
  pub epoll_fd : Fd
  pub listen_fd : Fd
  pub connections : ℕ → Connection
  pub free_list : ℕ → ℕ
  pub free_count : ℕ
  pub stats : Stats

-- An assignment to one element of an array.
abbrev pub update {ℓ} : {A : Type ℓ} → (ℕ → A) → ℕ → A → ℕ → A
update f i v j = if i == j then v else f j
