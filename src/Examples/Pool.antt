-- ===== src/Examples/Pool.antt =====
-- The theorems on the connection pool at a pool that was just set up.
use epoll_proxy.Base.{ℕ, ◌≡◌, ◌⊎◌, ◌<◌, [], ◌∷◌, some, none, false, arith, codes}
use epoll_proxy.Config.{Config, Connection, http, closed, max_connections}
use epoll_proxy.Buffer
use epoll_proxy.Connection.{zero_stats, pool_init, alloc, free}
use epoll_proxy.Connection.FreeList.{free_stack, Absent, alloc_pops, free_pushes}
use epoll_proxy.Connection.Pool.{IsSound}
use epoll_proxy.Connection.Pool.Steps.{alloc-IsSound, free-IsSound, free_count-lt}
use epoll_proxy.Connection.Pool.Init.{pool_init-IsSound, alloc-pool_init, count_up, pool_init_lem}

-- A slot of memory that was cleared.
abbrev pub blank : Connection
blank = record {
  fd = some 0;
  peer = none;
  state = closed;
  read_buf = Buffer.init;
  write_buf = Buffer.init;
  is_client = false;
  last_active = 0;
  http_req = none;
  requests_handled = 0;
  keep_alive = false;
}

abbrev pub memory : Config
memory = record {
  listen_addr = codes "0.0.0.0";
  listen_port = 8080;
  backend_addr = codes "127.0.0.1";
  backend_port = 8081;
  mode = http;
  epoll_fd = some 4;
  listen_fd = some 5;
  connections = λ i. blank;
  free_list = λ i. 0;
  free_count = 0;
  stats = zero_stats;
}

abbrev pub fresh : Config
fresh = pool_init memory

abbrev pub one_taken : Config
one_taken = (alloc fresh).1

alloc_pops_example :
    ((free_stack fresh ≡ []) × (alloc fresh ≡ (none, fresh)))
    ⊎ ((i : ℕ) × (free_stack fresh ≡ i ∷ free_stack one_taken) × ((alloc fresh).0 ≡ some i))
alloc_pops_example = alloc_pops fresh

pool_init_lem_example : IsSound fresh × (free_stack fresh ≡ count_up 0 max_connections)
pool_init_lem_example = pool_init_lem memory

alloc-IsSound_example :
    IsSound one_taken
    × (0 < max_connections)
    × Absent 0 (free_stack one_taken)
    × ((one_taken.connections 0).state ≡ closed)
alloc-IsSound_example = alloc-IsSound 0 (pool_init-IsSound memory) (alloc-pool_init memory)

taken-IsSound : IsSound one_taken
taken-IsSound = (alloc-IsSound 0 (pool_init-IsSound memory) (alloc-pool_init memory)).0

taken-Absent : Absent 0 (free_stack one_taken)
taken-Absent = (alloc-IsSound 0 (pool_init-IsSound memory) (alloc-pool_init memory)).2

free-IsSound_example : IsSound (free one_taken (some 0))
free-IsSound_example = free-IsSound 0 taken-IsSound (omega arith) taken-Absent

free_pushes_example : free_stack (free one_taken (some 0)) ≡ 0 ∷ free_stack one_taken
free_pushes_example =
    free_pushes one_taken 0 (omega arith) (free_count-lt 0 taken-IsSound (omega arith) taken-Absent)
