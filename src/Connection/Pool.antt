-- ===== src/Connection/Pool.antt =====
-- The invariant of the connection pool (include/config.h, src/network/connection.c).
pub mod Steps
pub mod Init
use epoll_proxy.Base.{ℕ, ◌+◌, ◌≤◌, ◌<◌, ◌≡◌, ◌≢◌, ◌⊎◌, List, [], ◌∷◌, Option, some, arith}
use epoll_proxy.Config.{Config, Connection, ConnState, closed, update, max_connections}
use epoll_proxy.Buffer.Refine.{IsValid}
use epoll_proxy.Connection.FreeList.{free_stack, All, Absent, Distinct}

-- A slot that the free list may hold.
abbrev pub IsFree : (ℕ → Connection) → ℕ → Type 0
IsFree conns i = (i < max_connections) × ((conns i).state ≡ closed)

-- The free list holds distinct closed slots of the pool, the statistics count the others, every
-- buffer is valid, and every peer pointer points into the pool.
pub record IsSound (c : Config) : Type 0 where
  pub bounded : c.free_count ≤ max_connections
  pub distinct : Distinct (free_stack c)
  pub ready : All (IsFree c.connections) (free_stack c)
  pub accounted : c.stats.active_connections + c.free_count ≡ max_connections
  pub buffers :
      (i : ℕ)
      → i < max_connections
      → IsValid (c.connections i).read_buf × IsValid (c.connections i).write_buf
  pub peers :
      (i j : ℕ) → i < max_connections → (c.connections i).peer ≡ some j → j < max_connections

-- What a connection must satisfy to be stored in a slot that is not in the free list.
pub record IsProper (conn : Connection) : Type 0 where
  pub reading : IsValid conn.read_buf
  pub writing : IsValid conn.write_buf
  pub peer_in : (j : ℕ) → conn.peer ≡ some j → j < max_connections
