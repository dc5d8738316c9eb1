-- ===== src/Connection/Pool/Init.antt =====
-- connection_pool_init (src/network/connection.c) sets up the invariant, with every slot free.
use epoll_proxy.Base.{
  ℕ, zero, suc, ◌+◌, ◌-◌, ◌≤◌, ◌<◌, ◌≡◌, refl, subst, List, [], ◌∷◌, some, none, arith, ◌∙◌,
}
use epoll_proxy.Config.{Config, Connection, closed, max_connections}
use epoll_proxy.Buffer
use epoll_proxy.Buffer.Refine.{init-IsValid}
use epoll_proxy.Connection.{alloc, pool_init, init_slots, init_slot}
use epoll_proxy.Connection.FreeList.{free_stack, stack_of, All, Absent, Distinct}
use epoll_proxy.Connection.Pool.{IsFree, IsSound}

-- `start`, `start + 1`, …, `n` of them.
unfoldable pub count_up : ℕ → ℕ → List ℕ
count_up start zero = []
count_up start (suc n) = start ∷ count_up (suc start) n

-- A slot as the loop leaves it.
record IsBlank (conn : Connection) : Type 0 where
  state_closed : conn.state ≡ closed
  peer_none : conn.peer ≡ none
  read_init : conn.read_buf ≡ Buffer.init
  write_init : conn.write_buf ≡ Buffer.init

-- What the first `n` rounds have done.
record Done (c : Config) (n : ℕ) : Type 0 where
  blank : (k : ℕ) → k < n → IsBlank (c.connections k)
  listed : (k : ℕ) → k < n → c.free_list k ≡ max_connections - 1 - k

init_slot-Done : (c : Config) (n : ℕ) → Done c n → Done (init_slot c n) (suc n)
unfolding init_slot
init_slot-Done c n d = record {
  blank = λ k h. ground (arith, d.blank k);
  listed = λ k h. ground (arith, d.listed k);
}

init_slots-Done :
    (rounds i : ℕ) (c : Config) (n : ℕ) → n ≡ i + rounds → Done c i → Done (init_slots rounds i c) n
unfolding init_slots
init_slots-Done zero i c n e d = subst (Done c) (let h : i ≡ n = omega arith in h) d
init_slots-Done (suc rounds) i c n e d =
    init_slots-Done rounds (i + 1) (init_slot c i) n (omega arith) (
      subst (Done (init_slot c i)) (let h : suc i ≡ i + 1 = omega arith in h)
        (init_slot-Done c i d))

stack_of-count_up :
    (f : ℕ → ℕ) (m n start : ℕ)
    → ((k : ℕ) → k < n → f k ≡ m - 1 - k)
    → n + start ≡ m
    → stack_of f n ≡ count_up start n
unfolding stack_of count_up
stack_of-count_up f m zero start h e = refl
stack_of-count_up f m (suc n) start h e = ground (
  arith,
  h n (omega arith),
  stack_of-count_up f m n (suc start) (λ k lt. h k (omega arith)) (omega arith),
)

listed_ready :
    (c : Config) (n : ℕ)
    → Done c max_connections
    → n ≤ max_connections
    → All (IsFree c.connections) (stack_of c.free_list n)
unfolding stack_of
listed_ready c zero d h = tt
listed_ready c (suc n) d h = (
  ground (arith, d.listed n, d.blank (max_connections - 1 - n)),
  listed_ready c n d (omega arith),
)

-- Different entries of the list are different slots.
listed-Absent :
    (c : Config) (m n : ℕ)
    → Done c max_connections
    → n ≤ m
    → m < max_connections
    → Absent (c.free_list m) (stack_of c.free_list n)
unfolding stack_of
listed-Absent c m zero d h k = tt
listed-Absent c m (suc n) d h k = (
  (λ e. omega (arith, d.listed n (omega arith), d.listed m k)),
  listed-Absent c m n d (omega arith) k,
)

listed-Distinct :
    (c : Config) (n : ℕ)
    → Done c max_connections
    → n ≤ max_connections
    → Distinct (stack_of c.free_list n)
unfolding stack_of
listed-Distinct c zero d h = tt
listed-Distinct c (suc n) d h =
    (listed-Absent c n n d (omega arith) (omega arith), listed-Distinct c n d (omega arith))

done : (c : Config) → Done (init_slots max_connections 0 c) max_connections
done c =
    init_slots-Done max_connections 0 c max_connections (omega arith)
      (record { blank = λ k h. absurd (omega arith); listed = λ k h. absurd (omega arith) })

-- Whatever the memory held, `connection_pool_init` sets up the invariant of the pool.
pub pool_init-IsSound : (c : Config) → IsSound (pool_init c)
unfolding pool_init
pool_init-IsSound c = record {
  bounded = omega arith;
  distinct = listed-Distinct c' max_connections (done c) (omega arith);
  ready = listed_ready c' max_connections (done c) (omega arith);
  accounted = omega arith;
  buffers = λ i h. ground (arith, (done c).blank i h, init-IsValid);
  peers = λ i j h e. ground (arith, (done c).blank i h);
}
  where
    c' : Config
    c' = init_slots max_connections 0 c

-- After `connection_pool_init` the free list is 0, 1, 2, … up to the last slot, top first.
pub free_stack-pool_init : (c : Config) → free_stack (pool_init c) ≡ count_up 0 max_connections
unfolding pool_init
free_stack-pool_init c =
    stack_of-count_up _ max_connections max_connections 0 (done c).listed (omega arith)

-- Whatever the memory held, `connection_pool_init` leaves a sound pool whose free list is 0, 1, 2, …
-- up to the last slot, top first.
pub pool_init_lem :
    (c : Config) → IsSound (pool_init c) × (free_stack (pool_init c) ≡ count_up 0 max_connections)
pool_init_lem c = (pool_init-IsSound c, free_stack-pool_init c)

pub pool_init-closed :
    (c : Config) (i : ℕ) → i < max_connections → ((pool_init c).connections i).state ≡ closed
unfolding pool_init
pool_init-closed c i h = ((done c).blank i h).state_closed

pub alloc-pool_init : (c : Config) → (alloc (pool_init c)).0 ≡ some 0
unfolding alloc pool_init
alloc-pool_init c =
    let first = (done c).listed (max_connections - 1) (omega arith) in ground (arith, first)

mode-init_slots : (rounds i : ℕ) (c : Config) → (init_slots rounds i c).mode ≡ c.mode
unfolding init_slots init_slot
mode-init_slots zero i c = refl
mode-init_slots (suc rounds) i c = mode-init_slots rounds (i + 1) (init_slot c i)

pub mode-pool_init : (c : Config) → (pool_init c).mode ≡ c.mode
unfolding pool_init
mode-pool_init c = mode-init_slots max_connections 0 c

request-init_slots :
    (rounds i : ℕ) (c : Config) (k : ℕ)
    → ((init_slots rounds i c).connections k).http_req ≡ (c.connections k).http_req
unfolding init_slots init_slot
request-init_slots zero i c k = refl
request-init_slots (suc rounds) i c k =
    let once : ((init_slot c i).connections k).http_req ≡ (c.connections k).http_req =
      ground arith in
    request-init_slots rounds (i + 1) (init_slot c i) k ∙ once

pub request-pool_init :
    (c : Config) (k : ℕ) → ((pool_init c).connections k).http_req ≡ (c.connections k).http_req
unfolding pool_init
request-pool_init c k = request-init_slots max_connections 0 c k
