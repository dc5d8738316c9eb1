-- ===== src/Safety.antt =====
-- Memory safety of the proxy (src/proxy/proxy.c): the invariant of its state, and a calculus for
-- commands that run to their end with it.
pub mod Rules
pub mod Assign
pub mod Kernel
pub mod Write
pub mod Drain
pub mod Unsent
pub mod Refused
pub mod Heap
pub mod Events
pub mod Touch
pub mod Lifecycle
pub mod Start
pub mod Open
pub mod Forwarding
pub mod Paired
pub mod Forwarded
pub mod ReadHttp
pub mod Received
pub mod Paths
pub mod ReadTcp
pub mod Owned
pub mod Close
pub mod Fresh
pub mod Accepting
pub mod Running
pub mod Stale
pub mod Cleanup
pub mod Program
use epoll_proxy.Base.{ℕ, ◌<◌, ◌≡◌, ◌≢◌, Option, none, some, Bool, true}
use epoll_proxy.Config.{Config, Connection, ProxyMode, tcp, http, closed, max_connections}
use epoll_proxy.Kernel.{Os, IsReliable}
use epoll_proxy.Http.{Request}
use epoll_proxy.Connection.Pool.{IsSound}
use epoll_proxy.State.{State, M}

-- A connection in use.
abbrev pub IsOpen : Config → ℕ → Type 0
IsOpen c i = (i < max_connections) × ((c.connections i).state ≢ closed)

-- A connection in use on the client's side.
pub record IsClient (c : Config) (i : ℕ) : Type 0 where
  pub in_pool : i < max_connections
  pub client : (c.connections i).is_client ≡ true
  pub open_state : (c.connections i).state ≢ closed

-- A pointer to a request that was allocated and not yet freed.
pub record IsLive (heap : ℕ → Option Request) (next : ℕ) (p : Option ℕ) : Type 0 where
  pub address : ℕ
  pub request : Request
  pub is_address : p ≡ some address
  pub below : address < next
  pub held : heap address ≡ some request

abbrev pub requests : Config → ℕ → Option ℕ
requests c i = (c.connections i).http_req

-- The requests that the slots of a set point to are live, and no two slots share one. A slot that
-- is closed keeps its pointer.
pub record Owns (P : ℕ → Type 0) (reqs : ℕ → Option ℕ) (heap : ℕ → Option Request) (next : ℕ)
    : Type 0 where
  pub lives : (i : ℕ) → P i → reqs i ≢ none → IsLive heap next (reqs i)
  pub alone : (i j : ℕ) → P i → P j → i ≢ j → reqs i ≢ none → reqs i ≢ reqs j

abbrev pub InPool : ℕ → Type 0
InPool i = i < max_connections

-- The pool is sound, and in HTTP mode every client in use has a live request of its own; in TCP
-- mode there are no requests. Where the assumption `T` holds, every slot owns what it points to.
pub record IsValid (T : Type 0) (c : Config) (heap : ℕ → Option Request) (next : ℕ) : Type 0 where
  pub sound : IsSound c
  pub live : c.mode ≡ http → (i : ℕ) → IsClient c i → IsLive heap next (c.connections i).http_req
  pub apart :
      c.mode ≡ http
      → (i j : ℕ) → i ≢ j
      → IsClient c i
      → IsClient c j
      → (c.connections i).http_req ≢ (c.connections j).http_req
  pub unused : c.mode ≡ tcp → (i : ℕ) → i < max_connections → (c.connections i).http_req ≡ none
  pub owned : T → Owns InPool (requests c) heap next

module _ ⦃os : Os⦄ where
  abbrev pub IsSafe : State → Type 0
  IsSafe s = IsValid (IsReliable os) s.config s.heap s.next

  -- With a connection that a handler works on.
  abbrev pub IsBusy : ℕ → State → Type 0
  IsBusy i s = IsSafe s × IsOpen s.config i

  -- The command came to its end, with no use of a dead request, in a state with the property.
  pub data Ensures {A : Type 0} (P : A → State → Type 0) : Option (A × State) → Type 0 where
    ensures : {a : A} {s : State} → P a s → Ensures P (some (a, s))

  abbrev pub Safely : {A : Type 0} → Option (A × State) → Type 0
  Safely = Ensures (λ _ s. IsSafe s)

  abbrev pub Busily : {A : Type 0} → ℕ → Option (A × State) → Type 0
  Busily i = Ensures (λ _ s. IsBusy i s)

  -- The command changes nothing but the kernel's state.
  abbrev pub IsQuiet : {A : Type 0} → M A → Type 0
  IsQuiet {A} m =
      (s : State) → (a : A) × (k : os.Kernel) × (m s ≡ some (a, record s { kernel = k }))
