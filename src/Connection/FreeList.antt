-- ===== src/Connection/FreeList.antt =====
-- The free list of src/network/connection.c as a stack: connection_alloc pops it,
-- connection_free pushes it, and connection_pool_init fills it with all indices.
mod Pigeonhole
pub use Pigeonhole.*
use epoll_proxy.Base.{
  ℕ, zero, suc, ◌+◌, ◌-◌, ◌≤◌, ◌<◌, ◌≡◌, ◌≢◌, refl, ap, ◌⊎◌, inl, inr, ℕ_discrete, ◌∙◌, List, [],
  ◌∷◌, Option, none, some, arith, length, ◌==◌, leb,
}
use epoll_proxy.Config.{Config, Connection, update, max_connections}
use epoll_proxy.Connection.{alloc, free}

-- The entries below `n`, the last one first.
unfoldable pub stack_of : (ℕ → ℕ) → ℕ → List ℕ
stack_of f zero = []
stack_of f (suc n) = f n ∷ stack_of f n

abbrev pub free_stack : Config → List ℕ
free_stack c = stack_of c.free_list c.free_count

pub length-stack_of : (f : ℕ → ℕ) (n : ℕ) → length (stack_of f n) ≡ n
unfolding stack_of
length-stack_of f zero = refl
length-stack_of f (suc n) = ap suc (length-stack_of f n)

-- An entry above the top is not seen.
pub stack_of-update : (f : ℕ → ℕ) (k v n : ℕ) → n ≤ k → stack_of (update f k v) n ≡ stack_of f n
unfolding stack_of
stack_of-update f k v zero h = refl
stack_of-update f k v (suc n) h = ground (arith, stack_of-update f k v n)

pub stack_of-push : (f : ℕ → ℕ) (n v : ℕ) → stack_of (update f n v) (n + 1) ≡ v ∷ stack_of f n
unfolding stack_of
stack_of-push f n v =
    ap (stack_of (update f n v)) (let e : n + 1 ≡ suc n = omega arith in e)
    ∙ ground (arith, stack_of-update f n v n)

pub stack_of-pop : (f : ℕ → ℕ) (n : ℕ) → n ≢ 0 → stack_of f n ≡ f (n - 1) ∷ stack_of f (n - 1)
unfolding stack_of
stack_of-pop f zero h = absurd (h refl)
stack_of-pop f (suc n) h = ap (λ k. f k ∷ stack_of f k) (omega arith)

-- `connection_alloc` pops: on the empty stack it returns NULL and changes nothing, and otherwise
-- it returns the top and leaves the rest.
pub alloc_pops :
    (c : Config)
    → ((free_stack c ≡ []) × (alloc c ≡ (none, c)))
      ⊎ ((i : ℕ) × (free_stack c ≡ i ∷ free_stack (alloc c).1) × ((alloc c).0 ≡ some i))
unfolding alloc stack_of
alloc_pops c = elim (ℕ_discrete c.free_count 0) [
  | yes e ↦ inl (rw e, ground arith)
  | no ne ↦ inr (
    c.free_list (c.free_count - 1),
    ground (arith, stack_of-pop c.free_list c.free_count ne),
    ground arith,
  )
]

-- `connection_free` pushes, if the index lies in the pool and the list has room.
pub free_pushes :
    (c : Config) (i : ℕ)
    → i < max_connections
    → c.free_count < max_connections
    → free_stack (free c (some i)) ≡ i ∷ free_stack c
unfolding free
free_pushes c i h room = ground (arith, stack_of-push c.free_list c.free_count i)
