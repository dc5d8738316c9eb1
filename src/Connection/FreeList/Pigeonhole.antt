-- ===== src/Connection/FreeList/Pigeonhole.antt =====
-- Lists of distinct indices: at most `n` of them lie below `n`.
use epoll_proxy.Base.{
  ℕ, zero, suc, ◌≤◌, ◌<◌, ◌≡◌, ◌≢◌, List, [], ◌∷◌, arith, length, ◌==◌, if◌then◌else◌,
}

abbrev pub All {ℓ} : (ℕ → Type ℓ) → List ℕ → Type ℓ
All P [] = Unit
All P (x ∷ xs) = P x × All P xs

abbrev pub Absent : ℕ → List ℕ → Type 0
Absent i = All (λ x. x ≢ i)

abbrev pub Distinct : List ℕ → Type 0
Distinct [] = Unit {0}
Distinct (x ∷ xs) = Absent x xs × Distinct xs

remove : ℕ → List ℕ → List ℕ
remove m [] = []
remove m (x ∷ xs) = if x == m then xs else x ∷ remove m xs

length-remove : (m : ℕ) (xs : List ℕ) → length xs ≤ suc (length (remove m xs))
unfolding remove
length-remove m [] = omega arith
length-remove m (x ∷ xs) = ground (arith, length-remove m xs)

remove-Absent : (m y : ℕ) (xs : List ℕ) → Absent y xs → Absent y (remove m xs)
unfolding remove
remove-Absent m y [] h = tt
remove-Absent m y (x ∷ xs) h = ground (arith, remove-Absent m y xs h.1)

remove-Distinct : (m : ℕ) (xs : List ℕ) → Distinct xs → Distinct (remove m xs)
unfolding remove
remove-Distinct m [] h = tt
remove-Distinct m (x ∷ xs) h = ground (arith, remove-Distinct m xs h.1, remove-Absent m x xs h.0)

below_of_Absent :
    (m y : ℕ) (xs : List ℕ) → y ≡ m → Absent y xs → All (λ x. x < suc m) xs → All (λ x. x < m) xs
below_of_Absent m y [] e h b = tt
below_of_Absent m y (x ∷ xs) e h b = (ground arith, below_of_Absent m y xs e h.1 b.1)

remove_below :
    (m : ℕ) (xs : List ℕ) → Distinct xs → All (λ x. x < suc m) xs → All (λ x. x < m) (remove m xs)
unfolding remove
remove_below m [] d b = tt
remove_below m (x ∷ xs) d b = ground (arith, below_of_Absent m x xs, remove_below m xs d.1 b.1)

-- The pigeonhole principle.
pub length_of_Distinct : (n : ℕ) (xs : List ℕ) → Distinct xs → All (λ x. x < n) xs → length xs ≤ n
length_of_Distinct zero [] d b = omega arith
length_of_Distinct zero (x ∷ xs) d b = absurd (omega arith)
length_of_Distinct (suc n) xs d b = omega (
  arith,
  length-remove n xs,
  length_of_Distinct n (remove n xs) (remove-Distinct n xs d) (remove_below n xs d b),
)
