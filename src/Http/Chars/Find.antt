-- ===== src/Http/Chars/Find.antt =====
-- find_crlf and find_header_end (src/http/http_request.c) find the first occurrence.
use epoll_proxy.Base.{
  ℕ, zero, suc, ◌+◌, ◌≤◌, ◌<◌, List, [], ◌∷◌, none, some, true, false, take, drop, ◌≡◌, ◌↔◌, arith,
  length, Bool-cases, Option-cases, inl, inr,
}
use epoll_proxy.Http.Chars.{starts_with, find_first, before}

pub starts_with_iff : (pat s : List ℕ) → (starts_with pat s ≡ true) ↔ (take (length pat) s ≡ pat)
unfolding starts_with
starts_with_iff [] s = ground arith
starts_with_iff (p ∷ pat) [] = ground arith
starts_with_iff (p ∷ pat) (c ∷ s) = ground (arith, starts_with_iff pat s)

length_of_starts_with : (pat s : List ℕ) → starts_with pat s ≡ true → length pat ≤ length s
unfolding starts_with
length_of_starts_with [] s h = omega arith
length_of_starts_with (p ∷ pat) [] h = ground arith
length_of_starts_with (p ∷ pat) (c ∷ s) h = ground (arith, length_of_starts_with pat s)

-- What is found lies inside the text.
pub find_first-le : (pat s : List ℕ) (i : ℕ) → find_first pat s ≡ some i → i + length pat ≤ length s
unfolding find_first
find_first-le pat [] i e = ground arith
find_first-le pat (c ∷ s) i e = elim (Bool-cases (starts_with pat (c ∷ s))) [
  | inl h ↦ ground (arith, length_of_starts_with pat (c ∷ s) h)
  | inr h ↦ elim (Option-cases (find_first pat s)) [
    | inl e' ↦ ground arith
    | inr (j, e') ↦ ground (arith, find_first-le pat s j e')
  ]
]

-- The pattern stands at the place where `find_first` finds it, and at no earlier one.
pub find_first-some :
    (pat s : List ℕ) (i : ℕ)
    → find_first pat s ≡ some i
    → (starts_with pat (drop i s) ≡ true) × ((j : ℕ) → j < i → starts_with pat (drop j s) ≡ false)
unfolding find_first
find_first-some pat [] i e = ground arith
find_first-some pat (c ∷ s) zero e = (ground arith, λ j h. absurd (omega arith))
find_first-some pat (c ∷ s) (suc i) e =
    let (here, earlier) = find_first-some pat s i (ground arith) in
    (here, elim [ zero ↦ λ h. ground arith | suc j ↦ λ h. earlier j (omega arith) ])

-- If `find_first` does not find the pattern, it stands at no place of the text.
pub find_first-none :
    (pat s : List ℕ)
    → find_first pat s ≡ none
    → (j : ℕ) → j < length s
    → starts_with pat (drop j s) ≡ false
unfolding find_first
find_first-none pat [] e j h = absurd (omega arith)
find_first-none pat (c ∷ s) e zero h = ground arith
find_first-none pat (c ∷ s) e (suc j) h = find_first-none pat s (ground arith) j (omega arith)

-- `find_first` is the first occurrence: the pattern stands at the place that it returns and at no
-- earlier one, and if it returns none, the pattern stands at no place of the text.
pub find_first_lem :
    (pat s : List ℕ)
    → ((i : ℕ)
        → find_first pat s ≡ some i
        → (starts_with pat (drop i s) ≡ true)
          × ((j : ℕ) → j < i → starts_with pat (drop j s) ≡ false))
      × (find_first pat s ≡ none → (j : ℕ) → j < length s → starts_with pat (drop j s) ≡ false)
find_first_lem pat s = (find_first-some pat s, find_first-none pat s)

pub length-before : (stop : ℕ) (s : List ℕ) → length (before stop s) ≤ length s
unfolding before
length-before stop [] = omega arith
length-before stop (c ∷ s) = ground (arith, length-before stop s)
