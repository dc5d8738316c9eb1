-- ===== src/Base/Arrays.antt =====
-- C arrays as lists: reading a range, and writing one with `memcpy`.
use Prim.Native.Nat.{ℕ, zero, suc, ◌+◌, ◌≤◌}
use mathlib.Core.Path.{◌≡◌, refl, ap, ◌∙◌}
use mathlib.Core.List.{List, [], ◌∷◌, ◌++◌}
use native.Mathlib.Omega.{arith}
use epoll_proxy.Base.Lists.{
  length, take, drop, length-append, length-take, length-drop, take-add, drop-drop,
  take-append_left,
}

module _ {ℓ} {A : Type ℓ} where
  -- The `n` elements from index `from` on.
  unfoldable pub slice : ℕ → ℕ → List A → List A
  slice from n xs = take n (drop from xs)

  -- `memcpy(dst + at, src, length src)`. A copy past the end makes the array longer, so that an
  -- array that keeps its length has had no write out of bounds.
  unfoldable pub blit : List A → ℕ → List A → List A
  blit dst at src = take at dst ++ (src ++ drop (at + length src) dst)

  pub length-slice :
      (from n : ℕ) (xs : List A) → from + n ≤ length xs → length (slice from n xs) ≡ n
  unfolding slice
  length-slice from n xs h = omega (arith, length-take n (drop from xs), length-drop from xs)

  -- A copy inside the array keeps its length.
  pub length-blit :
      (dst : List A) (at : ℕ) (src : List A)
      → at + length src ≤ length dst
      → length (blit dst at src) ≡ length dst
  unfolding blit
  length-blit dst at src h = omega (
    arith,
    length-append (take at dst) (src ++ drop (at + length src) dst),
    length-append src (drop (at + length src) dst),
    length-take at dst,
    length-drop (at + length src) dst,
  )

  take-append_right :
      (m n : ℕ) (xs ys : List A) → length xs ≡ m → take (m + n) (xs ++ ys) ≡ xs ++ take n ys
  take-append_right m n [] ys h = ap (λ k. take k ys) (omega arith)
  take-append_right zero n (x ∷ xs) ys h = absurd (omega arith)
  take-append_right (suc m) n (x ∷ xs) ys h =
      ap (λ k. take k (x ∷ (xs ++ ys))) (let e : suc m + n ≡ suc (m + n) = omega arith in e)
      ∙ ap (◌∷◌ x) (take-append_right m n xs ys (omega arith))

  drop-take-append :
      (from m k : ℕ) (dst ys : List A)
      → k ≡ from + m
      → k ≤ length dst
      → drop from (take k dst ++ ys) ≡ take m (drop from dst) ++ ys
  drop-take-append zero m k dst ys e h = ap (λ i. take i dst ++ ys) (omega arith)
  drop-take-append (suc from) m zero dst ys e h = absurd (omega arith)
  drop-take-append (suc from) m (suc k) [] ys e h = absurd (omega arith)
  drop-take-append (suc from) m (suc k) (x ∷ dst) ys e h =
      drop-take-append from m k dst ys (omega arith) (omega arith)

  -- A copy just past a range extends the range by what was copied.
  pub slice-blit_after :
      (dst : List A) (from m at : ℕ) (src : List A)
      → at ≡ from + m
      → at ≤ length dst
      → slice from (m + length src) (blit dst at src) ≡ slice from m dst ++ src
  unfolding slice blit
  slice-blit_after dst from m at src e h =
      rw (drop-take-append from m at dst (src ++ drop (at + length src) dst) e h) (
        take-append_right m (length src) (take m (drop from dst)) _
          (omega (arith, length-take m (drop from dst), length-drop from dst))
        ∙ ap (◌++◌ (take m (drop from dst))) (take-append_left src _))

  -- A copy to the front is read back from there.
  pub slice-blit_front : (dst src : List A) → slice 0 (length src) (blit dst 0 src) ≡ src
  unfolding slice blit
  slice-blit_front dst src = take-append_left src _

  -- A range is read in two parts.
  pub slice-add :
      (from m n : ℕ) (xs : List A)
      → slice from (m + n) xs ≡ slice from m xs ++ slice (from + m) n xs
  unfolding slice
  slice-add from m n xs = rw (take-add m n (drop from xs), drop-drop from m xs)

  pub slice-zero : (from : ℕ) (xs : List A) → slice from 0 xs ≡ []
  unfolding slice
  slice-zero from xs = refl

  pub slice-front : (n : ℕ) (xs : List A) → slice 0 n xs ≡ take n xs
  unfolding slice
  slice-front n xs = refl

  pub take-slice : (k from n : ℕ) (xs : List A) → k ≤ n → take k (slice from n xs) ≡ slice from k xs
  unfolding slice
  take-slice k from n xs h = take-take k n (drop from xs) h
    where
      take-take : (k n : ℕ) (ys : List A) → k ≤ n → take k (take n ys) ≡ take k ys
      take-take zero n ys h = refl
      take-take (suc k) zero ys h = absurd (omega arith)
      take-take (suc k) (suc n) [] h = refl
      take-take (suc k) (suc n) (y ∷ ys) h = ap (◌∷◌ y) (take-take k n ys (omega arith))
