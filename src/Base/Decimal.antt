-- ===== src/Base/Decimal.antt =====
-- Decimal numbers as bytes: what `printf` writes and what `strtol` and `atoll` read.
use Prim.Native.Nat.{ℕ, zero, suc, ◌+◌, ◌-◌, ◌*◌, ◌/◌, ◌%◌, ◌^◌, ◌<◌, min}
use mathlib.Core.Path.{◌≡◌, refl}
use mathlib.Core.Bool.{Bool, true, false, ◌&&◌, ◌||◌}
use mathlib.Core.List.{List, [], ◌∷◌, ◌++◌}
use native.Mathlib.Omega.{arith}
use epoll_proxy.Base.Tests.{ltb, leb, ◌==◌, if◌then◌else◌, Bool-cases}
use epoll_proxy.Base.Int.{ℤ, pos, sub_ℕ}
use mathlib.Core.Logic.{◌≢◌, inl, inr}

-- `%zu` and `%d`; twenty digits hold every size_t.
unfoldable pub decimal : ℕ → ℕ → List ℕ
decimal zero n = []
decimal (suc fuel) n =
    let more = decimal fuel (n / 10) in
    if ltb n 10 then (b'0' + n) ∷ [] else more ++ (b'0' + n % 10) ∷ []

abbrev pub is_digit : ℕ → Bool
is_digit c = leb b'0' c && leb c b'9'

abbrev pub is_space : ℕ → Bool
is_space c = c == b' ' || leb 9 c && leb c 13

unfoldable pub skip_spaces : List ℕ → List ℕ
skip_spaces [] = []
skip_spaces (c ∷ s) = if is_space c then skip_spaces s else c ∷ s

-- The number that the leading digits stand for, behind `acc`, and what follows them.
unfoldable pub digits : ℕ → List ℕ → ℕ × List ℕ
digits acc [] = (acc, [])
digits acc (c ∷ s) =
    let rest = digits (acc * 10 + (c - b'0')) s in if is_digit c then rest else (acc, c ∷ s)

-- An optional sign: whether it is a minus, and what follows.
unfoldable pub sign : List ℕ → Bool × List ℕ
sign [] = (false, [])
sign (c ∷ s) = if c == b'-' then (true, s) else if c == b'+' then (false, s) else (false, c ∷ s)

abbrev pub starts_with_digit : List ℕ → Bool
starts_with_digit [] = false
starts_with_digit (c ∷ s) = is_digit c

-- A `long` of 64 bits: out of range, the nearest one.
abbrev pub saturate : Bool → ℕ → ℤ
saturate true n = sub_ℕ 0 (min n (2 ^ 63))
saturate false n = pos (min n (2 ^ 63 - 1))

-- `strtol(s, &end, 10)`: the value, and the text at `end`, which is all of it without a digit.
unfoldable pub strtol : List ℕ → ℤ × List ℕ
strtol s =
    let (negative, t) = sign (skip_spaces s) in
    let (n, rest) = digits 0 t in
    if starts_with_digit t then (saturate negative n, rest) else (pos 0, s)

-- Whether the number fits into a `long`.
unfoldable pub fits_long : List ℕ → Bool
fits_long s =
    let (negative, t) = sign (skip_spaces s) in
    let (n, rest) = digits 0 t in leb n (if negative then 2 ^ 63 else 2 ^ 63 - 1)

-- `10 ^ fuel`
abbrev room : ℕ → ℕ
room zero = 1
room (suc fuel) = 10 * room fuel

digits-append :
    (acc c v : ℕ) (xs : List ℕ)
    → is_digit c ≡ true
    → digits acc xs ≡ (v, [])
    → digits acc (xs ++ c ∷ []) ≡ (v * 10 + (c - b'0'), [])
unfolding digits
digits-append acc c v [] h e = ground arith
digits-append acc c v (x ∷ xs) h e = ground (arith, digits-append (acc * 10 + (x - b'0')) c v xs h)

digits-decimal : (fuel n : ℕ) → n < room fuel → digits 0 (decimal fuel n) ≡ (n, [])
unfolding decimal digits
digits-decimal zero n h = ground arith
digits-decimal (suc fuel) n h = elim (Bool-cases (ltb n 10)) [
  | inl e ↦ ground arith
  | inr e ↦
      rw (e, decimal)
        (ground (
          arith,
          digits-append 0 (b'0' + n % 10) (n / 10) (decimal fuel (n / 10)),
          digits-decimal fuel (n / 10) (omega arith),
        ))
]

-- A printed number begins with a digit.
starts-append :
    (xs : List ℕ) (c : ℕ) → starts_with_digit xs ≡ true → starts_with_digit (xs ++ c ∷ []) ≡ true
starts-append [] c h = cc
starts-append (x ∷ xs) c h = h

starts-decimal : (fuel n : ℕ) → n < room fuel → fuel ≢ 0 → starts_with_digit (decimal fuel n) ≡ true
unfolding decimal
starts-decimal zero n h k = absurd (k refl)
starts-decimal (suc zero) n h k = ground arith
starts-decimal (suc (suc fuel)) n h k = elim (Bool-cases (ltb n 10)) [
  | inl e ↦ ground arith
  | inr e ↦
      rw (e, decimal)
        (starts-append (decimal (suc fuel) (n / 10)) _
          (starts-decimal (suc fuel) (n / 10) (omega arith) (λ z. omega arith)))
]

strtol-digits :
    (s : List ℕ) (n : ℕ)
    → starts_with_digit s ≡ true
    → digits 0 s ≡ (n, [])
    → n < 2 ^ 63
    → strtol s ≡ (pos n, [])
unfolding strtol skip_spaces sign
strtol-digits [] n h e b = ground arith
strtol-digits (c ∷ s) n h e b = ground arith

-- What is printed is read back.
pub strtol-decimal : (n : ℕ) → n < 2 ^ 63 → strtol (decimal 20 n) ≡ (pos n, [])
strtol-decimal n h =
    strtol-digits (decimal 20 n) n (starts-decimal 20 n (omega arith) (λ z. omega arith))
      (digits-decimal 20 n (omega arith)) h
