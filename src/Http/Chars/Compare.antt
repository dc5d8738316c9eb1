-- ===== src/Http/Chars/Compare.antt =====
-- The case-insensitive comparisons of src/http/http_request.c decide equality of lower-case texts.
use epoll_proxy.Base.{ℕ, zero, suc, List, [], ◌∷◌, true, take, ◌≡◌, ◌↔◌, refl, map, arith, length}
use epoll_proxy.Http.Chars.{tolower, difference, strcasecmp, strncasecmp, is_zero, before}

abbrev pub lower : List ℕ → List ℕ
lower = map tolower

-- The lower-case text of a C string, which ends at its first NUL.
abbrev pub text : List ℕ → List ℕ
text s = lower (before 0 s)

pub difference_iff : (a b : ℕ) → (is_zero (difference a b) ≡ true) ↔ (tolower a ≡ tolower b)
difference_iff a b = ground arith

pub tolower_zero : (a : ℕ) → (tolower a ≡ 0) ↔ (a ≡ 0)
unfolding tolower
tolower_zero a = ground arith

-- Two C strings compare equal exactly when their texts are the same in lower case.
pub strcasecmp_iff : (s t : List ℕ) → (is_zero (strcasecmp s t) ≡ true) ↔ (text s ≡ text t)
unfolding strcasecmp before
strcasecmp_iff [] [] = ground (arith, difference_iff 0 0)
strcasecmp_iff [] (b ∷ t) = ground (arith, difference_iff 0 b, tolower_zero b, tolower_zero 0)
strcasecmp_iff (a ∷ s) [] = ground (arith, difference_iff a 0, tolower_zero a, tolower_zero 0)
strcasecmp_iff (a ∷ s) (b ∷ t) =
    ground (arith, difference_iff a b, tolower_zero a, tolower_zero b, strcasecmp_iff s t)

-- With the limit `n`, two C strings compare equal exactly when the first `n` characters of their
-- texts are the same in lower case.
pub strncasecmp_iff :
    (s t : List ℕ) (n : ℕ)
    → (is_zero (strncasecmp s t n) ≡ true) ↔ (take n (text s) ≡ take n (text t))
unfolding strncasecmp before
strncasecmp_iff s t zero = ground arith
strncasecmp_iff [] [] (suc n) = ground (arith, difference_iff 0 0)
strncasecmp_iff [] (b ∷ t) (suc n) =
    ground (arith, difference_iff 0 b, tolower_zero b, tolower_zero 0)
strncasecmp_iff (a ∷ s) [] (suc n) =
    ground (arith, difference_iff a 0, tolower_zero a, tolower_zero 0)
strncasecmp_iff (a ∷ s) (b ∷ t) (suc n) =
    ground (arith, difference_iff a b, tolower_zero a, tolower_zero b, strncasecmp_iff s t n)

-- The comparison does not see case.
pub strncasecmp-lower :
    (s s' t : List ℕ) (n : ℕ) → lower s ≡ lower s' → strncasecmp s t n ≡ strncasecmp s' t n
unfolding strncasecmp
strncasecmp-lower s s' t zero e = ground arith
strncasecmp-lower [] [] t (suc n) e = refl
strncasecmp-lower [] (a' ∷ s') t (suc n) e = ground arith
strncasecmp-lower (a ∷ s) [] t (suc n) e = ground arith
strncasecmp-lower (a ∷ s) (a' ∷ s') [] (suc n) e = ground arith
strncasecmp-lower (a ∷ s) (a' ∷ s') (b ∷ t) (suc n) e =
    ground (arith, tolower_zero a, tolower_zero a', strncasecmp-lower s s' t n)

pub length-lower : (s t : List ℕ) → lower s ≡ lower t → length s ≡ length t
length-lower [] [] e = refl
length-lower [] (b ∷ t) e = ground arith
length-lower (a ∷ s) [] e = ground arith
length-lower (a ∷ s) (b ∷ t) e = ground (arith, length-lower s t)

-- Against a text of the same length with no NUL in it, the limit at that length sees all of both.
pub strncasecmp_full :
    (s t : List ℕ)
    → length s ≡ length t
    → before 0 t ≡ t
    → is_zero (strncasecmp s t (length t)) ≡ true
    → lower s ≡ lower t
unfolding strncasecmp before
strncasecmp_full [] [] h c e = refl
strncasecmp_full [] (b ∷ t) h c e = absurd (omega arith)
strncasecmp_full (a ∷ s) [] h c e = absurd (omega arith)
strncasecmp_full (a ∷ s) (b ∷ t) h c e =
    ground (arith, difference_iff a b, tolower_zero a, tolower_zero b, strncasecmp_full s t)
