-- ===== src/Http/Chars.antt =====
-- The helper functions of src/http/http_request.c on characters. A pointer with an end is the list
-- of the bytes between them; a C string is a list, whose end stands for the NUL.
pub mod Compare
pub mod Find
use epoll_proxy.Base.{
  ℕ, zero, suc, ◌+◌, List, [], ◌∷◌, Option, none, some, Bool, true, false, not, ◌&&◌, ◌||◌, ◌==◌,
  leb, if◌then◌else◌,
}
use epoll_proxy.Base.Int.{ℤ, pos, sub_ℕ}
use mathlib.Core.Option

abbrev pub cr : ℕ
cr = b'\r'

abbrev pub lf : ℕ
lf = b'\n'

-- `tolower` in the C locale, which the program does not change.
unfoldable pub tolower : ℕ → ℕ
tolower c = if leb b'A' c && leb c b'Z' then c + 32 else c

-- The difference of two characters, compared without case.
abbrev pub difference : ℕ → ℕ → ℤ
difference a b = sub_ℕ (tolower a) (tolower b)

unfoldable pub strcasecmp : List ℕ → List ℕ → ℤ
strcasecmp [] [] = difference 0 0
strcasecmp [] (b ∷ t) = difference 0 b
strcasecmp (a ∷ s) [] = difference a 0
strcasecmp (a ∷ s) (b ∷ t) =
    if a == 0 || b == 0 || not (tolower a == tolower b) then difference a b else strcasecmp s t

unfoldable pub strncasecmp : List ℕ → List ℕ → ℕ → ℤ
strncasecmp s t zero = pos 0
strncasecmp [] [] (suc n) = difference 0 0
strncasecmp [] (b ∷ t) (suc n) = difference 0 b
strncasecmp (a ∷ s) [] (suc n) = difference a 0
strncasecmp (a ∷ s) (b ∷ t) (suc n) =
    if a == 0 || b == 0 || not (tolower a == tolower b) then difference a b else strncasecmp s t n

-- `… == 0`
abbrev pub is_zero : ℤ → Bool
is_zero (pos n) = n == 0
is_zero (ℤ.negsuc n) = false

abbrev pub is_blank : ℕ → Bool
is_blank c = c == b' ' || c == b'\t'

unfoldable pub skip_whitespace : List ℕ → List ℕ
skip_whitespace [] = []
skip_whitespace (c ∷ s) = if is_blank c then skip_whitespace s else c ∷ s

-- Whether the bytes at a position begin with a pattern.
unfoldable pub starts_with : List ℕ → List ℕ → Bool
starts_with [] s = true
starts_with (p ∷ pat) [] = false
starts_with (p ∷ pat) (c ∷ s) = p == c && starts_with pat s

-- The loop of `find_crlf` and of `find_header_end`: the first offset at which the pattern stands.
unfoldable pub find_first : List ℕ → List ℕ → Option ℕ
find_first pat [] = none
find_first pat (c ∷ s) =
    if starts_with pat (c ∷ s) then some 0 else Option.map suc (find_first pat s)

abbrev pub crlf : List ℕ
crlf = cr ∷ lf ∷ []

abbrev pub crlf_crlf : List ℕ
crlf_crlf = cr ∷ lf ∷ cr ∷ lf ∷ []

unfoldable pub find_crlf : List ℕ → Option ℕ
find_crlf = find_first crlf

unfoldable pub find_header_end : List ℕ → Option ℕ
find_header_end = find_first crlf_crlf

-- `while (p < end && *p != stop) p++`: the bytes passed over.
unfoldable pub before : ℕ → List ℕ → List ℕ
before stop [] = []
before stop (c ∷ s) = if c == stop then [] else c ∷ before stop s

-- What is left at `p` then; empty if `p` reached the end.
unfoldable pub from : ℕ → List ℕ → List ℕ
from stop [] = []
from stop (c ∷ s) = if c == stop then c ∷ s else from stop s
