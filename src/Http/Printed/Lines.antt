-- ===== src/Http/Printed/Lines.antt =====
-- find_crlf and find_header_end (src/http/http_request.c) on lines.
use epoll_proxy.Base.{
  ℕ, suc, ◌+◌, List, [], ◌∷◌, ◌++◌, ◌≡◌, refl, none, some, false, length, drop, arith, ap, ◌∙◌,
}
use epoll_proxy.Http.Chars.{
  cr, lf, crlf, crlf_crlf, starts_with, find_first, find_crlf, find_header_end, before, from,
}
use epoll_proxy.Http.Printed.{Lacks}

pub Lacks-append : (b : ℕ) (s t : List ℕ) → Lacks b s → Lacks b t → Lacks b (s ++ t)
unfolding Lacks
Lacks-append b [] t h k = k
Lacks-append b (c ∷ s) t h k = (h.0, Lacks-append b s t h.1 k)

-- A pattern that begins with a byte is not found before it.
find_first-skip :
    (p line rest : List ℕ) (j : ℕ)
    → Lacks cr line
    → find_first (cr ∷ p) rest ≡ some j
    → find_first (cr ∷ p) (line ++ rest) ≡ some (length line + j)
unfolding Lacks find_first starts_with
find_first-skip p [] rest j h e = ground (arith, e)
find_first-skip p (c ∷ line) rest j h e = ground (arith, find_first-skip p line rest j h.1 e, h.0)

pub find_crlf-none : (line : List ℕ) → Lacks cr line → find_crlf line ≡ none
unfolding Lacks find_first starts_with find_crlf
find_crlf-none [] h = refl
find_crlf-none (c ∷ line) h = ground (arith, find_crlf-none line h.1, h.0)

pub find_crlf-line :
    (line rest : List ℕ) → Lacks cr line → find_crlf (line ++ (cr ∷ lf ∷ rest)) ≡ some (length line)
unfolding find_crlf find_first starts_with
find_crlf-line line rest h =
    ground (arith, find_first-skip (lf ∷ []) line (cr ∷ lf ∷ rest) 0 h refl)

pub find_header_end-here :
    (line rest : List ℕ)
    → Lacks cr line
    → find_header_end (line ++ (crlf_crlf ++ rest)) ≡ some (length line)
unfolding find_header_end find_first starts_with
find_header_end-here line rest h =
    ground (arith, find_first-skip (lf ∷ cr ∷ lf ∷ []) line (crlf_crlf ++ rest) 0 h refl)

-- An end of line that no other follows is passed over.
pub find_header_end-later :
    (line rest : List ℕ) (j : ℕ)
    → Lacks cr line
    → starts_with crlf rest ≡ false
    → find_header_end rest ≡ some j
    → find_header_end (line ++ (cr ∷ lf ∷ rest)) ≡ some (length line + (2 + j))
unfolding find_header_end find_first starts_with
find_header_end-later line rest j h k e =
    find_first-skip (lf ∷ cr ∷ lf ∷ []) line (cr ∷ lf ∷ rest) (2 + j) h pass
  where
    pass : find_first crlf_crlf (cr ∷ lf ∷ rest) ≡ some (2 + j)
    pass = ground (arith, k, e)

pub before-append :
    (stop : ℕ) (s rest : List ℕ) → Lacks stop s → before stop (s ++ (stop ∷ rest)) ≡ s
unfolding Lacks before
before-append stop [] rest h = ground arith
before-append stop (c ∷ s) rest h = ground (arith, before-append stop s rest h.1, h.0)

pub from-append :
    (stop : ℕ) (s rest : List ℕ) → Lacks stop s → from stop (s ++ (stop ∷ rest)) ≡ stop ∷ rest
unfolding Lacks from
from-append stop [] rest h = ground arith
from-append stop (c ∷ s) rest h = ground (arith, from-append stop s rest h.1, h.0)

pub drop-line : (line rest : List ℕ) → drop (length line + 2) (line ++ (cr ∷ lf ∷ rest)) ≡ rest
drop-line [] rest = refl
drop-line (c ∷ line) rest =
    ap (λ k. drop k (c ∷ (line ++ (cr ∷ lf ∷ rest))))
      (let e : length (c ∷ line) + 2 ≡ suc (length line + 2) = omega arith in e)
    ∙ drop-line line rest
