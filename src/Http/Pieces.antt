-- ===== src/Http/Pieces.antt =====
-- http_request_parse (src/http/http_request.c) on a request that arrives in pieces, as
-- handle_read_http_client (src/proxy/proxy.c) calls it.
use epoll_proxy.Kernel.{Os}
use epoll_proxy.Base.{
  ℕ, ◌≡◌, refl, ◌∙◌, ap, List, [], ◌∷◌, ◌++◌, none, true, false, Bool-cases, Option-cases, inl, inr,
  arith,
}
use epoll_proxy.Http.{Request}
use epoll_proxy.Http.Chars.{starts_with, find_first, find_header_end}
use epoll_proxy.Http.Parse.{ParseResult, complete, need_more, malformed, parse}

starts_with-append : (pat s t : List ℕ) → starts_with pat s ≡ true → starts_with pat (s ++ t) ≡ true
unfolding starts_with
starts_with-append [] s t e = refl
starts_with-append (p ∷ pat) [] t e = ground (arith, e)
starts_with-append (p ∷ pat) (c ∷ s) t e = ground (arith, e, starts_with-append pat s t)

-- What is not in a text is not in its beginning.
find_first-append : (pat s t : List ℕ) → find_first pat (s ++ t) ≡ none → find_first pat s ≡ none
unfolding find_first
find_first-append pat [] t e = refl
find_first-append pat (c ∷ s) t e = elim (Bool-cases (starts_with pat (c ∷ s))) [
  | inl h ↦ ground (arith, e, h, starts_with-append pat (c ∷ s) t h)
  | inr h ↦ elim (Option-cases (find_first pat (s ++ t))) [
    | inl e' ↦ ground (arith, e', h, find_first-append pat s t e')
    | inr (j, e') ↦ elim (Bool-cases (starts_with pat (c ∷ (s ++ t)))) [
      | inl h' ↦ ground (arith, e, e', h')
      | inr h' ↦ ground (arith, e, e', h')
    ]
  ]
]

find_header_end-append : (s t : List ℕ) → find_header_end (s ++ t) ≡ none → find_header_end s ≡ none
unfolding find_header_end
find_header_end-append s t e = find_first-append _ s t e

abbrev unless_done :
    (Request → ParseResult × Request) → ParseResult × Request → ParseResult × Request
unless_done rest (need_more, req) = rest req
unless_done rest (complete, req) = (complete, req)
unless_done rest (malformed, req) = (malformed, req)

module _ ⦃os : Os⦄ where
  -- The parser is called on all that has arrived, first on `text`, and again after each piece as long
  -- as it asks for more.
  pub parse_pieces : Request → List ℕ → List (List ℕ) → ParseResult × Request
  parse_pieces req text [] = parse req text
  parse_pieces req text (piece ∷ pieces) =
      unless_done (λ req'. parse_pieces req' (text ++ piece) pieces) (parse req text)

-- All that arrives before the last piece.
abbrev pub joined : List ℕ → List (List ℕ) → List ℕ
joined text [] = text
joined text (piece ∷ pieces) = joined (text ++ piece) pieces

find_header_end-joined :
    (text : List ℕ) (pieces : List (List ℕ))
    → find_header_end (joined text pieces) ≡ none
    → find_header_end text ≡ none
find_header_end-joined text [] e = e
find_header_end-joined text (piece ∷ pieces) e =
    find_header_end-append text piece (find_header_end-joined (text ++ piece) pieces e)

module _ ⦃os : Os⦄ where
  -- A call that does not find the end of the headers asks for more and leaves no trace.
  parse-again :
      (req : Request) (text whole : List ℕ)
      → req.is_complete ≡ false
      → find_header_end text ≡ none
      → (parse req text ≡ (need_more, record req { raw_data = text }))
        × (parse (record req { raw_data = text }) whole ≡ parse req whole)
  unfolding parse
  parse-again req text whole open_request e =
      (ground (arith, open_request, e), ground (arith, open_request))

  -- If the end of the headers comes with the last piece, the parser returns the same, and leaves the
  -- same request, as if everything had arrived at once, wherever the pieces are cut.
  pub parse_pieces_lem :
      (req : Request) (text last : List ℕ) (pieces : List (List ℕ))
      → req.is_complete ≡ false
      → find_header_end (joined text pieces) ≡ none
      → parse_pieces req text (pieces ++ (last ∷ [])) ≡ parse req (joined text pieces ++ last)
  unfolding parse_pieces
  parse_pieces_lem req text last [] open_request e =
      let (more, same) = parse-again req text (text ++ last) open_request e in
      ap (unless_done (λ req'. parse_pieces req' (text ++ last) [])) more ∙ same
  parse_pieces_lem req text last (piece ∷ pieces) open_request e =
      let whole = joined (text ++ piece) pieces ++ last in
      let (more, same) =
        parse-again req text whole open_request (find_header_end-joined text (piece ∷ pieces) e) in
      ap (unless_done (λ req'. parse_pieces req' (text ++ piece) (pieces ++ (last ∷ [])))) more
      ∙ (parse_pieces_lem (record req { raw_data = text }) (text ++ piece) last pieces open_request
            e
          ∙ same)
