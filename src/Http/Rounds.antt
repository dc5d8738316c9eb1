-- ===== src/Http/Rounds.antt =====
-- The rounds of the header loop of http_request_parse (src/http/http_request.c).
use epoll_proxy.Kernel.{Os}
use epoll_proxy.Base.{
  ℕ, zero, suc, ◌+◌, ◌≤◌, ◌≡◌, List, [], ◌∷◌, refl, true, length, take, drop, arith, length-drop,
  Option-cases, inl, inr, ◌∙◌, sym,
}
use epoll_proxy.Http.{Request}
use epoll_proxy.Http.Chars.{find_crlf, find_first}
use epoll_proxy.Http.HeaderLine.{parse_header}
use epoll_proxy.Http.Parse.{parse_headers}

module _ ⦃os : Os⦄ where
  parse_headers-nil : (fuel : ℕ) (req : Request) → parse_headers fuel req [] ≡ (true, req)
  unfolding parse_headers find_crlf find_first
  parse_headers-nil zero req = refl
  parse_headers-nil (suc fuel) req = refl

  same_result :
      (fuel fuel' : ℕ) (req : Request) (region : List ℕ)
      → length region ≤ fuel
      → length region ≤ fuel'
      → parse_headers fuel req region ≡ parse_headers fuel' req region
  unfolding parse_headers
  same_result fuel fuel' req [] h k = parse_headers-nil fuel req ∙ sym (parse_headers-nil fuel' req)
  same_result zero fuel' req (c ∷ s) h k = absurd (omega arith)
  same_result (suc fuel) zero req (c ∷ s) h k = absurd (omega arith)
  same_result (suc fuel) (suc fuel') req (c ∷ s) h k = elim (Option-cases (find_crlf (c ∷ s))) [
    | inl e ↦ ground (arith, e)
    | inr (zero, e) ↦ ground (arith, e)
    | inr (suc i, e) ↦
        let req' = (parse_header req (take (suc i) (c ∷ s))).1 in
        let rest = drop (suc i + 2) (c ∷ s) in
        let shorter = length-drop (suc i + 2) (c ∷ s) in
        ground (
          arith,
          e,
          same_result fuel fuel' req' rest (omega (arith, shorter)) (omega (arith, shorter)),
        )
  ]

  -- The header loop on any bytes ends within as many rounds as there are bytes: with any fuel from
  -- their number on, the model of the loop gives the same result.
  pub parse_headers-rounds :
      (fuel : ℕ) (req : Request) (region : List ℕ)
      → length region ≤ fuel
      → parse_headers fuel req region ≡ parse_headers (length region) req region
  parse_headers-rounds fuel req region h =
      same_result fuel (length region) req region h (omega arith)
