-- ===== src/Http/Bounds.antt =====
-- http_request_parse (src/http/http_request.c) stays inside the arrays of http_request_t.
use epoll_proxy.Kernel.{Os}
use epoll_proxy.Base.{
  ℕ, zero, suc, refl, inl, inr, List, arith, length, take, drop, Option-cases, not, ◌+◌,
}
use epoll_proxy.Http.{Request, init}
use epoll_proxy.Http.Chars.{find_crlf, find_header_end}
use epoll_proxy.Http.RequestLine.{parse_request_line}
use epoll_proxy.Http.HeaderLine.{parse_header}
use epoll_proxy.Http.Parse.{parse_headers, set_keep_alive, set_length, finish, parse_lines, parse}
use epoll_proxy.Http.Limits.{
  IsBounded, Bounded, both, SameArrays-IsBounded, parse_header-Bounded, parse_request_line-Bounded,
  Parsed,
}

module _ ⦃os : Os⦄ where
  parse_headers-Bounded :
      (fuel : ℕ) (req : Request) (region : List ℕ)
      → IsBounded req
      → Bounded (parse_headers fuel req region)
  unfolding parse_headers
  parse_headers-Bounded zero req region b = b
  parse_headers-Bounded (suc fuel) req region b = elim (Option-cases (find_crlf region)) [
    | inl e ↦ rw (e, parse_headers) b
    | inr (zero, e) ↦ rw (e, parse_headers) b
    | inr (suc i, e) ↦
        let b' = parse_header-Bounded req (take (suc i) region) b in
        rw (e, parse_headers)
          (both Bounded (parse_header req (take (suc i) region)).0 _ _
            (λ _. parse_headers-Bounded fuel _ (drop (suc i + 2) region) b') (λ _. b'))
  ]

set_keep_alive-IsBounded : (req : Request) → IsBounded req → IsBounded (set_keep_alive req)
unfolding set_keep_alive
set_keep_alive-IsBounded req b =
    SameArrays-IsBounded req _ (ground arith, ground arith, ground arith, ground arith) b

set_length-Bounded : (req : Request) (n : ℕ) → IsBounded req → Bounded (set_length req n)
unfolding set_length
set_length-Bounded req n b =
    SameArrays-IsBounded req _ (ground arith, ground arith, ground arith, ground arith) b

finish-IsBounded : (req : Request) (n : ℕ) → IsBounded req → IsBounded (finish req n).1
unfolding finish
finish-IsBounded req n b =
    let r = set_length (set_keep_alive req) n in
    let b' = set_length-Bounded (set_keep_alive req) n (set_keep_alive-IsBounded req b) in
    both Parsed r.0 _ _ (λ _. b') (λ _. b')

module _ ⦃os : Os⦄ where
  parse_lines-IsBounded :
      (req : Request) (s : List ℕ) (n : ℕ) → IsBounded req → IsBounded (parse_lines req s n).1
  unfolding parse_lines
  parse_lines-IsBounded req s n b = elim (Option-cases (find_crlf s)) [
    | inl e ↦ rw (e, parse_lines) b
    | inr (i, e) ↦
        let region = drop (i + 2) (take n s) in
        let line = parse_request_line req (take i s) in
        let b' = parse_request_line-Bounded req (take i s) b in
        let headers = parse_headers (length region) line.1 region in
        let b'' = parse_headers-Bounded (length region) line.1 region b' in
        rw (e, parse_lines)
          (both Parsed (not line.0) _ _ (λ _. b')
            (λ _.
              both Parsed (not headers.0) _ _ (λ _. b'')
                (λ _. finish-IsBounded headers.1 (length s) b'')))
  ]

pub init-IsBounded : IsBounded init
unfolding init
init-IsBounded = record {
  method_fits = omega arith;
  path_fits = omega arith;
  host_fits = omega arith;
  count_fits = omega arith;
  headers_fit = tt;
}

module _ ⦃os : Os⦄ where
  -- If the strings and the headers of a request fit into their arrays, with room for the final NULs,
  -- they still do after `http_request_parse`, on any bytes and whatever it returns.
  pub parse-IsBounded : (req : Request) (s : List ℕ) → IsBounded req → IsBounded (parse req s).1
  unfolding parse
  parse-IsBounded req s b =
      both Parsed req.is_complete _ _ (λ _. b)
        (λ _.
          let raw : Request = record req { raw_data = s } in
          let b' : (n : ℕ) → IsBounded (record raw { headers_end_offset = n }) =
            λ n. SameArrays-IsBounded req _ (refl, refl, refl, refl) b in
          elim (Option-cases (find_header_end s)) [
            | inl e ↦ rw e (SameArrays-IsBounded req _ (refl, refl, refl, refl) b)
            | inr (i, e) ↦ rw e (parse_lines-IsBounded _ s i (b' (i + 4)))
          ])
