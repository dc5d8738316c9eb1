-- ===== src/Http/Printed/Headers.antt =====
-- The header loop of http_request_parse (src/http/http_request.c) on printed headers.
use epoll_proxy.Kernel.{Os}
use epoll_proxy.Base.{
  ℕ, zero, suc, ◌+◌, ◌-◌, ◌≤◌, ◌<◌, List, [], ◌∷◌, ◌++◌, ◌≡◌, refl, sym, ◌∙◌, ap, Bool, true, some,
  length, take, drop, arith, take-append_left, length-append, append-nil, append_assoc, subst, none,
}
use epoll_proxy.Http.{Header, Request, max_headers}
use epoll_proxy.Http.Chars.{cr, lf, find_crlf, skip_whitespace}
use epoll_proxy.Http.RequestLine.{space}
use epoll_proxy.Http.HeaderLine.{colon, cache_header, parse_header}
use epoll_proxy.Http.Parse.{parse_headers}
use epoll_proxy.Http.Printed.{Lacks, header_line, header_block, IsField, AreFields}
use epoll_proxy.Http.Printed.Lines.{
  Lacks-append, find_crlf-none, find_crlf-line, before-append, from-append, drop-line,
}

-- What the header lines leave of a request.
pub record SameLine (req req' : Request) : Type 0 where
  pub method : req'.method ≡ req.method
  pub method_str : req'.method_str ≡ req.method_str
  pub path : req'.path ≡ req.path
  pub version : req'.version ≡ req.version
  pub offset : req'.headers_end_offset ≡ req.headers_end_offset

-- The headers were read, and nothing else of note happened.
pub record Reads (req : Request) (hs : List Header) (r : Bool × Request) : Type 0 where
  pub accepted : r.0 ≡ true
  pub headers : r.1.headers ≡ req.headers ++ hs
  pub same : SameLine req r.1

module _ ⦃os : Os⦄ where
  cache_header-SameLine :
      (req : Request) (name value : List ℕ) → SameLine req (cache_header req name value)
  unfolding cache_header
  cache_header-SameLine req name value = record {
    method = ground arith;
    method_str = ground arith;
    path = ground arith;
    version = ground arith;
    offset = ground arith;
  }

  headers-cache_header :
      (req : Request) (name value : List ℕ) → (cache_header req name value).headers ≡ req.headers
  unfolding cache_header
  headers-cache_header req name value = ground arith

  parse_header-line :
      (req : Request) (h : Header)
      → IsField h
      → length req.headers < max_headers
      → parse_header req (header_line h)
        ≡ (true, cache_header (record req { headers = req.headers ++ h ∷ [] }) h.name h.value)
  unfolding parse_header skip_whitespace
  parse_header-line req h f room =
      let v = space ∷ h.value in
      ground (
        arith,
        before-append colon h.name v f.name_colon,
        from-append colon h.name v f.name_colon,
        f.name_trim,
        f.value_trim,
        f.name_fits,
        f.value_fits,
      )

  parse_header-Reads :
      (req : Request) (h : Header)
      → IsField h
      → length req.headers < max_headers
      → Reads req (h ∷ []) (parse_header req (header_line h))
  parse_header-Reads req h f room =
      let added : Request = record req { headers = req.headers ++ h ∷ [] } in
      let same = cache_header-SameLine added h.name h.value in
      rw (parse_header-line req h f room) (record {
        accepted = refl;
        headers = headers-cache_header added h.name h.value;
        same = record {
          method = same.method;
          method_str = same.method_str;
          path = same.path;
          version = same.version;
          offset = same.offset;
        };
      })

pub header_line-Lacks : (h : Header) → IsField h → Lacks cr (header_line h)
unfolding Lacks
header_line-Lacks h f =
    Lacks-append cr h.name _ f.name_line ((λ e. ground arith), ((λ e. ground arith), f.value_line))

module _ ⦃os : Os⦄ where
  parse_headers-found :
      (fuel : ℕ) (req : Request) (region : List ℕ) (i : ℕ)
      → find_crlf region ≡ some (suc i)
      → (parse_header req (take (suc i) region)).0 ≡ true
      → parse_headers (suc fuel) req region
        ≡ parse_headers fuel (parse_header req (take (suc i) region)).1 (drop (suc i + 2) region)
  unfolding parse_headers
  parse_headers-found fuel req region i e accepted = ground (arith, e, accepted)

  parse_headers-end :
      (fuel : ℕ) (req : Request) (region : List ℕ)
      → find_crlf region ≡ none
      → parse_headers (suc fuel) req region ≡ (true, req)
  unfolding parse_headers
  parse_headers-end fuel req region e = ground (arith, e)

  -- A line of the block, the rest of which is `rest`.
  parse_headers-step :
      (fuel : ℕ) (req : Request) (h : Header) (rest : List ℕ)
      → IsField h
      → length req.headers < max_headers
      → parse_headers (suc fuel) req (header_line h ++ (cr ∷ lf ∷ rest))
        ≡ parse_headers fuel (parse_header req (header_line h)).1 rest
  parse_headers-step fuel req h rest f room =
      let line = header_line h in
      let n = length line - 1 in
      let e : length line ≡ suc n = omega (arith, length-append h.name (colon ∷ space ∷ h.value)) in
      let found : find_crlf (line ++ (cr ∷ lf ∷ rest)) ≡ some (suc n) =
        find_crlf-line line rest (header_line-Lacks h f) ∙ ap some e in
      let taken : take (suc n) (line ++ (cr ∷ lf ∷ rest)) ≡ line =
        ap (λ k. take k (line ++ (cr ∷ lf ∷ rest))) (sym e) ∙ take-append_left line _ in
      let dropped : drop (suc n + 2) (line ++ (cr ∷ lf ∷ rest)) ≡ rest =
        ap (λ k. drop (k + 2) (line ++ (cr ∷ lf ∷ rest))) (sym e) ∙ drop-line line rest in
      let ok = (parse_header-Reads req h f room).accepted in
      parse_headers-found fuel req (line ++ (cr ∷ lf ∷ rest)) n found
        (subst (λ l. (parse_header req l).0 ≡ true) (sym taken) ok)
      ∙ rw (taken, dropped) refl

  -- All headers of a block but the last are read.
  pub parse_headers-Reads :
      (fuel : ℕ) (req : Request) (hs : List Header) (last : Header)
      → AreFields hs
      → IsField last
      → length req.headers + length hs ≤ max_headers
      → length hs < fuel
      → Reads req hs (parse_headers fuel req (header_block hs last))
  unfolding AreFields header_block
  parse_headers-Reads zero req hs last fs f room enough = absurd (omega arith)
  parse_headers-Reads (suc fuel) req [] last fs f room enough =
      let e =
        parse_headers-end fuel req (header_line last)
          (find_crlf-none (header_line last) (header_line-Lacks last f)) in
      rw e (record {
        accepted = refl;
        headers = sym (append-nil req.headers);
        same = record {
          method = refl;
          method_str = refl;
          path = refl;
          version = refl;
          offset = refl;
        };
      })
  parse_headers-Reads (suc fuel) req (h ∷ hs) last fs f room enough =
      let first = parse_header-Reads req h fs.0 (omega arith) in
      let req' = (parse_header req (header_line h)).1 in
      let n : length req'.headers ≡ length req.headers + 1 =
        ap length first.headers ∙ length-append req.headers (h ∷ []) in
      let rest = parse_headers-Reads fuel req' hs last fs.1 f (omega arith) (omega arith) in
      rw (parse_headers-step fuel req h (header_block hs last) fs.0 (omega arith)) (record {
        accepted = rest.accepted;
        headers =
            rest.headers ∙ ap (λ xs. xs ++ hs) first.headers ∙ append_assoc req.headers (h ∷ []) hs;
        same = record {
          method = rest.same.method ∙ first.same.method;
          method_str = rest.same.method_str ∙ first.same.method_str;
          path = rest.same.path ∙ first.same.path;
          version = rest.same.version ∙ first.same.version;
          offset = rest.same.offset ∙ first.same.offset;
        };
      })
