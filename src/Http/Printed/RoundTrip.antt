-- ===== src/Http/Printed/RoundTrip.antt =====
-- http_request_parse (src/http/http_request.c) on the text of a request.
use epoll_proxy.Kernel.{Os}
use epoll_proxy.Base.{
  ℕ, ◌+◌, ◌≤◌, ◌<◌, List, [], ◌∷◌, ◌++◌, ◌≡◌, ◌≢◌, refl, sym, ◌∙◌, ap, subst, true, false, some,
  length, take, drop, arith, take-append_left, length-append, append_assoc, Option-cases, inl, inr,
}
use epoll_proxy.Http
use epoll_proxy.Http.{Header, Request, Version, max_headers, max_method_len, max_path_len}
use epoll_proxy.Http.Chars.{cr, lf, crlf, crlf_crlf, starts_with, find_crlf, find_header_end}
use epoll_proxy.Http.Methods.{parse_method}
use epoll_proxy.Http.RequestLine.{space, parse_request_line}
use epoll_proxy.Http.HeaderLine.{colon}
use epoll_proxy.Http.Parse.{
  parse, parse_lines, parse_headers, finish, set_keep_alive, set_length, need_more,
}
use epoll_proxy.Http.Printed.{
  Lacks, IsWord, IsField, AreFields, header_line, header_block, request_line, request_text,
}
use epoll_proxy.Http.Printed.Lines.{
  find_crlf-line, find_header_end-here, find_header_end-later, drop-line,
}
use epoll_proxy.Http.Printed.Headers.{SameLine, header_line-Lacks, parse_headers-Reads}
use epoll_proxy.Http.Printed.FirstLine.{parse_request_line-text, request_line-Lacks}

-- No line of a block is empty.
starts_with-named : (s rest : List ℕ) → s ≢ [] → Lacks cr s → starts_with crlf (s ++ rest) ≡ false
unfolding starts_with Lacks
starts_with-named [] rest n l = absurd (n refl)
starts_with-named (c ∷ s) rest n l = let h = l.0 in ground arith

starts_with-header_line :
    (h : Header) (rest : List ℕ) → IsField h → starts_with crlf (header_line h ++ rest) ≡ false
starts_with-header_line h rest f =
    subst (λ t. starts_with crlf t ≡ false) (sym (append_assoc h.name _ rest))
      (starts_with-named h.name _ f.named f.name_line)

starts_with-header_block :
    (hs : List Header) (last : Header) (rest : List ℕ)
    → AreFields hs
    → IsField last
    → starts_with crlf (header_block hs last ++ rest) ≡ false
unfolding header_block AreFields
starts_with-header_block [] last rest fs f = starts_with-header_line last rest f
starts_with-header_block (h ∷ hs) last rest fs f =
    subst (λ t. starts_with crlf t ≡ false)
      (sym (append_assoc (header_line h) (cr ∷ lf ∷ header_block hs last) rest))
      (starts_with-header_line h _ fs.0)

find_header_end-block :
    (hs : List Header) (last : Header) (body : List ℕ)
    → AreFields hs
    → IsField last
    → find_header_end (header_block hs last ++ (crlf_crlf ++ body))
      ≡ some (length (header_block hs last))
unfolding header_block AreFields
find_header_end-block [] last body fs f =
    find_header_end-here (header_line last) body (header_line-Lacks last f)
find_header_end-block (h ∷ hs) last body fs f =
    let block = header_block hs last in
    ap find_header_end (append_assoc (header_line h) (cr ∷ lf ∷ block) (crlf_crlf ++ body))
    ∙ find_header_end-later (header_line h) (block ++ (crlf_crlf ++ body)) (length block)
        (header_line-Lacks h fs.0) (starts_with-header_block hs last _ fs.1 f)
        (find_header_end-block hs last body fs.1 f)
    ∙ ap some (omega (arith, length-append (header_line h) (cr ∷ lf ∷ block)))

header_block-long : (hs : List Header) (last : Header) → length hs < length (header_block hs last)
unfolding header_block
header_block-long [] last = omega (arith, length-append last.name (colon ∷ space ∷ last.value))
header_block-long (h ∷ hs) last = omega (
  arith,
  length-append (header_line h) (cr ∷ lf ∷ header_block hs last),
  header_block-long hs last,
)

-- `finish` leaves the lines as they are.
finish-SameLine : (req : Request) (len : ℕ) → SameLine req (finish req len).1
unfolding finish set_keep_alive set_length
finish-SameLine req len = record {
  method = ground arith;
  method_str = ground arith;
  path = ground arith;
  version = ground arith;
  offset = ground arith;
}

headers-finish : (req : Request) (len : ℕ) → (finish req len).1.headers ≡ req.headers
unfolding finish set_keep_alive set_length
headers-finish req len = ground arith

module _ ⦃os : Os⦄ where
  parse_lines-found :
      (req req' : Request) (text line region : List ℕ) (i at : ℕ)
      → find_crlf text ≡ some i
      → take i text ≡ line
      → drop (i + 2) (take at text) ≡ region
      → parse_request_line req line ≡ (true, req')
      → (parse_headers (length region) req' region).0 ≡ true
      → parse_lines req text at ≡ finish (parse_headers (length region) req' region).1 (length text)
  unfolding parse_lines
  parse_lines-found req req' text line region i at e e' e'' ok ok' =
      ground (arith, e, e', e'', ok, ok')

  parse-found :
      (req : Request) (text : List ℕ) (i : ℕ)
      → req.is_complete ≡ false
      → find_header_end text ≡ some i
      → parse req text
        ≡ parse_lines (record req { raw_data = text; headers_end_offset = i + 4 }) text i
  unfolding parse
  parse-found req text i c e = ground (arith, c, e)

-- A call that asks for more leaves the request open.
is_complete-finish :
    (req : Request) (len : ℕ)
    → (finish req len).0 ≡ need_more
    → (finish req len).1.is_complete ≡ false
unfolding finish
is_complete-finish req len e = ground (arith, e)

module _ ⦃os : Os⦄ where
  is_complete-parse :
      (req : Request) (text : List ℕ)
      → req.is_complete ≡ false
      → (parse req text).0 ≡ need_more
      → (parse req text).1.is_complete ≡ false
  unfolding parse parse_lines
  is_complete-parse req text e more = elim (Option-cases (find_header_end text)) [
    | inl none_yet ↦ ground (arith, e, more, none_yet)
    | inr (i, ends) ↦ elim (Option-cases (find_crlf text)) [
      | inl no_line ↦ ground (arith, e, more, ends, no_line)
      | inr (j, found) ↦
          let start : Request = record req { raw_data = text; headers_end_offset = i + 4 } in
          let line = parse_request_line start (take j text) in
          let region = drop (j + 2) (take i text) in
          let headers = parse_headers (length region) line.1 region in
          ground (arith, e, more, ends, found, is_complete-finish headers.1 (length text))
    ]
  ]

-- The request line and all headers but the last are read; the headers go behind those that are
-- there.
pub record IsRead (start : Request) (method path : List ℕ) (v : Version) (hs : List Header)
    (offset : ℕ) (req : Request) : Type 0 where
  pub method_str : req.method_str ≡ method
  pub method_is : req.method ≡ parse_method method
  pub path_is : req.path ≡ path
  pub version_is : req.version ≡ v
  pub headers : req.headers ≡ start.headers ++ hs
  pub offset_is : req.headers_end_offset ≡ offset

module _ ⦃os : Os⦄ (method path : List ℕ) (v : Version) (hs : List Header) (last : Header)
    (method_word : IsWord method) (method_fits : length method < max_method_len)
    (path_word : IsWord path) (path_fits : length path < max_path_len) (known : v ≢ Version.unknown)
    (fields : AreFields hs) (last_field : IsField last) where
  module _ (body : List ℕ) (start : Request) (unread : start.is_complete ≡ false)
      (few : length start.headers + length hs ≤ max_headers) where
    abbrev text : List ℕ
    text = request_text method path v hs last body

    abbrev first : List ℕ
    first = request_line method path v

    -- The text up to the empty line.
    abbrev top : List ℕ
    top = first ++ (cr ∷ lf ∷ header_block hs last)

    text-top : text ≡ top ++ (crlf_crlf ++ body)
    text-top = sym (append_assoc first (cr ∷ lf ∷ header_block hs last) (crlf_crlf ++ body))

    first-Lacks : Lacks cr first
    first-Lacks = request_line-Lacks method path v method_word path_word

    find_header_end-text : find_header_end text ≡ some (length top)
    find_header_end-text =
        find_header_end-later first (header_block hs last ++ (crlf_crlf ++ body)) _ first-Lacks
          (starts_with-header_block hs last _ fields last_field)
          (find_header_end-block hs last body fields last_field)
        ∙ ap some (omega (arith, length-append first (cr ∷ lf ∷ header_block hs last)))

    -- The request as it stands after the request line.
    abbrev after_line : Request
    after_line = record start {
      raw_data = text;
      headers_end_offset = length top + 4;
      method_str = method;
      method = parse_method method;
      path = path;
      version = v;
    }

    parse-text :
        IsRead start method path v hs
          (length (request_text method path v hs last []))
          (parse start text).1
    parse-text =
        let block = header_block hs last in
        let req : Request = record start { raw_data = text; headers_end_offset = length top + 4 } in
        let read =
          parse_headers-Reads (length block) after_line hs last fields last_field few
            (header_block-long hs last) in
        let region : drop (length first + 2) (take (length top) text) ≡ block =
          ap (λ t. drop (length first + 2) (take (length top) t)) text-top
          ∙ ap (drop (length first + 2)) (take-append_left top (crlf_crlf ++ body))
          ∙ drop-line first block in
        let whole =
          parse-found start text (length top) unread find_header_end-text
          ∙ parse_lines-found req after_line text first block (length first) (length top)
              (find_crlf-line first _ first-Lacks) (take-append_left first _) region
              (parse_request_line-text req method path v method_word method_fits path_word path_fits
                known)
              read.accepted in
        let req' = (parse_headers (length block) after_line block).1 in
        let same = finish-SameLine req' (length text) in
        rw whole (record {
          method_str = same.method_str ∙ read.same.method_str;
          method_is = same.method ∙ read.same.method;
          path_is = same.path ∙ read.same.path;
          version_is = same.version ∙ read.same.version;
          headers = headers-finish req' (length text) ∙ read.headers;
          offset_is =
              same.offset
              ∙ read.same.offset
              ∙ omega (
                arith,
                length-append first (cr ∷ lf ∷ block),
                length-append first (cr ∷ lf ∷ (block ++ (crlf_crlf ++ []))),
                length-append block (crlf_crlf ++ []),
              );
        })

  -- A request in the usual form (a method and a path that fit and have no blanks or CRs, the version
  -- 1.0 or 1.1, and at most 65 headers that fit, with names without colons or CRs and values without
  -- CRs or blanks around) is read, whatever follows the headers, with its request line and with all
  -- its headers in their order but the last one, which is dropped; the offset of the body is right.
  pub parse-request_text :
      (body : List ℕ)
      → length hs ≤ max_headers
      → let req = (parse Http.init (request_text method path v hs last body)).1 in
        (req.method_str ≡ method)
        × (req.method ≡ parse_method method)
        × (req.path ≡ path)
        × (req.version ≡ v)
        × (req.headers ≡ hs)
        × (req.headers_end_offset ≡ length (request_text method path v hs last []))
  unfolding Http.init
  parse-request_text body few =
      let r = parse-text body Http.init refl (omega (arith, few)) in
      (r.method_str, r.method_is, r.path_is, r.version_is, r.headers, r.offset_is)

  -- If the parser asks for more of the body of such a request with at most 32 headers before the
  -- last, the next call reads the headers a second time and puts them behind the first: the request
  -- has each of them twice.
  pub parse-parse :
      (body more : List ℕ)
      → length hs + length hs ≤ max_headers
      → (parse Http.init (request_text method path v hs last body)).0 ≡ need_more
      → (let (_, req) = parse Http.init (request_text method path v hs last body) in
          (parse req (request_text method path v hs last (body ++ more))).1.headers ≡ hs ++ hs)
  unfolding Http.init
  parse-parse body more few asks =
      let (result, req) = parse Http.init (request_text method path v hs last body) in
      let r = parse-text body Http.init refl (omega (arith, few)) in
      let unread : req.is_complete ≡ false = is_complete-parse Http.init _ refl asks in
      let again = parse-text (body ++ more) req unread (omega (arith, few, ap length r.headers)) in
      again.headers ∙ ap (λ xs. xs ++ hs) r.headers
