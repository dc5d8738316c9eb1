-- ===== src/Http/Parse.antt =====
-- http_request_parse (src/http/http_request.c).
use epoll_proxy.Kernel.{Os}
use epoll_proxy.Base.{
  ℕ, zero, suc, ◌+◌, List, Option, none, some, Bool, true, false, not, ◌||◌, leb, if◌then◌else◌,
  length, take, drop, codes, add_size,
}
use epoll_proxy.Base.Int.{pos, negsuc}
use epoll_proxy.Http.{Method, get, head, delete, http_10, Request}
use epoll_proxy.Http.Chars.{find_crlf, find_header_end, strcasecmp, is_zero}
use epoll_proxy.Http.RequestLine.{parse_request_line}
use epoll_proxy.Http.HeaderLine.{parse_header}
use epoll_proxy.Http.Query.{get_header}

-- The return values 1, 0 and -1.
pub data ParseResult : Type 0 where
  complete need_more malformed : ParseResult

module _ ⦃os : Os⦄ where
  -- The `while` loop over the header lines; the list is `[line_start, header_end)`. A round that
  -- goes on takes at least the two characters of a CRLF, so that the length of the list bounds the
  -- rounds; when the fuel is out the list is empty, and the loop ends by its own test.
  unfoldable pub parse_headers : ℕ → Request → List ℕ → Bool × Request
  parse_headers zero req region = (true, req)
  parse_headers (suc fuel) req region = elim (find_crlf region) [
    | none ↦ (true, req)
    | some zero ↦ (true, req)
    | some (suc i) ↦
        let (accepted, req') = parse_header req (take (suc i) region) in
        let rest = parse_headers fuel req' (drop (suc i + 2) region) in
        if accepted then rest else (false, req')
  ]

abbrev pub is_value : Option (List ℕ) → List ℕ → Bool
is_value none name = false
is_value (some v) name = is_zero (strcasecmp v name)

-- "Set keep-alive default based on HTTP version"
unfoldable pub set_keep_alive : Request → Request
set_keep_alive req =
    let conn = get_header req (codes "Connection") in
    elim req.version [
      | http_10 ↦ record req { keep_alive = is_value conn (codes "keep-alive") }
      | _ ↦ record req { keep_alive = not (is_value conn (codes "close")) }
    ]

-- A request that needs no body.
abbrev pub has_no_body : Method → Bool
has_no_body get = true
has_no_body head = true
has_no_body delete = true
has_no_body _ = false

-- "Calculate total request length"; the flag tells a malformed request.
unfoldable pub set_length : Request → ℕ → Bool × Request
set_length req len =
    if req.chunked
    then (true, record req { total_length = req.headers_end_offset; is_complete = true })
    else elim req.content_length [
      | pos n ↦
          let total = add_size req.headers_end_offset n in
          (
            true,
            record req { total_length = total; is_complete = leb total len || req.is_complete },
          )
      | negsuc n ↦
          if has_no_body req.method
          then (true, record req { total_length = req.headers_end_offset; is_complete = true })
          else (false, req)
    ]

-- The end of the function, behind the header loop.
unfoldable pub finish : Request → ℕ → ParseResult × Request
unfolding set_keep_alive set_length
finish req len =
    let (accepted, req') = set_length (set_keep_alive req) len in
    if accepted then (if req'.is_complete then complete else need_more, req') else (malformed, req')

module _ ⦃os : Os⦄ where
  -- The request line and the headers, once the end of the headers is found at `header_end`.
  unfoldable pub parse_lines : Request → List ℕ → ℕ → ParseResult × Request
  unfolding finish
  parse_lines req text header_end = elim (find_crlf text) [
    | none ↦ (malformed, req)
    | some i ↦
        let (line_ok, req') = parse_request_line req (take i text) in
        let region = drop (i + 2) (take header_end text) in
        let (headers_ok, req'') = parse_headers (length region) req' region in
        if not line_ok
        then (malformed, req')
        else if not headers_ok
        then (malformed, req'')
        else finish req'' (length text)
  ]

  -- The list is `data[0..len)`.
  unfoldable pub parse : Request → List ℕ → ParseResult × Request
  unfolding parse_lines
  parse req text = if req.is_complete then (complete, req) else elim (find_header_end text) [
    | none ↦ (need_more, record req { raw_data = text })
    | some i ↦ parse_lines (record req { raw_data = text; headers_end_offset = i + 4 }) text i
  ]
