-- ===== src/Examples/Requests.antt =====
-- The theorems on the request parser at a concrete request.
use epoll_proxy.Examples.Net.{net}
use epoll_proxy.Base.Decimal.{strtol, skip_spaces, sign, digits, fits_long}
use epoll_proxy.Http.RequestLine.{parse_request_line}
use epoll_proxy.Http.Pieces.{parse_pieces, parse_pieces_lem}
use epoll_proxy.Base.{◌≡◌, refl, [], ◌∷◌, length, arith, codes, ℕ, List}
use epoll_proxy.Http
use epoll_proxy.Http.{Header, Version, http_11}
use epoll_proxy.Http.Chars.{
  skip_whitespace, find_header_end, find_first, starts_with, find_crlf, from, before, strncasecmp,
  tolower,
}
use epoll_proxy.Http.HeaderLine.{trim_end, parse_header, cache_header, has_prefix, atoll}
use epoll_proxy.Http.Methods.{parse_method, is_named}
use epoll_proxy.Http.Parse.{parse, parse_headers, need_more}
use epoll_proxy.Http.Printed.{IsField, AreFields, IsWord, Lacks, request_text, header_block}
use epoll_proxy.Http.Printed.RoundTrip.{parse-request_text, parse-parse}
use epoll_proxy.Http.Rounds.{parse_headers-rounds}

abbrev host : Header
host = record { name = codes "Host"; value = codes "a b" }

abbrev accept : Header
accept = record { name = codes "Accept"; value = codes "*/*" }

host-IsField : IsField host
unfolding Lacks trim_end skip_whitespace
host-IsField = record {
  named = λ e. cc;
  name_fits = omega arith;
  value_fits = omega arith;
  name_line = ground arith;
  name_colon = ground arith;
  name_trim = refl;
  value_line = ground arith;
  value_trim = refl;
}

accept-IsField : IsField accept
unfolding Lacks trim_end skip_whitespace
accept-IsField = record {
  named = λ e. cc;
  name_fits = omega arith;
  value_fits = omega arith;
  name_line = ground arith;
  name_colon = ground arith;
  name_trim = refl;
  value_line = ground arith;
  value_trim = refl;
}

hosts-AreFields : AreFields (host ∷ [])
unfolding AreFields
hosts-AreFields = (host-IsField, tt)

get-IsWord : IsWord (codes "GET")
unfolding Lacks
get-IsWord = record {
  full = λ e. cc;
  word_line = ground arith;
  word_space = ground arith;
  word_tab = ground arith;
}

path-IsWord : IsWord (codes "/x")
unfolding Lacks
path-IsWord = record {
  full = λ e. cc;
  word_line = ground arith;
  word_space = ground arith;
  word_tab = ground arith;
}

parse-request_text_example :
    let text = request_text (codes "GET") (codes "/x") http_11 (host ∷ []) accept in
    let req = (parse Http.init (text (codes "body"))).1 in
    (req.method_str ≡ codes "GET")
    × (req.method ≡ parse_method (codes "GET"))
    × (req.path ≡ codes "/x")
    × (req.version ≡ http_11)
    × (req.headers ≡ (host ∷ []))
    × (req.headers_end_offset ≡ length (text []))
parse-request_text_example =
    parse-request_text (codes "GET") (codes "/x") http_11 (host ∷ []) accept get-IsWord
      (omega arith) path-IsWord (omega arith) (λ e. cc) hosts-AreFields accept-IsField
      (codes "body") (omega arith)

abbrev ten : Header
ten = record { name = codes "Content-Length"; value = codes "10" }

ten-IsField : IsField ten
unfolding Lacks trim_end skip_whitespace
ten-IsField = record {
  named = λ e. cc;
  name_fits = omega arith;
  value_fits = omega arith;
  name_line = ground arith;
  name_colon = ground arith;
  name_trim = refl;
  value_line = ground arith;
  value_trim = refl;
}

tens-AreFields : AreFields (ten ∷ [])
unfolding AreFields
tens-AreFields = (ten-IsField, tt)

-- Three of its ten bytes have arrived.
abbrev posted : List ℕ → List ℕ
posted = request_text (codes "POST") (codes "/x") http_11 (ten ∷ []) accept

post-IsWord : IsWord (codes "POST")
unfolding Lacks
post-IsWord = record {
  full = λ e. cc;
  word_line = ground arith;
  word_space = ground arith;
  word_tab = ground arith;
}

parse-posted : (parse Http.init (posted (codes "abc"))).0 ≡ need_more
unfolding parse Http.init find_header_end find_first starts_with find_crlf parse_request_line from
    before skip_whitespace strncasecmp tolower parse_headers parse_method is_named header_block
    parse_header trim_end cache_header has_prefix atoll fits_long strtol skip_spaces sign digits
parse-posted = refl

parse-parse_example :
    let (_, req) = parse Http.init (posted (codes "abc")) in
    (parse req (posted (codes "abcdef"))).1.headers ≡ ten ∷ (ten ∷ [])
parse-parse_example =
    parse-parse (codes "POST") (codes "/x") http_11 (ten ∷ []) accept post-IsWord (omega arith)
      path-IsWord (omega arith) (λ e. cc) tens-AreFields accept-IsField (codes "abc") (codes "def")
      (omega arith) parse-posted

parse_headers-rounds_example :
    parse_headers 100 Http.init (codes "Host: a\r\nX: y")
    ≡ parse_headers (length (codes "Host: a\r\nX: y")) Http.init (codes "Host: a\r\nX: y")
parse_headers-rounds_example =
    parse_headers-rounds 100 Http.init (codes "Host: a\r\nX: y") (omega arith)

parse_pieces_lem_example :
    parse_pieces Http.init
      (codes "GET / HT")
      (codes "TP/1.0\r\nHost: a\r\n\r" ∷ (codes "\nbody" ∷ []))
    ≡ parse Http.init (codes "GET / HTTP/1.0\r\nHost: a\r\n\r\nbody")
unfolding find_header_end find_first starts_with Http.init
parse_pieces_lem_example =
    parse_pieces_lem Http.init (codes "GET / HT") (codes "\nbody")
      (codes "TP/1.0\r\nHost: a\r\n\r" ∷ []) refl refl
