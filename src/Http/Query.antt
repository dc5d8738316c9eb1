-- ===== src/Http/Query.antt =====
-- http_request_get_header, http_request_is_valid and http_get_status_line
-- (src/http/http_request.c).
use epoll_proxy.Base.{
  ℕ, ◌*◌, List, [], ◌∷◌, ◌++◌, Option, none, some, Bool, true, false, ◌==◌, ltb, if◌then◌else◌,
  codes,
}
use epoll_proxy.Base.Int.{ℤ, pos, negsuc}
use epoll_proxy.Http.{Method, Version, Header, Request}
use epoll_proxy.Http.Chars.{strcasecmp, is_zero, cr, lf}

find_header : List Header → List ℕ → Option (List ℕ)
find_header [] name = none
find_header (h ∷ hs) name =
    if is_zero (strcasecmp h.name name) then some h.value else find_header hs name

-- `none` is NULL.
unfoldable pub get_header : Request → List ℕ → Option (List ℕ)
unfolding find_header
get_header req name = find_header req.headers name

-- `path[0] == '\0'`
abbrev pub is_empty_string : List ℕ → Bool
is_empty_string [] = true
is_empty_string (c ∷ s) = c == 0

abbrev pub is_unknown_method : Method → Bool
is_unknown_method Method.unknown = true
is_unknown_method _ = false

abbrev pub is_unknown_version : Version → Bool
is_unknown_version Version.unknown = true
is_unknown_version _ = false

abbrev pub exceeds : ℤ → ℕ → Bool
exceeds (pos n) limit = ltb limit n
exceeds (negsuc n) limit = false

abbrev pub max_content_length : ℕ
max_content_length = 100 * 1024 * 1024

unfoldable pub is_valid : Request → Bool
is_valid req =
    if is_unknown_method req.method
    then false
    else if is_empty_string req.path
    then false
    else if is_unknown_version req.version
    then false
    else if exceeds req.content_length max_content_length
    then false
    else true

abbrev eol : List ℕ → List ℕ
eol s = s ++ cr ∷ lf ∷ []

unfoldable pub get_status_line : ℕ → List ℕ
get_status_line status_code =
    if status_code == 200
    then eol (codes "HTTP/1.1 200 OK")
    else if status_code == 400
    then eol (codes "HTTP/1.1 400 Bad Request")
    else if status_code == 404
    then eol (codes "HTTP/1.1 404 Not Found")
    else if status_code == 413
    then eol (codes "HTTP/1.1 413 Request Entity Too Large")
    else if status_code == 500
    then eol (codes "HTTP/1.1 500 Internal Server Error")
    else if status_code == 502
    then eol (codes "HTTP/1.1 502 Bad Gateway")
    else if status_code == 503
    then eol (codes "HTTP/1.1 503 Service Unavailable")
    else eol (codes "HTTP/1.1 500 Internal Server Error")
