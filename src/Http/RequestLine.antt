-- ===== src/Http/RequestLine.antt =====
-- parse_request_line (src/http/http_request.c): "GET /path HTTP/1.1".
use epoll_proxy.Base.{ℕ, List, [], ◌∷◌, Bool, true, false, ◌&&◌, leb, if◌then◌else◌, length, codes}
use epoll_proxy.Http.{Request, Version, http_10, http_11, max_method_len, max_path_len}
use epoll_proxy.Http.Chars.{strncasecmp, is_zero, skip_whitespace, before, from}
use epoll_proxy.Http.Methods.{parse_method}

abbrev pub space : ℕ
space = b' '

abbrev pub is_nil : List ℕ → Bool
is_nil [] = true
is_nil (c ∷ s) = false

-- The version at `p`: the flag is whether the line is accepted.
unfoldable pub parse_version : Request → List ℕ → Bool × Request
parse_version req p =
    if leb 8 (length p) && is_zero (strncasecmp p (codes "HTTP/1.1") 8)
    then (true, record req { version = http_11 })
    else if leb 8 (length p) && is_zero (strncasecmp p (codes "HTTP/1.0") 8)
    then (true, record req { version = http_10 })
    else (false, record req { version = Version.unknown })

-- The path at `p`, and what follows it.
unfoldable pub parse_path : Request → List ℕ → Bool × Request
unfolding parse_version
parse_path req p =
    let path = before space p in
    let rest = from space p in
    let req' = record req { path = path } in
    let next = skip_whitespace rest in
    if is_nil rest
    then (false, req)
    else if leb max_path_len (length path)
    then (false, req)
    else if is_nil next
    then (false, req')
    else parse_version req' next

-- `true` is the return value 0, `false` is -1.
unfoldable pub parse_request_line : Request → List ℕ → Bool × Request
unfolding parse_path
parse_request_line req line =
    let name = before space line in
    let rest = from space line in
    let req' = record req { method_str = name; method = parse_method name } in
    let next = skip_whitespace rest in
    if is_nil rest
    then (false, req)
    else if leb max_method_len (length name)
    then (false, req)
    else if is_nil next
    then (false, req')
    else parse_path req' next
