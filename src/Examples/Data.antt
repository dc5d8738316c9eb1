-- ===== src/Examples/Data.antt =====
-- The theorems on buffers, comparisons and the free list at concrete inputs.
use epoll_proxy.Base.{
  ℕ, ◌<◌, ◌-◌, ◌≡◌, ◌↔◌, [], ◌∷◌, some, true, false, arith, length, take, drop, codes, none,
}
use epoll_proxy.Config.{Buffer, buffer_size}
use epoll_proxy.Buffer
use epoll_proxy.Buffer.{count, fill, read_fd, write_fd, compact, readable_bytes, writable_bytes}
use epoll_proxy.Kernel.{received}
use epoll_proxy.Buffer.Refine.{
  IsValid, contents, init-IsValid, len-init, fill-IsValid, fill_appends, length-contents,
  contents-empty,
}
use epoll_proxy.Buffer.Io.{Appends, Removes, read_fd-Appends, write_fd-Removes}
use epoll_proxy.Http
use epoll_proxy.Http.{get, patch}
use epoll_proxy.Http.Parse
use epoll_proxy.Http.Limits.{IsBounded}
use epoll_proxy.Http.Bounds.{init-IsBounded, parse-IsBounded}
use epoll_proxy.Http.Chars.{starts_with, find_first, strcasecmp, strncasecmp, is_zero, crlf}
use epoll_proxy.Http.Chars.Compare.{lower, text, strcasecmp_iff, strncasecmp_iff}
use epoll_proxy.Http.Chars.Find.{find_first_lem}
use epoll_proxy.Http.Methods.{parse_method, method_to_string, parse_method_iff}
use epoll_proxy.Examples.Net.{net, net-IsPosix}

-- A buffer into which two bytes were read.
abbrev pub two_bytes : Buffer
two_bytes = (fill Buffer.init (received (72 ∷ 105 ∷ []))).1

pub init-empty : contents Buffer.init ≡ []
init-empty = contents-empty Buffer.init (omega (arith, len-init))

pub two_bytes-IsValid : IsValid two_bytes
two_bytes-IsValid = fill-IsValid (72 ∷ 105 ∷ []) init-IsValid (omega (arith, len-init))

pub two_bytes-contents : contents two_bytes ≡ (72 ∷ 105 ∷ [])
two_bytes-contents =
    ground (arith, fill_appends (72 ∷ 105 ∷ []) init-IsValid (omega (arith, len-init)), init-empty)

read_fd-Appends_example :
    let (r, b', k') = read_fd net (1 ∷ 2 ∷ 3 ∷ []) Buffer.init (some 5) in
    IsValid b'
    × Appends Buffer.init (received (take (buffer_size - Buffer.init.len) (1 ∷ 2 ∷ 3 ∷ []))) r b'
    × (k' ≡ drop (buffer_size - Buffer.init.len) (1 ∷ 2 ∷ 3 ∷ []))
read_fd-Appends_example =
    read_fd-Appends net net-IsPosix (1 ∷ 2 ∷ 3 ∷ []) Buffer.init (some 5) init-IsValid
      (omega (arith, len-init))

two_bytes-waiting : two_bytes.pos < two_bytes.len
two_bytes-waiting =
    let n : length (contents two_bytes) ≡ 2 = ground (arith, two_bytes-contents) in
    omega (arith, n, length-contents two_bytes-IsValid)

write_fd-Removes_example :
    let (reply, k) = net.write [] (some 5) (contents two_bytes) in
    let (r, b', k') = write_fd net [] two_bytes (some 5) in
    IsValid b' × Removes two_bytes reply r b' × (k' ≡ k)
write_fd-Removes_example =
    write_fd-Removes net net-IsPosix [] two_bytes (some 5) two_bytes-IsValid two_bytes-waiting

strcasecmp_iff_example :
    (is_zero (strcasecmp (codes "Host") (codes "hOST")) ≡ true)
    ↔ (text (codes "Host") ≡ text (codes "hOST"))
strcasecmp_iff_example = strcasecmp_iff (codes "Host") (codes "hOST")

strncasecmp_iff_example :
    (is_zero (strncasecmp (codes "Keep") (codes "keep-alive") 4) ≡ true)
    ↔ (take 4 (text (codes "Keep")) ≡ take 4 (text (codes "keep-alive")))
strncasecmp_iff_example = strncasecmp_iff (codes "Keep") (codes "keep-alive") 4

find_first_lem_example :
    ((i : ℕ)
      → find_first crlf (65 ∷ 13 ∷ 13 ∷ 10 ∷ []) ≡ some i
      → (starts_with crlf (drop i (65 ∷ 13 ∷ 13 ∷ 10 ∷ [])) ≡ true)
        × ((j : ℕ) → j < i → starts_with crlf (drop j (65 ∷ 13 ∷ 13 ∷ 10 ∷ [])) ≡ false))
    × (find_first crlf (65 ∷ 13 ∷ 13 ∷ 10 ∷ []) ≡ none
        → (j : ℕ) → j < 4
        → starts_with crlf (drop j (65 ∷ 13 ∷ 13 ∷ 10 ∷ [])) ≡ false)
find_first_lem_example = find_first_lem crlf (65 ∷ 13 ∷ 13 ∷ 10 ∷ [])

parse_method_iff_example :
    (parse_method (codes "GeT") ≡ get) ↔ (lower (codes "GeT") ≡ lower (method_to_string get))
parse_method_iff_example = parse_method_iff (codes "GeT") get (λ e. cc)

parse-IsBounded_example :
    IsBounded (Parse.parse Http.init (codes "GET / HTTP/1.1\r\nHost: a\r\nX: y\r\n\r\n")).1
parse-IsBounded_example =
    parse-IsBounded Http.init (codes "GET / HTTP/1.1\r\nHost: a\r\nX: y\r\n\r\n") init-IsBounded
