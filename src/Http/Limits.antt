-- ===== src/Http/Limits.antt =====
-- The arrays of http_request_t (include/http_request.h), and parse_header and parse_request_line
-- (src/http/http_request.c) against their sizes.
use epoll_proxy.Kernel.{Os}
use epoll_proxy.Http.Methods.{parse_method}
use Prim.Native.String.{String}
use epoll_proxy.Base.{
  ℕ, ◌≤◌, ◌<◌, ◌≡◌, refl, sym, subst, List, [], ◌∷◌, ◌++◌, Bool, true, false, arith, length, take,
  length-take, length-append, if◌then◌else◌, ◌&&◌, ◌-◌, codes, leb,
}
use epoll_proxy.Http.{
  Request, Header, max_method_len, max_path_len, max_host_len, max_headers, max_header_name_len,
  max_header_value_len,
}
use epoll_proxy.Http.Chars.{before, from, skip_whitespace, is_blank, is_zero, strncasecmp}
use epoll_proxy.Http.RequestLine.{parse_version, parse_path, parse_request_line, space, is_nil}
use epoll_proxy.Http.HeaderLine.{
  trim_end, cache_header, parse_header, colon, has_prefix, header_value, drop_one,
}
use epoll_proxy.Http.Parse.{ParseResult}

-- A name and a value with room for the final NUL.
abbrev pub FitHeader : Header → Type 0
FitHeader h = (length h.name < max_header_name_len) × (length h.value < max_header_value_len)

abbrev pub AllFit : List Header → Type 0
AllFit [] = Unit
AllFit (h ∷ hs) = FitHeader h × AllFit hs

-- Every string and the headers fit into their arrays, with a final NUL.
pub record IsBounded (req : Request) : Type 0 where
  pub method_fits : length req.method_str < max_method_len
  pub path_fits : length req.path < max_path_len
  pub host_fits : length req.host < max_host_len
  pub count_fits : length req.headers ≤ max_headers
  pub headers_fit : AllFit req.headers

AllFit-append : (hs : List Header) (h : Header) → AllFit hs → FitHeader h → AllFit (hs ++ h ∷ [])
AllFit-append [] h a f = (f, tt)
AllFit-append (x ∷ hs) h a f = (a.0, AllFit-append hs h a.1 f)

length-trim_end : (test : ℕ → Bool) (s : List ℕ) → length (trim_end test s) ≤ length s
unfolding trim_end
length-trim_end test [] = omega arith
length-trim_end test (c ∷ s) = ground (arith, length-trim_end test s)

-- A test that both outcomes pass.
pub both :
    {A : Type 0} (P : A → Type 0) (b : Bool) (x y : A)
    → (b ≡ true → P x)
    → (b ≡ false → P y)
    → P (if b then x else y)
both P true x y h k = h refl
both P false x y h k = k refl

abbrev pub Bounded : Bool × Request → Type 0
Bounded r = IsBounded r.1

abbrev pub Parsed : ParseResult × Request → Type 0
Parsed r = IsBounded r.1

-- The fields that the arrays are in.
abbrev pub SameArrays : Request → Request → Type 0
SameArrays req req' =
    (req'.method_str ≡ req.method_str)
    × (req'.path ≡ req.path)
    × (req'.host ≡ req.host)
    × (req'.headers ≡ req.headers)

pub SameArrays-IsBounded :
    (req req' : Request) → SameArrays req req' → IsBounded req → IsBounded req'
SameArrays-IsBounded req req' s b = record {
  method_fits = ground (arith, s.0, b.method_fits);
  path_fits = ground (arith, s.1, b.path_fits);
  host_fits = ground (arith, s.2, b.host_fits);
  count_fits = ground (arith, s.3, b.count_fits);
  headers_fit = subst AllFit (sym s.3) b.headers_fit;
}

host-IsBounded :
    (req : Request) (value : List ℕ)
    → IsBounded req
    → IsBounded (record req { host = take (max_host_len - 1) value })
host-IsBounded req value b = record {
  method_fits = b.method_fits;
  path_fits = b.path_fits;
  host_fits = omega (arith, length-take (max_host_len - 1) value);
  count_fits = b.count_fits;
  headers_fit = b.headers_fit;
}

module _ ⦃os : Os⦄ where
  cache_header-IsBounded :
      (req : Request) (name value : List ℕ)
      → IsBounded req
      → IsBounded (cache_header req name value)
  unfolding cache_header
  cache_header-IsBounded req name value b =
      let same : (req' : Request) → SameArrays req req' → IsBounded req' =
        λ req' s. SameArrays-IsBounded req req' s b in
      let named : String → Bool = λ n. has_prefix name (codes n) in
      let is : String → Bool = λ n. has_prefix value (codes n) in
      both IsBounded (named "Host") _ _ (λ _. host-IsBounded req (before 0 value) b)
        (λ _.
          both IsBounded (named "Content-Length") _ _ (λ _. same _ (refl, refl, refl, refl))
            (λ _.
              both IsBounded (named "Connection") _ _
                (λ _.
                  both IsBounded (is "keep-alive") _ _ (λ _. same _ (refl, refl, refl, refl))
                    (λ _.
                      both IsBounded (is "close") _ _ (λ _. same _ (refl, refl, refl, refl))
                        (λ _. b)))
                (λ _.
                  both IsBounded (named "Transfer-Encoding") _ _
                    (λ _.
                      both IsBounded (is "chunked") _ _ (λ _. same _ (refl, refl, refl, refl))
                        (λ _. b))
                    (λ _. b))))

add_header-IsBounded :
    (req : Request) (name value : List ℕ)
    → IsBounded req
    → length req.headers < max_headers
    → length name < max_header_name_len
    → length value < max_header_value_len
    → IsBounded (record req { headers = req.headers ++ record { name = name; value = value } ∷ [] })
add_header-IsBounded req name value b h n v = record {
  method_fits = b.method_fits;
  path_fits = b.path_fits;
  host_fits = b.host_fits;
  count_fits =
      omega (arith, length-append req.headers (record { name = name; value = value } ∷ []));
  headers_fit = AllFit-append req.headers _ b.headers_fit (n, v);
}

module _ ⦃os : Os⦄ where
  pub parse_header-Bounded :
      (req : Request) (line : List ℕ) → IsBounded req → Bounded (parse_header req line)
  unfolding parse_header
  parse_header-Bounded req line b =
      let value = header_value (drop_one (from colon line)) in
      both Bounded (leb max_headers (length req.headers)) _ _ (λ _. b)
        (λ count.
          both Bounded (is_nil (from colon line)) _ _ (λ _. b)
            (λ _.
              both Bounded (leb max_header_name_len (length (before colon line))) _ _ (λ _. b)
                (λ name.
                  both Bounded (leb max_header_value_len (length value)) _ _ (λ _. b)
                    (λ short. cache_header-IsBounded _ _ _ (
                      add_header-IsBounded req _ _ b (ground arith)
                        (ground (arith, length-trim_end is_blank (before colon line)))
                        (ground arith))))))

parse_version-Bounded : (req : Request) (p : List ℕ) → IsBounded req → Bounded (parse_version req p)
unfolding parse_version
parse_version-Bounded req p b =
    let same : (req' : Request) → SameArrays req req' → IsBounded req' =
      λ req' s. SameArrays-IsBounded req req' s b in
    let is : String → Bool = λ v. leb 8 (length p) && is_zero (strncasecmp p (codes v) 8) in
    both Bounded (is "HTTP/1.1") _ _ (λ _. same _ (refl, refl, refl, refl))
      (λ _.
        both Bounded (is "HTTP/1.0") _ _ (λ _. same _ (refl, refl, refl, refl))
          (λ _. same _ (refl, refl, refl, refl)))

parse_path-Bounded : (req : Request) (p : List ℕ) → IsBounded req → Bounded (parse_path req p)
unfolding parse_path
parse_path-Bounded req p b =
    let next = skip_whitespace (from space p) in
    both Bounded (is_nil (from space p)) _ _ (λ _. b)
      (λ _.
        both Bounded (leb max_path_len (length (before space p))) _ _ (λ _. b)
          (λ h.
            let b' : IsBounded (record req { path = before space p }) = record {
              method_fits = b.method_fits;
              path_fits = ground arith;
              host_fits = b.host_fits;
              count_fits = b.count_fits;
              headers_fit = b.headers_fit;
            } in
            both Bounded (is_nil next) _ _ (λ _. b') (λ _. parse_version-Bounded _ next b')))

pub parse_request_line-Bounded :
    (req : Request) (line : List ℕ) → IsBounded req → Bounded (parse_request_line req line)
unfolding parse_request_line
parse_request_line-Bounded req line b =
    let next = skip_whitespace (from space line) in
    both Bounded (is_nil (from space line)) _ _ (λ _. b)
      (λ _.
        both Bounded (leb max_method_len (length (before space line))) _ _ (λ _. b)
          (λ h.
            let b' : IsBounded (record req {
              method_str = before space line;
              method = parse_method (before space line);
            }) =
              record {
                method_fits = ground arith;
                path_fits = b.path_fits;
                host_fits = b.host_fits;
                count_fits = b.count_fits;
                headers_fit = b.headers_fit;
              } in
            both Bounded (is_nil next) _ _ (λ _. b') (λ _. parse_path-Bounded _ next b')))
