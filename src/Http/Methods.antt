-- ===== src/Http/Methods.antt =====
-- Method names: http_method_to_string and http_parse_method (src/http/http_request.c).
use epoll_proxy.Base.{
  ℕ, List, Bool, true, ◌&&◌, ◌==◌, if◌then◌else◌, length, codes, ◌≡◌, ◌≢◌, refl, arith, ◌↔◌, ◌∙◌,
}
use epoll_proxy.Http.{Method, unknown, get, post, head, put, delete, patch, options, trace, connect}
use epoll_proxy.Http.Chars.{strncasecmp, is_zero, tolower, before}
use epoll_proxy.Http.Chars.Compare.{lower, length-lower, strncasecmp-lower, strncasecmp_full}

unfoldable pub method_to_string : Method → List ℕ
method_to_string get = codes "GET"
method_to_string head = codes "HEAD"
method_to_string post = codes "POST"
method_to_string put = codes "PUT"
method_to_string delete = codes "DELETE"
method_to_string patch = codes "PATCH"
method_to_string options = codes "OPTIONS"
method_to_string trace = codes "TRACE"
method_to_string connect = codes "CONNECT"
method_to_string unknown = codes "UNKNOWN"

-- `len == k && strncasecmp_custom(str, name, k) == 0`
unfoldable pub is_named : List ℕ → List ℕ → ℕ → Bool
is_named str name k = length str == k && is_zero (strncasecmp str name k)

-- The list is `str[0..len)`.
unfoldable pub parse_method : List ℕ → Method
parse_method str =
    if is_named str (codes "GET") 3
    then get
    else if is_named str (codes "POST") 4
    then post
    else if is_named str (codes "HEAD") 4
    then head
    else if is_named str (codes "PUT") 3
    then put
    else if is_named str (codes "DELETE") 6
    then delete
    else if is_named str (codes "PATCH") 5
    then patch
    else if is_named str (codes "OPTIONS") 7
    then options
    else if is_named str (codes "TRACE") 5
    then trace
    else if is_named str (codes "CONNECT") 7
    then connect
    else unknown

-- The text of any method, UNKNOWN included, is parsed as that method.
pub parse_method-method_to_string : (m : Method) → parse_method (method_to_string m) ≡ m
unfolding parse_method method_to_string is_named strncasecmp tolower
parse_method-method_to_string unknown = refl
parse_method-method_to_string _ = refl

is_named-lower :
    (s t name : List ℕ) (k : ℕ) → lower s ≡ lower t → is_named s name k ≡ is_named t name k
unfolding is_named
is_named-lower s t name k e = rw (length-lower s t e, strncasecmp-lower s t name k e)

lower_of_is_named :
    (s name : List ℕ) (k : ℕ)
    → k ≡ length name
    → before 0 name ≡ name
    → is_named s name k ≡ true
    → lower s ≡ lower name
unfolding is_named
lower_of_is_named s name k e c h = ground (arith, strncasecmp_full s name)

-- The case of a method token does not matter.
parse_method-lower : (s t : List ℕ) → lower s ≡ lower t → parse_method s ≡ parse_method t
unfolding parse_method
parse_method-lower s t e = rw (
  is_named-lower s t (codes "GET") 3 e,
  is_named-lower s t (codes "POST") 4 e,
  is_named-lower s t (codes "HEAD") 4 e,
  is_named-lower s t (codes "PUT") 3 e,
  is_named-lower s t (codes "DELETE") 6 e,
  is_named-lower s t (codes "PATCH") 5 e,
  is_named-lower s t (codes "OPTIONS") 7 e,
  is_named-lower s t (codes "TRACE") 5 e,
  is_named-lower s t (codes "CONNECT") 7 e,
)

lower_of_parse_method :
    (s : List ℕ) (m : Method)
    → m ≢ unknown
    → parse_method s ≡ m
    → lower s ≡ lower (method_to_string m)
unfolding parse_method method_to_string before
lower_of_parse_method s unknown h e = absurd (h refl)
lower_of_parse_method s get h e = lower_of_is_named s (codes "GET") 3 refl refl (ground arith)
lower_of_parse_method s post h e = lower_of_is_named s (codes "POST") 4 refl refl (ground arith)
lower_of_parse_method s head h e = lower_of_is_named s (codes "HEAD") 4 refl refl (ground arith)
lower_of_parse_method s put h e = lower_of_is_named s (codes "PUT") 3 refl refl (ground arith)
lower_of_parse_method s delete h e = lower_of_is_named s (codes "DELETE") 6 refl refl (ground arith)
lower_of_parse_method s patch h e = lower_of_is_named s (codes "PATCH") 5 refl refl (ground arith)
lower_of_parse_method s options h e =
    lower_of_is_named s (codes "OPTIONS") 7 refl refl (ground arith)
lower_of_parse_method s trace h e = lower_of_is_named s (codes "TRACE") 5 refl refl (ground arith)
lower_of_parse_method s connect h e =
    lower_of_is_named s (codes "CONNECT") 7 refl refl (ground arith)

-- A token is recognised as a method other than UNKNOWN exactly when it is the method's name, in
-- any mixture of cases.
pub parse_method_iff :
    (s : List ℕ) (m : Method)
    → m ≢ unknown
    → (parse_method s ≡ m) ↔ (lower s ≡ lower (method_to_string m))
parse_method_iff s m h =
    (lower_of_parse_method s m h, λ e. parse_method-lower s _ e ∙ parse_method-method_to_string m)
