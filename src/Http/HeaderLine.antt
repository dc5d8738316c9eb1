-- ===== src/Http/HeaderLine.antt =====
-- parse_header (src/http/http_request.c): "Name: Value", and the headers whose values are cached.
use epoll_proxy.Base.{
  ℕ, ◌-◌, List, [], ◌∷◌, ◌++◌, Bool, true, false, ◌&&◌, ◌||◌, ◌==◌, leb, if◌then◌else◌, length,
  take, codes,
}
use epoll_proxy.Base.Int.{ℤ}
use epoll_proxy.Base.Decimal.{strtol, fits_long}
use epoll_proxy.Kernel.{Os}
use epoll_proxy.Http.{
  Request, Header, max_headers, max_header_name_len, max_header_value_len, max_host_len,
}
use epoll_proxy.Http.Chars.{cr, lf, is_blank, strncasecmp, is_zero, skip_whitespace, before, from}
use epoll_proxy.Http.RequestLine.{is_nil}

abbrev pub colon : ℕ
colon = b':'

-- `while (end > start && test(end[-1])) end--`
unfoldable pub trim_end : (ℕ → Bool) → List ℕ → List ℕ
trim_end test [] = []
trim_end test (c ∷ s) = let rest = trim_end test s in if is_nil rest && test c then [] else c ∷ rest

abbrev pub is_blank_or_eol : ℕ → Bool
is_blank_or_eol c = is_blank c || c == cr || c == lf

module _ ⦃os : Os⦄ where
  -- `atoll`, whose `long long` is as wide as a `long`. What it returns for a number out of range is
  -- not known.
  unfoldable pub atoll : List ℕ → ℤ
  unfolding strtol fits_long
  atoll s =
      let text = before 0 s in if fits_long text then (strtol text).0 else os.atoll_overflow text

-- `strncasecmp_custom(text, name, length name) == 0`
unfoldable pub has_prefix : List ℕ → List ℕ → Bool
has_prefix text name = is_zero (strncasecmp text name (length name))

module _ ⦃os : Os⦄ where
  -- "Cache important headers"; `snprintf` keeps at most MAX_HOST_LEN - 1 characters.
  unfoldable pub cache_header : Request → List ℕ → List ℕ → Request
  cache_header req name value =
      if has_prefix name (codes "Host")
      then record req { host = take (max_host_len - 1) (before 0 value) }
      else if has_prefix name (codes "Content-Length")
      then record req { content_length = atoll value }
      else if has_prefix name (codes "Connection")
      then (if has_prefix value (codes "keep-alive")
          then record req { keep_alive = true }
          else if has_prefix value (codes "close")
          then record req { keep_alive = false }
          else req)
      else if has_prefix name (codes "Transfer-Encoding")
      then (if has_prefix value (codes "chunked") then record req { chunked = true } else req)
      else req

-- The value of a header line, from behind the colon.
abbrev pub header_value : List ℕ → List ℕ
header_value s = trim_end is_blank_or_eol (skip_whitespace s)

abbrev pub drop_one : List ℕ → List ℕ
drop_one [] = []
drop_one (c ∷ s) = s

module _ ⦃os : Os⦄ where
  -- `true` is the return value 0, `false` is -1.
  unfoldable pub parse_header : Request → List ℕ → Bool × Request
  parse_header req line =
      let rest = from colon line in
      let found = before colon line in
      let name = trim_end is_blank found in
      let value = header_value (drop_one rest) in
      let header : Header = record { name = name; value = value } in
      if leb max_headers (length req.headers)
      then (false, req)
      else if is_nil rest
      then (false, req)
      else if leb max_header_name_len (length found)
      then (false, req)
      else if leb max_header_value_len (length value)
      then (false, req)
      else (true, cache_header (record req { headers = req.headers ++ header ∷ [] }) name value)
