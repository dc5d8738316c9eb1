-- ===== src/Http/Printed.antt =====
-- A request as text, for http_request_parse (src/http/http_request.c): how a client writes it.
pub mod Lines
pub mod Headers
pub mod FirstLine
pub mod RoundTrip
use epoll_proxy.Base.{ℕ, List, [], ◌∷◌, ◌++◌, ◌≡◌, ◌≢◌, ◌<◌, length, codes, ◌⊎◌}
use epoll_proxy.Http.{
  Header, Version, http_10, http_11, max_headers, max_header_name_len, max_header_value_len,
  max_method_len, max_path_len,
}
use epoll_proxy.Http.Chars.{cr, lf, is_blank, crlf_crlf}
use epoll_proxy.Http.RequestLine.{space}
use epoll_proxy.Http.HeaderLine.{colon, trim_end, header_value}

-- The byte does not occur.
unfoldable pub Lacks : ℕ → List ℕ → Type 0
Lacks b [] = Unit
Lacks b (c ∷ s) = (c ≢ b) × Lacks b s

-- "Name: Value"
abbrev pub header_line : Header → List ℕ
header_line h = h.name ++ (colon ∷ space ∷ h.value)

-- The lines of some headers and of one more, with a CRLF between any two.
unfoldable pub header_block : List Header → Header → List ℕ
header_block [] last = header_line last
header_block (h ∷ hs) last = header_line h ++ (cr ∷ lf ∷ header_block hs last)

abbrev pub version_text : Version → List ℕ
version_text http_10 = codes "HTTP/1.0"
version_text _ = codes "HTTP/1.1"

abbrev pub request_line : List ℕ → List ℕ → Version → List ℕ
request_line method path version = method ++ (space ∷ (path ++ (space ∷ version_text version)))

-- The request line, the headers, the empty line and what follows.
abbrev pub request_text : List ℕ → List ℕ → Version → List Header → Header → List ℕ → List ℕ
request_text method path version hs last body =
    request_line method path version ++ (cr ∷ lf ∷ (header_block hs last ++ (crlf_crlf ++ body)))

-- A header that fits, with a name and with no blanks around its value.
pub record IsField (h : Header) : Type 0 where
  pub named : h.name ≢ []
  pub name_fits : length h.name < max_header_name_len
  pub value_fits : length h.value < max_header_value_len
  pub name_line : Lacks cr h.name
  pub name_colon : Lacks colon h.name
  pub name_trim : trim_end is_blank h.name ≡ h.name
  pub value_line : Lacks cr h.value
  pub value_trim : header_value h.value ≡ h.value

unfoldable pub AreFields : List Header → Type 0
AreFields [] = Unit
AreFields (h ∷ hs) = IsField h × AreFields hs

-- A word of the request line.
pub record IsWord (s : List ℕ) : Type 0 where
  pub full : s ≢ []
  pub word_line : Lacks cr s
  pub word_space : Lacks space s
  pub word_tab : Lacks b'\t' s
