-- ===== src/Http/Printed/FirstLine.antt =====
-- parse_request_line (src/http/http_request.c) on a printed request line.
use epoll_proxy.Base.{ℕ, ◌<◌, List, [], ◌∷◌, ◌++◌, ◌≡◌, ◌≢◌, refl, true, length, arith}
use epoll_proxy.Http.{Request, Version, http_10, http_11, max_method_len, max_path_len}
use epoll_proxy.Http.Chars.{cr, lf, before, from, skip_whitespace, strncasecmp}
use epoll_proxy.Http.Methods.{parse_method}
use epoll_proxy.Http.RequestLine.{space, parse_request_line, parse_path, parse_version}
use epoll_proxy.Http.Printed.{Lacks, IsWord, request_line, version_text}
use epoll_proxy.Http.Printed.Lines.{Lacks-append, before-append, from-append}

-- A word follows the blanks at once.
skip_whitespace-word :
    (s rest : List ℕ) → IsWord s → skip_whitespace (space ∷ (s ++ rest)) ≡ s ++ rest
unfolding skip_whitespace Lacks
skip_whitespace-word [] rest w = absurd (w.full refl)
skip_whitespace-word (c ∷ s) rest w =
    let h = w.word_space.0 in let h' = w.word_tab.0 in ground arith

parse_version-text :
    (req : Request) (v : Version)
    → v ≢ Version.unknown
    → parse_version req (version_text v) ≡ (true, record req { version = v })
unfolding parse_version strncasecmp epoll_proxy.Http.Chars.tolower
parse_version-text req Version.unknown h = absurd (h refl)
parse_version-text req http_10 h = refl
parse_version-text req http_11 h = refl

parse_path-text :
    (req : Request) (path : List ℕ) (v : Version)
    → IsWord path
    → length path < max_path_len
    → v ≢ Version.unknown
    → parse_path req (path ++ (space ∷ version_text v))
      ≡ (true, record req { path = path; version = v })
unfolding parse_path skip_whitespace
parse_path-text req path v w n h = ground (
  arith,
  before-append space path (version_text v) w.word_space,
  from-append space path (version_text v) w.word_space,
  parse_version-text (record req { path = path }) v h,
)

pub parse_request_line-text :
    (req : Request) (method path : List ℕ) (v : Version)
    → IsWord method
    → length method < max_method_len
    → IsWord path
    → length path < max_path_len
    → v ≢ Version.unknown
    → parse_request_line req (request_line method path v) ≡ (
      true,
      record req { method_str = method; method = parse_method method; path = path; version = v },
    )
unfolding parse_request_line
parse_request_line-text req method path v w n w' n' h =
    let rest = path ++ (space ∷ version_text v) in
    ground (
      arith,
      before-append space method rest w.word_space,
      from-append space method rest w.word_space,
      skip_whitespace-word path (space ∷ version_text v) w',
      parse_path-text (record req { method_str = method; method = parse_method method }) path v w'
          n' h,
    )

version_text-Lacks : (v : Version) → Lacks cr (version_text v)
unfolding Lacks
version_text-Lacks Version.unknown = ground arith
version_text-Lacks http_10 = ground arith
version_text-Lacks http_11 = ground arith

pub request_line-Lacks :
    (method path : List ℕ) (v : Version)
    → IsWord method
    → IsWord path
    → Lacks cr (request_line method path v)
unfolding Lacks
request_line-Lacks method path v w w' = Lacks-append cr method _ w.word_line (
  (λ e. ground arith),
  Lacks-append cr path _ w'.word_line ((λ e. ground arith), version_text-Lacks v),
)
