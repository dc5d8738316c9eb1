-- ===== src/Examples/Whole.antt =====
-- The theorem on a request that has arrived whole, at a concrete one.
use epoll_proxy.Base.{
  ℕ, suc, ◌+◌, ◌-◌, ◌≡◌, ◌∙◌, refl, List, [], ◌∷◌, some, true, arith, codes, ap, take, inl, inr,
  ◌++◌,
}
use epoll_proxy.Config.{Buffer, Connection, max_connections, update}
use epoll_proxy.Kernel.{received}
use epoll_proxy.Buffer
use epoll_proxy.Buffer.{fill}
use epoll_proxy.Buffer.Refine.{
  IsValid, contents-front, contents-empty, fill-IsValid, fill_appends, init-IsValid, len-init,
}
use epoll_proxy.Http
use epoll_proxy.Http.{Request}
use epoll_proxy.Http.Chars.{
  find_header_end, find_first, starts_with, find_crlf, from, before, skip_whitespace, strncasecmp,
  tolower,
}
use epoll_proxy.Http.RequestLine.{parse_request_line}
use epoll_proxy.Http.Methods.{parse_method, is_named}
use epoll_proxy.Http.Parse
use epoll_proxy.Http.Parse.{complete}
use epoll_proxy.Http.Query
use epoll_proxy.Connection.{alloc, set_conn}
use epoll_proxy.Connection.FreeList.{free_stack, alloc_pops}
use epoll_proxy.Connection.Pool.Init.{free_stack-pool_init, count_up}
use epoll_proxy.Epoll.{create_backend_connection, set_nonblocking, set_socket_options}
use epoll_proxy.State.{State, pure}
use epoll_proxy.Proxy.Write.{broke}
use epoll_proxy.Proxy.Read.{parse_buffer}
use epoll_proxy.Safety.{IsSafe, IsBusy, Ensures}
use epoll_proxy.Safety.Close.{weaken-IsValidBut}
use epoll_proxy.Safety.Fresh.{set_conn-IsValidBut, fresh-IsValid}
use epoll_proxy.Safety.Paired.{IsForwarded, IsReceived, request_bytes}
use epoll_proxy.Safety.Received.{IsConnecting, parse_buffer-IsForwarded}
use epoll_proxy.Examples.Net.{net}
use epoll_proxy.Examples.Pool.{memory, fresh, one_taken}
use epoll_proxy.Examples.Handlers.{no_requests, first-IsValid}
use epoll_proxy.Examples.Clients.{client, mode-one_taken}
use epoll_proxy.Examples.Cli.{net-IsReliable}

abbrev text : List ℕ
text = codes "GET / HTTP/1.1\r\nA: b\r\n\r\n"

abbrev parsed : Request
parsed = (Parse.parse Http.init text).1

parse-text :
    ((Parse.parse Http.init text).0 ≡ complete)
    × (parsed.total_length ≡ 24)
    × (Query.is_valid parsed ≡ true)
unfolding Parse.parse Http.init find_header_end find_first starts_with find_crlf parse_request_line
    from before skip_whitespace strncasecmp tolower Parse.parse_headers parse_method is_named
    Query.is_valid
parse-text = (refl, refl, refl)

-- The buffer into which it was read.
abbrev filled : Buffer
filled = (fill Buffer.init (received text)).1

filled-IsValid : IsValid filled
filled-IsValid = fill-IsValid text init-IsValid (omega (arith, len-init))

filled-ends : (filled.pos ≡ 0) × (filled.len ≡ 24)
unfolding fill
filled-ends = omega (arith, len-init)

filled-text : take filled.len filled.bytes ≡ text
filled-text =
    contents-front filled filled-ends.0
    ∙ fill_appends text init-IsValid (omega (arith, len-init))
    ∙ ap (λ xs. xs ++ text) (contents-empty Buffer.init (omega (arith, len-init)))

filled-IsReceived : IsReceived filled parsed
filled-IsReceived = record {
  front = filled-ends.0;
  arrived = omega (arith, filled-ends, parse-text.1);
}

-- The client of slot 0, with it.
abbrev arrived : Connection
arrived = record client { read_buf = filled }

abbrev pub whole : State
whole = record {
  config = set_conn one_taken 0 arrived;
  kernel = [];
  heap = update no_requests 0 (some Http.init);
  next = 0 + 1;
}

pub whole-IsSafe : IsSafe whole
whole-IsSafe =
    fresh-IsValid 0 Http.init mode-one_taken
      (set_conn-IsValidBut 0 arrived (weaken-IsValidBut 0 first-IsValid.0)
        (record { reading = filled-IsValid; writing = init-IsValid; peer_in = λ j e. cc })
        (inl first-IsValid.1.absent) (λ m. let same = mode-one_taken in cc))
      refl

pub whole-IsBusy : IsBusy 0 whole
whole-IsBusy = (whole-IsSafe, (omega arith, λ e. cc))

net-IsConnecting : IsConnecting whole.config 7
unfolding create_backend_connection set_nonblocking set_socket_options
net-IsConnecting s = (s.kernel, refl)

-- The slots 0 and 1 are handed out first.
two_slots : (n : ℕ) → count_up 0 (suc (suc n)) ≡ 0 ∷ (1 ∷ count_up 2 n)
unfolding count_up
two_slots n = refl

pub alloc-whole : (alloc whole.config).0 ≡ some 1
alloc-whole =
    let slots : free_stack fresh ≡ 0 ∷ (1 ∷ count_up 2 (max_connections - 2)) =
      free_stack-pool_init memory ∙ two_slots (max_connections - 2) in
    let same : free_stack whole.config ≡ free_stack one_taken = refl in
    elim (alloc_pops fresh) [
      | inl (empty, _) ↦ cc
      | inr (i, top, _) ↦ elim (alloc_pops whole.config) [
        | inl (empty, _) ↦ cc
        | inr (j, next, e) ↦ cc
      ]
    ]

parse_buffer-IsForwarded_example :
    Ensures
      (λ _ s. IsForwarded 0 1 (some 7) parsed.keep_alive (request_bytes filled parsed) s.config)
      (parse_buffer (pure broke) 0 whole)
parse_buffer-IsForwarded_example =
    parse_buffer-IsForwarded net-IsReliable (pure broke) 0 1 0 7 Http.init parsed whole whole-IsBusy
      refl refl (ap (Parse.parse Http.init) filled-text ∙ ap (λ r. (r, parsed)) parse-text.0)
      filled-IsReceived parse-text.2 net-IsConnecting alloc-whole
