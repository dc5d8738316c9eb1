-- ===== src/Examples/Streams.antt =====
-- The theorems on the bytes that pass through the buffers at concrete states.
use epoll_proxy.Safety.Refused.{IsRefused, refusal, handle_http_request-IsRefused}
use epoll_proxy.Proxy.Request.{handle_http_request}
use epoll_proxy.Epoll.{create_backend_connection, set_nonblocking, set_socket_options}
use epoll_proxy.Base.{
  ◌-◌, ◌<◌, ◌≡◌, refl, List, [], ◌∷◌, ◌++◌, some, arith, length, ap, codes, inl, ℕ, none, inr,
}
use epoll_proxy.Config.{Connection, connected}
use epoll_proxy.Kernel.{wrote}
use epoll_proxy.Buffer.Refine.{IsValid, contents}
use epoll_proxy.Buffer.Queue.{
  Call, read_call, write_call, compact_call, perform_all, transfers, IsRun, all_in, all_out,
  perform_all-IsRun,
}
use epoll_proxy.Connection.{set_conn, alloc}
use epoll_proxy.Connection.Pool.Steps.{proper}
use epoll_proxy.State.{State}
use epoll_proxy.Proxy.Respond.{error_text, send_http_error, response_size}
use epoll_proxy.Proxy.Write.{handle_write}
use epoll_proxy.Safety.{IsBusy, Ensures}
use epoll_proxy.Safety.Write.{touch-IsBusy}
use epoll_proxy.Safety.Drain.{IsTaking}
use epoll_proxy.Safety.Unsent.{handle_write-send_http_error}
use epoll_proxy.Examples.Net.{net, net-IsPosix}
use epoll_proxy.Examples.Data.{two_bytes, two_bytes-IsValid}
use epoll_proxy.Examples.Handlers.{in_use, in_use-IsBusy}
use epoll_proxy.Examples.Clients.{reading}

abbrev calls : List Call
calls = read_call (some 5) ∷ compact_call ∷ write_call (some 6) ∷ read_call (some 5) ∷ []

perform_all-IsRun_example :
    let b = (perform_all net calls (1 ∷ 2 ∷ 3 ∷ []) two_bytes).0 in
    let ts = transfers net calls (1 ∷ 2 ∷ 3 ∷ []) two_bytes in
    IsValid b
    × IsRun (contents two_bytes) ts (contents b)
    × (all_out ts ++ contents b ≡ contents two_bytes ++ all_in ts)
perform_all-IsRun_example =
    perform_all-IsRun net net-IsPosix calls (1 ∷ 2 ∷ 3 ∷ []) two_bytes two_bytes-IsValid

pub net-IsTaking : IsTaking net
net-IsTaking = record { takes = λ k fd xs h. (length xs - 1, ap wrote (omega arith)) }

-- A backend's connection with two bytes to be written to it.
abbrev to_write : Connection
to_write = record ((in_use connected).config.connections 0) { write_buf = two_bytes }

abbrev writing : State
writing = record (in_use connected) {
  config = set_conn (in_use connected).config 0 to_write;
  kernel = [];
}

writing-IsBusy : IsBusy 0 writing
writing-IsBusy =
    let b = in_use-IsBusy connected (λ e. cc) in
    let p = proper b.0.sound 0 b.1.0 in
    touch-IsBusy 0 to_write (in_use connected) b
      (record { reading = p.reading; writing = two_bytes-IsValid; peer_in = p.peer_in })
      (record { state = refl; client = refl; request = refl }) []

bad_request-fits : length (error_text 400 (codes "Bad Request")) < response_size
unfolding error_text
bad_request-fits = omega arith

handle_write-send_http_error_example :
    (s' : State) × (send_http_error 0 400 (codes "Bad Request") reading ≡ some (tt, s'))
    × (contents (s'.config.connections 0).write_buf ≡ error_text 400 (codes "Bad Request"))
    × (handle_write 0 s' ≡ some (tt, s'))
handle_write-send_http_error_example =
    handle_write-send_http_error 0 400 (codes "Bad Request") reading (inl refl) bad_request-fits

-- No slot is left.
abbrev full : State
full = record reading { config = record reading.config { free_count = 0 } }

alloc-full : (alloc full.config).0 ≡ none
unfolding alloc
alloc-full = refl

begun_by :
    (s : State) (addr : List ℕ) (port : ℕ)
    → create_backend_connection addr port s ≡ some (some 7, s)
unfolding create_backend_connection set_nonblocking set_socket_options
begun_by s addr port = refl

handle_http_request-IsRefused_example :
    Ensures (λ _ t. IsRefused 0 (refusal (some 7)) full t) (handle_http_request 0 full)
handle_http_request-IsRefused_example =
    handle_http_request-IsRefused 0 full (some 7) full.kernel
      (begun_by full full.config.backend_addr full.config.backend_port) (inr alloc-full)
