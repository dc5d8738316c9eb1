-- ===== src/Examples/Handlers.antt =====
-- The theorems on the handlers at a state with a connection in use.
use epoll_proxy.Kernel.{IsReliable}
use epoll_proxy.Base.{
  ℕ, ◌≡◌, ◌≢◌, refl, sym, ◌∙◌, Option, ◌++◌, min, ◌-◌, length, take, [], ◌∷◌, some, none, false,
  arith, codes,
}
use epoll_proxy.Config.{Buffer, Config, Connection, ConnState, connected, closed, buffer_size, http}
use epoll_proxy.Http.{Request}
use epoll_proxy.Buffer.Refine.{IsValid, contents, init-IsValid}
use epoll_proxy.Connection.{set_conn, reset}
use epoll_proxy.Connection.Pool.Init.{alloc-pool_init}
use epoll_proxy.State.{State}
use epoll_proxy.Proxy.Lifecycle.{close_pair}
use epoll_proxy.Proxy.Forward.{forward_data}
use epoll_proxy.Proxy.Forward.Stream.{forward_data_stream}
use epoll_proxy.Proxy.Write.{handle_write}
use epoll_proxy.Proxy.Loop.{proxy_init}
use epoll_proxy.Safety
use epoll_proxy.Safety.{IsOpen, IsSafe, IsBusy, Safely, Ensures}
use epoll_proxy.Safety.Start.{proxy_init-Safely, pool_init-IsValid, proxy_init-InHttpMode}
use epoll_proxy.Safety.Open.{IsTaken, alloc-IsValid, reset-IsValid}
use epoll_proxy.Safety.Lifecycle.{close_pair-Safely}
use epoll_proxy.Safety.Write.{handle_write-Safely}
use epoll_proxy.Examples.Net.{net, net-IsPosix}
use epoll_proxy.Examples.Pool.{memory, one_taken, blank}
use epoll_proxy.Examples.Data.{two_bytes, two_bytes-IsValid}

abbrev pub no_requests : ℕ → Option Request
no_requests p = none

pub first-IsValid : Safety.IsValid (IsReliable net) one_taken no_requests 0 × IsTaken one_taken 0
first-IsValid =
    alloc-IsValid 0 (pool_init-IsValid memory no_requests 0 (λ _ i h. refl) refl)
      (alloc-pool_init memory)

-- A backend's connection in slot 0.
abbrev backend : ConnState → Connection
backend state = reset (one_taken.connections 0) (some 7) false state 1500

abbrev pub in_use : ConnState → State
in_use state = record {
  config = set_conn one_taken 0 (backend state);
  kernel = 72 ∷ 105 ∷ [];
  heap = no_requests;
  next = 0;
}

in_use-IsSafe : (state : ConnState) → IsSafe (in_use state)
in_use-IsSafe state = reset-IsValid 0 (some 7) state 1500 first-IsValid.0 first-IsValid.1

state-reset :
    (conn : Connection) (state : ConnState) → (reset conn (some 7) false state 1500).state ≡ state
unfolding reset
state-reset conn state = refl

pub in_use-IsBusy : (state : ConnState) → state ≢ closed → IsBusy 0 (in_use state)
in_use-IsBusy state h = (
  in_use-IsSafe state,
  (omega arith, λ e. h (sym (state-reset (one_taken.connections 0) state) ∙ e)),
)

-- The memory before the proxy starts.
abbrev pub before_start : State
before_start = record { config = memory; kernel = []; heap = no_requests; next = 0 }

proxy_init-Safely_example :
    Safely (proxy_init (codes "0.0.0.0") 8080 (codes "127.0.0.1") 8081 before_start)
proxy_init-Safely_example =
    proxy_init-Safely (codes "0.0.0.0") 8080 (codes "127.0.0.1") 8081 before_start (λ _ i h. refl)

handle_write-Safely_example : Safely (handle_write 0 (in_use connected))
handle_write-Safely_example =
    handle_write-Safely net-IsPosix 0 (in_use connected) (in_use-IsSafe connected) (omega arith)

close_pair-Safely_example : Safely (close_pair (some 0) (in_use connected))
close_pair-Safely_example =
    close_pair-Safely 0 (in_use connected) (in_use-IsSafe connected) (omega arith)

-- Two bytes that wait to go from connection 0 to connection 1.
abbrev two_waiting : Config
two_waiting = set_conn memory 0 (record blank { read_buf = two_bytes })

forward_data_stream_example :
    let (r, c') = forward_data two_waiting (some 0) (some 1) in
    let src : Config → Buffer = λ c. (c.connections 0).read_buf in
    let dst : Config → Buffer = λ c. (c.connections 1).write_buf in
    let n = min (length (contents two_bytes)) (buffer_size - (dst two_waiting).len) in
    (r ≡ some n)
    × (contents (dst c') ≡ contents (dst two_waiting) ++ take n (contents two_bytes))
    × (contents two_bytes ≡ take n (contents two_bytes) ++ contents (src c'))
    × IsValid (src c')
    × IsValid (dst c')
forward_data_stream_example = forward_data_stream two_waiting 0 1 two_bytes-IsValid init-IsValid

proxy_init-InHttpMode_example :
    Ensures
      (λ _ s. s.config.mode ≡ http)
      (proxy_init (codes "0.0.0.0") 8080 (codes "127.0.0.1") 8081 before_start)
proxy_init-InHttpMode_example =
    proxy_init-InHttpMode (codes "0.0.0.0") 8080 (codes "127.0.0.1") 8081 before_start
