-- ===== src/Examples/Clients.antt =====
-- The theorems on reading, accepting and the event loop at a state with a client in use.
use epoll_proxy.Base.{◌≡◌, ◌∙◌, subst, refl, [], ◌∷◌, some, true, arith, inl, ◌+◌}
use epoll_proxy.Config.{Connection, http, reading_request, update}
use epoll_proxy.Http
use epoll_proxy.Http.{Request}
use epoll_proxy.Buffer.Refine.{init-IsValid}
use epoll_proxy.Connection.{set_conn}
use epoll_proxy.Connection.Pool.{IsProper}
use epoll_proxy.Connection.Pool.Init.{mode-pool_init}
use epoll_proxy.State.{State}
use epoll_proxy.Proxy.Read.{handle_read}
use epoll_proxy.Proxy.Accept.{handle_accept}
use epoll_proxy.Proxy.Loop.{handle_events, proxy_run}
use epoll_proxy.Safety.{IsSafe, IsBusy, Safely}
use epoll_proxy.Safety.Open.{mode-alloc}
use epoll_proxy.Safety.Close.{weaken-IsValidBut}
use epoll_proxy.Safety.Fresh.{set_conn-IsValidBut, fresh-IsValid}
use epoll_proxy.Safety.Accepting.{handle_accept-Safely}
use epoll_proxy.Safety.Running.{
  IsEpoll, InPool, handle_read-Safely, handle_events-Safely, proxy_run-Safely,
}
use epoll_proxy.Examples.Net.{net, net-IsPosix, ready_events}
use epoll_proxy.Examples.Pool.{blank, memory, fresh, one_taken}
use epoll_proxy.Examples.Handlers.{no_requests, first-IsValid}

pub net-IsEpoll : IsEpoll net
net-IsEpoll = record {
  delivers = λ k k' epoll_fd n ms evs e.
      let same : ready_events ≡ evs = cc in
      let inside : InPool ready_events = (omega arith, tt) in subst InPool same inside;
}

-- The client of slot 0, whose request is at the address 0.
abbrev pub client : Connection
client = record blank {
  fd = some 6;
  state = reading_request;
  is_client = true;
  http_req = some 0;
  keep_alive = true;
}

client-IsProper : IsProper client
client-IsProper = record { reading = init-IsValid; writing = init-IsValid; peer_in = λ j e. cc }

abbrev pub reading : State
reading = record {
  config = set_conn one_taken 0 client;
  kernel = 71 ∷ 69 ∷ 84 ∷ [];
  heap = update no_requests 0 (some Http.init);
  next = 0 + 1;
}

pub mode-one_taken : one_taken.mode ≡ http
mode-one_taken = mode-alloc fresh ∙ mode-pool_init memory

pub reading-IsSafe : IsSafe reading
reading-IsSafe =
    fresh-IsValid 0 Http.init mode-one_taken
      (set_conn-IsValidBut 0 client (weaken-IsValidBut 0 first-IsValid.0) client-IsProper
        (inl first-IsValid.1.absent) (λ m. let same = mode-one_taken in cc))
      refl

pub reading-IsBusy : IsBusy 0 reading
reading-IsBusy = (reading-IsSafe, (omega arith, λ e. cc))

handle_read-Safely_example : Safely (handle_read 0 reading)
handle_read-Safely_example = handle_read-Safely net-IsPosix 0 reading reading-IsSafe (omega arith)

handle_accept-Safely_example : Safely (handle_accept 3 reading)
handle_accept-Safely_example = handle_accept-Safely 3 reading reading-IsSafe

handle_events-Safely_example : Safely (handle_events 2 ready_events reading)
handle_events-Safely_example =
    handle_events-Safely net-IsPosix 2 ready_events reading reading-IsSafe (omega arith, tt)

proxy_run-Safely_example : Safely (proxy_run 5 2 reading)
proxy_run-Safely_example = proxy_run-Safely net-IsPosix net-IsEpoll 5 2 reading reading-IsSafe
