-- ===== src/Examples/Responses.antt =====
-- The theorems on the bytes of a pair at a client and a backend in use.
use epoll_proxy.Proxy.Write.{write_loop, write_fuel}
use epoll_proxy.Relay.Drained.{IsWrittenOut, write_loop-IsWrittenOut}
use epoll_proxy.Buffer
use epoll_proxy.Buffer.Refine.{init-IsValid}
use epoll_proxy.Examples.Streams.{net-IsTaking}
use epoll_proxy.Examples.Data.{two_bytes, two_bytes-IsValid, two_bytes-contents, init-empty}
use epoll_proxy.Relay.Sent.{handle_event-IsForwarded}
use epoll_proxy.Connection.Pool.Steps.{proper}
use epoll_proxy.Safety.Paired.{IsForwarded}
use epoll_proxy.Safety.Drain.{IsTaking}
use epoll_proxy.Base.{ℕ, ◌≡◌, ◌≢◌, refl, [], ◌∷◌, some, false, arith, ◌++◌}
use epoll_proxy.Config.{
  Config, closed, connected, Connection, ConnState, connecting, writing_response,
}
use epoll_proxy.Kernel.{Os, IsReliable}
use epoll_proxy.Connection.{alloc, reset, pair, set_conn}
use epoll_proxy.Epoll.{in_events, out_events}
use epoll_proxy.State.{State}
use epoll_proxy.Proxy.Loop.{handle_event}
use epoll_proxy.Safety.{IsSafe, Ensures, IsValid, IsOpen, IsBusy}
use epoll_proxy.Safety.Open.{alloc-IsValid, alloc-IsOpen, reset-IsValid}
use epoll_proxy.Safety.Touch.{pair-IsValid, move-IsValid}
use epoll_proxy.Relay.Traffic.{Traffic, logged, logged_traffic, logged-IsPosix}
use epoll_proxy.Relay.Event.{from_source}
use epoll_proxy.Relay.Reach.{IsPair, IsRelayed, start, handle_event-IsRelayed}
use epoll_proxy.Examples.Net.{net, net-IsPosix}
use epoll_proxy.Examples.Cli.{net-IsReliable}
use epoll_proxy.Examples.Whole.{whole, whole-IsSafe, whole-IsBusy, alloc-whole}

instance abbrev logged_net : Os
logged_net = logged net

abbrev no_traffic : Traffic
no_traffic = record { came = λ fd. []; went = λ fd. [] }

-- The slot after the client's is handed out, for a connection to the backend.
abbrev two_taken : Config
two_taken = (alloc whole.config).1

abbrev to_backend : ConnState → Connection
to_backend state = reset (two_taken.connections 1) (some 7) false state 1500

abbrev paired : ConnState → Config
paired state = pair (set_conn two_taken 1 (to_backend state)) 0 1

paired-IsValid :
    (state : ConnState) → IsValid (IsReliable logged_net) (paired state) whole.heap whole.next
paired-IsValid state =
    let (v, taken) = alloc-IsValid 1 whole-IsSafe alloc-whole in
    let w =
      pair-IsValid 0 1 (reset-IsValid 1 (some 7) state 1500 v taken) (omega arith) (omega arith) in
    record {
      sound = w.sound;
      live = w.live;
      apart = w.apart;
      unused = w.unused;
      owned = λ _. w.owned net-IsReliable;
    }

abbrev answering : Config
answering = paired connected

abbrev responding : State ⦃os = logged_net⦄
responding = record {
  config = answering;
  kernel = (72 ∷ 105 ∷ [], no_traffic);
  heap = whole.heap;
  next = whole.next;
}

answering-IsSafe : IsSafe ⦃os = logged_net⦄ responding
answering-IsSafe = paired-IsValid connected

fd-alloc : (c : Config) (k : ℕ) → ((alloc c).1.connections k).fd ≡ (c.connections k).fd
unfolding alloc
fd-alloc c k = ground arith

responding-IsPair : IsPair 1 0 answering
unfolding pair reset
responding-IsPair = record {
  in_pool = omega arith;
  apart = λ e. omega arith;
  fds_apart = λ e. let same = fd-alloc whole.config 0 in cc;
  peer_is = refl;
  plain = ground arith;
}

state-answering : (answering.connections 0).state ≢ closed
unfolding pair
state-answering e =
    (alloc-IsOpen whole.config 0 1 whole-IsSafe.sound alloc-whole whole-IsBusy.1).1 e

handle_event-IsRelayed_example :
    Ensures ⦃os = logged_net⦄
      (λ _ t.
        IsSafe ⦃os = logged_net⦄ t
        × IsRelayed ⦃os = logged_net⦄ (logged_traffic net) 1 0 responding t)
      (handle_event ⦃os = logged_net⦄ 1 in_events (some 1) responding)
unfolding pair reset
handle_event-IsRelayed_example =
    handle_event-IsRelayed ⦃os = logged_net⦄ (logged_traffic net) 1 0 responding responding-IsPair
      (logged-IsPosix net net-IsPosix) answering-IsSafe responding start state-answering 1 in_events
      from_source refl

-- A request of two bytes is on its way.
abbrev begun : Config
begun = paired connecting

abbrev sending : Config
sending = set_conn begun 1 (record (begun.connections 1) { write_buf = two_bytes })

abbrev asking : Connection
asking = record (sending.connections 0) { state = writing_response; read_buf = Buffer.init }

abbrev asked : State ⦃os = logged_net⦄
asked = record {
  config = set_conn sending 0 asking;
  kernel = ([], no_traffic);
  heap = whole.heap;
  next = whole.next;
}

paired-IsOpen : (state : ConnState) → state ≢ closed → IsOpen (paired state) 1
unfolding pair reset
paired-IsOpen state h = (omega arith, h)

client-IsOpen : IsOpen sending 0
unfolding pair
client-IsOpen =
    (omega arith, (alloc-IsOpen whole.config 0 1 whole-IsSafe.sound alloc-whole whole-IsBusy.1).1)

asked-IsSafe : IsSafe ⦃os = logged_net⦄ asked
asked-IsSafe =
    let v = paired-IsValid connecting in
    let p = proper v.sound 1 (omega arith) in
    let v' =
      move-IsValid 1 (record (begun.connections 1) { write_buf = two_bytes }) v
        (paired-IsOpen connecting (λ e. cc))
        (record { reading = p.reading; writing = two_bytes-IsValid; peer_in = p.peer_in }) refl
        refl in
    let q = proper v'.sound 0 (omega arith) in
    move-IsValid 0 asking v' client-IsOpen
      (record { reading = init-IsValid; writing = q.writing; peer_in = q.peer_in }) refl refl

asked-IsForwarded : IsForwarded 0 1 (some 7) asking.keep_alive (72 ∷ 105 ∷ []) asked.config
unfolding pair reset
asked-IsForwarded = record {
  sent = two_bytes-contents;
  descriptor = refl;
  connects = refl;
  to_backend = refl;
  to_client = refl;
  waits = refl;
  emptied = init-empty;
  keeps = refl;
}

logged_net-IsTaking : IsTaking logged_net
logged_net-IsTaking = record { takes = λ k fd xs h. net-IsTaking.takes k.0 fd xs h }

handle_event-IsForwarded_example :
    Ensures ⦃os = logged_net⦄
      (λ _ t.
        IsSafe ⦃os = logged_net⦄ t
        × (t.kernel.1.went (some 7) ≡ no_traffic.went (some 7) ++ (72 ∷ 105 ∷ [])))
      (handle_event ⦃os = logged_net⦄ 1 out_events (some 1) asked)
handle_event-IsForwarded_example =
    handle_event-IsForwarded ⦃os = logged_net⦄ (logged_traffic net) (logged-IsPosix net net-IsPosix)
      logged_net-IsTaking 0 1 7 1 asking.keep_alive (72 ∷ 105 ∷ []) out_events asked asked-IsSafe
      (omega arith) asked-IsForwarded refl refl refl

asked-IsBusy : IsBusy ⦃os = logged_net⦄ 1 asked
asked-IsBusy = (asked-IsSafe, paired-IsOpen connecting (λ e. cc))

write_loop-IsWrittenOut_example :
    Ensures ⦃os = logged_net⦄
      (λ e t. IsWrittenOut ⦃os = logged_net⦄ (logged_traffic net) 1 asked e t)
      (write_loop ⦃os = logged_net⦄ (write_fuel ⦃os = logged_net⦄) 1 asked)
write_loop-IsWrittenOut_example =
    write_loop-IsWrittenOut ⦃os = logged_net⦄ (logged_traffic net) 1
      (logged-IsPosix net net-IsPosix) logged_net-IsTaking asked asked-IsBusy
