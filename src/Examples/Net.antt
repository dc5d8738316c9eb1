-- ===== src/Examples/Net.antt =====
-- A kernel for the examples: its state is the bytes that the next `read`s return.
use epoll_proxy.Base.Int.{pos}
use epoll_proxy.Epoll.{in_events}
use epoll_proxy.Base.{
  ℕ, List, [], ◌∷◌, Option, none, some, true, false, arith, take, drop, length, length-take, ◌^◌,
  ◌-◌,
}
use epoll_proxy.Kernel.{Os, IsPosix, Events, received, wrote, opened, ready, pending}

-- The listening socket is readable, and so is connection 0.
abbrev pub ready_events : List (Events × Option ℕ)
ready_events = (in_events, none) ∷ (in_events, some 0) ∷ []

instance abbrev pub net : Os
net = record {
  Kernel = List ℕ;
  read = λ k fd n. (received (take n k), drop n k);
  write = λ k fd xs. (wrote (length xs), k);
  close = λ k fd. k;
  epoll_ctl = λ k fd op target. (none, k);
  epoll_create1 = λ k. (opened 4, k);
  accept = λ k fd. (opened 6, k);
  socket = λ k. (opened 7, k);
  epoll_wait = λ k fd n ms. (ready ready_events, k);
  get_flags = λ k fd. (some 2, k);
  set_flags = λ k fd flags. (none, k);
  setsockopt = λ k fd option. (none, k);
  connect = λ k fd addr port. (none, k);
  bind = λ k fd addr port. (none, k);
  listen = λ k fd backlog. (none, k);
  socket_error = λ k fd. (pending none, k);
  inet_pton = λ addr. true;
  clock_gettime = λ k. (some (1, 500000000), k);
  interrupted = λ k. false;
  calloc = λ k. (true, k);
  atoll_overflow = λ s. pos (2 ^ 63 - 1);
}

pub net-IsPosix : IsPosix net
net-IsPosix = record {
  read_fits = λ k k' fd n xs e. ground (arith, length-take n k);
  write_fits = λ k k' fd xs n e. ground arith;
}
