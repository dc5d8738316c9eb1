-- ===== src/Relay/Traffic.antt =====
-- A record of the bytes that `read` and `write` carried, for each descriptor.
use epoll_proxy.Base.{
  ℕ, ◌≡◌, refl, List, [], ◌++◌, none, some, Bool, true, false, ◌==◌, if◌then◌else◌, take, ap,
}
use epoll_proxy.Config.{Fd}
use epoll_proxy.Kernel.{Os, IsPosix, Ctl, ReadReply, received, WriteReply, wrote}

abbrev pub same_fd : Fd → Fd → Bool
same_fd none none = true
same_fd none (some b) = false
same_fd (some a) none = false
same_fd (some a) (some b) = a == b

-- What came in and what went out at each descriptor, oldest first.
pub record Traffic : Type 0 where
  pub came : Fd → List ℕ
  pub went : Fd → List ℕ

abbrev pub append_at : (Fd → List ℕ) → Fd → List ℕ → Fd → List ℕ
append_at f fd xs fd' = if same_fd fd fd' then f fd' ++ xs else f fd'

abbrev pub bytes_of : ReadReply → List ℕ
bytes_of (received xs) = xs
bytes_of (ReadReply.failed e) = []

abbrev pub taken_of : List ℕ → WriteReply → List ℕ
taken_of xs (wrote n) = take n xs
taken_of xs (WriteReply.failed e) = []

abbrev pub note_came : Fd → ReadReply → Traffic → Traffic
note_came fd r t = record t { came = append_at t.came fd (bytes_of r) }

abbrev pub note_went : Fd → List ℕ → WriteReply → Traffic → Traffic
note_went fd xs r t = record t { went = append_at t.went fd (taken_of xs r) }

-- A kernel whose state tells the traffic so far. The other calls that work on a connection in use
-- carry no bytes.
pub record IsRecorded (os : Os) : Type 0 where
  pub seen : os.Kernel → Traffic
  pub on_read :
      (k : os.Kernel) (fd : Fd) (n : ℕ)
      → let (r, k') = os.read k fd n in seen k' ≡ note_came fd r (seen k)
  pub on_write :
      (k : os.Kernel) (fd : Fd) (xs : List ℕ)
      → let (r, k') = os.write k fd xs in seen k' ≡ note_went fd xs r (seen k)
  pub on_close : (k : os.Kernel) (fd : Fd) → seen (os.close k fd) ≡ seen k
  pub on_ctl :
      (k : os.Kernel) (epoll_fd : Fd) (op : Ctl) (fd : Fd)
      → seen (os.epoll_ctl k epoll_fd op fd).1 ≡ seen k
  pub on_error : (k : os.Kernel) (fd : Fd) → seen (os.socket_error k fd).1 ≡ seen k
  pub on_clock : (k : os.Kernel) → seen (os.clock_gettime k).1 ≡ seen k

abbrev carry : {A K : Type 0} → Traffic → A × K → A × (K × Traffic)
carry t (a, k) = (a, (k, t))

-- Any kernel, with its traffic written down.
abbrev pub logged : Os → Os
logged os = record {
  Kernel = os.Kernel × Traffic;
  read = λ k fd n. let (r, k') = os.read k.0 fd n in (r, (k', note_came fd r k.1));
  write = λ k fd xs. let (r, k') = os.write k.0 fd xs in (r, (k', note_went fd xs r k.1));
  close = λ k fd. (os.close k.0 fd, k.1);
  epoll_ctl = λ k epoll_fd op fd. carry k.1 (os.epoll_ctl k.0 epoll_fd op fd);
  epoll_create1 = λ k. carry k.1 (os.epoll_create1 k.0);
  accept = λ k fd. carry k.1 (os.accept k.0 fd);
  socket = λ k. carry k.1 (os.socket k.0);
  epoll_wait = λ k fd n ms. carry k.1 (os.epoll_wait k.0 fd n ms);
  get_flags = λ k fd. carry k.1 (os.get_flags k.0 fd);
  set_flags = λ k fd flags. carry k.1 (os.set_flags k.0 fd flags);
  setsockopt = λ k fd option. carry k.1 (os.setsockopt k.0 fd option);
  connect = λ k fd addr port. carry k.1 (os.connect k.0 fd addr port);
  bind = λ k fd addr port. carry k.1 (os.bind k.0 fd addr port);
  listen = λ k fd backlog. carry k.1 (os.listen k.0 fd backlog);
  socket_error = λ k fd. carry k.1 (os.socket_error k.0 fd);
  inet_pton = os.inet_pton;
  clock_gettime = λ k. carry k.1 (os.clock_gettime k.0);
  interrupted = λ k. os.interrupted k.0;
  calloc = λ k. carry k.1 (os.calloc k.0);
  atoll_overflow = os.atoll_overflow;
}

abbrev pub logged_traffic : (os : Os) → IsRecorded (logged os)
logged_traffic os = record {
  seen = λ k. k.1;
  on_read = λ k fd n. refl;
  on_write = λ k fd xs. refl;
  on_close = λ k fd. refl;
  on_ctl = λ k epoll_fd op fd. refl;
  on_error = λ k fd. refl;
  on_clock = λ k. refl;
}

pub logged-IsPosix : (os : Os) → IsPosix os → IsPosix (logged os)
logged-IsPosix os posix = record {
  read_fits = λ k k' fd n xs e. posix.read_fits k.0 k'.0 fd n xs (ap (λ r. (r.0, r.1.0)) e);
  write_fits = λ k k' fd xs n e. posix.write_fits k.0 k'.0 fd xs n (ap (λ r. (r.0, r.1.0)) e);
}
