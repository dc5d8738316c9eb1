-- ===== src/Epoll.antt =====
-- src/core/epoll.c: the wrappers of the epoll calls, and the socket utilities. A result of 0 is
-- `true` and -1 is `false`; messages to stderr are left out.
pub mod Quiet
use Prim.Native.Nat.{bit_or}
use epoll_proxy.Base.{ℕ, List, Option, none, some, Bool, true, false, if◌then◌else◌}
use epoll_proxy.Config.{Fd}
use epoll_proxy.Kernel.{
  Os, Errno, einprogress, FdReply, opened, Events, add, modify, delete, WaitReply, SocketOption,
  reuse_addr, no_delay,
}
use epoll_proxy.State.{M, pure, system, ◌>>=◌, ◌>>◌}

abbrev pub no_events : Events
no_events = record {
  epoll_in = false;
  epoll_out = false;
  epoll_err = false;
  epoll_hup = false;
  epoll_rdhup = false;
  epoll_et = false;
}

abbrev pub in_events : Events
in_events = record no_events { epoll_in = true }

abbrev pub out_events : Events
out_events = record no_events { epoll_out = true }

-- `events | EPOLLET | EPOLLRDHUP | EPOLLHUP | EPOLLERR`
unfoldable pub with_defaults : Events → Events
with_defaults ev = record ev {
  epoll_err = true;
  epoll_hup = true;
  epoll_rdhup = true;
  epoll_et = true;
}

abbrev pub succeeded : Option Errno → Bool
succeeded none = true
succeeded (some e) = false

abbrev pub listen_backlog : ℕ
listen_backlog = 511

abbrev pub o_nonblock : ℕ
o_nonblock = 2048

abbrev pub fd_of : FdReply → Fd
fd_of (opened fd) = some fd
fd_of (FdReply.failed e) = none

module _ ⦃os : Os⦄ where
  pub epoll_init : M Fd
  epoll_init = do r ← system os.epoll_create1; pure (fd_of r)

  unfoldable pub epoll_add : Fd → Fd → Events → Option ℕ → M Bool
  epoll_add epoll_fd fd events conn = do
    r ← system (λ k. os.epoll_ctl k epoll_fd (add (with_defaults events) conn) fd)
    pure (succeeded r)

  unfoldable pub epoll_mod : Fd → Fd → Events → Option ℕ → M Bool
  epoll_mod epoll_fd fd events conn = do
    r ← system (λ k. os.epoll_ctl k epoll_fd (modify (with_defaults events) conn) fd)
    pure (succeeded r)

  unfoldable pub epoll_del : Fd → Fd → M Bool
  epoll_del epoll_fd fd = do r ← system (λ k. os.epoll_ctl k epoll_fd delete fd); pure (succeeded r)

  unfoldable pub epoll_wait_events : Fd → ℕ → ℕ → M WaitReply
  epoll_wait_events epoll_fd max_events timeout_ms =
      system (λ k. os.epoll_wait k epoll_fd max_events timeout_ms)

  unfoldable pub close_fd : Fd → M (Unit {0})
  close_fd fd = system (λ k. (tt, os.close k fd))

  set_flag : Fd → Option ℕ → M Bool
  set_flag fd none = pure false
  set_flag fd (some flags) = do
    r ← system (λ k. os.set_flags k fd (bit_or flags o_nonblock))
    pure (succeeded r)

  unfoldable pub set_nonblocking : Fd → M Bool
  unfolding set_flag
  set_nonblocking fd = do flags ← system (λ k. os.get_flags k fd); set_flag fd flags

  set_more_options : Fd → Bool → M Bool
  set_more_options fd false = pure false
  set_more_options fd true = do
    _ ← system (λ k. os.setsockopt k fd SocketOption.keep_alive)
    _ ← system (λ k. os.setsockopt k fd no_delay)
    pure true

  -- Only SO_REUSEADDR is required to succeed.
  unfoldable pub set_socket_options : Fd → M Bool
  unfolding set_more_options
  set_socket_options fd = do
    r ← system (λ k. os.setsockopt k fd reuse_addr)
    set_more_options fd (succeeded r)

  -- `close(fd); return -1;`
  abbrev give_up : Fd → M Fd
  give_up fd = close_fd fd >> pure none

  -- `if (step == -1) { close(fd); return -1; }` and then the rest.
  abbrev unless_failed : Fd → M Bool → M Fd → M Fd
  unless_failed fd step rest = do ok ← step; if ok then rest else give_up fd

  start_listening : List ℕ → ℕ → Fd → M Fd
  unfolding close_fd
  start_listening addr port fd = unless_failed fd (set_socket_options fd) (
      unless_failed fd (set_nonblocking fd) (
        unless_failed fd (pure (os.inet_pton addr)) (
          unless_failed fd (do r ← system (λ k. os.bind k fd addr port); pure (succeeded r))
            (unless_failed fd
              (do r ← system (λ k. os.listen k fd listen_backlog); pure (succeeded r)) (pure fd)))))

  with_socket : (Fd → M Fd) → FdReply → M Fd
  with_socket use_fd (FdReply.failed e) = pure none
  with_socket use_fd (opened fd) = use_fd (some fd)

  unfoldable pub create_listen_socket : List ℕ → ℕ → M Fd
  unfolding start_listening with_socket
  create_listen_socket addr port = do
    r ← system os.socket
    with_socket (start_listening addr port) r

  -- EINPROGRESS is the normal case.
  abbrev connect_started : Option Errno → Bool
  connect_started none = true
  connect_started (some einprogress) = true
  connect_started (some _) = false

  start_connecting : List ℕ → ℕ → Fd → M Fd
  unfolding close_fd
  start_connecting addr port fd = unless_failed fd (set_nonblocking fd) (
      unless_failed fd (set_socket_options fd) (
        unless_failed fd (pure (os.inet_pton addr)) (
          unless_failed fd
            (do r ← system (λ k. os.connect k fd addr port); pure (connect_started r)) (pure fd))))

  unfoldable pub create_backend_connection : List ℕ → ℕ → M Fd
  unfolding start_connecting with_socket
  create_backend_connection addr port = do
    r ← system os.socket
    with_socket (start_connecting addr port) r
