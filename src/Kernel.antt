-- ===== src/Kernel.antt =====
-- The system calls, the allocator and what `atoll` leaves open, which the program uses and does not
-- implement: a parameter of the model. A call takes the kernel's state and returns its reply with
-- the new state; a reply of -1 carries `errno`.
use epoll_proxy.Base.{ℕ, ◌≤◌, ◌≡◌, List, Option, Bool, length, none}
use epoll_proxy.Base.Int.{ℤ}
use epoll_proxy.Config.{Fd}

-- The values of `errno` that the source names. On Linux EWOULDBLOCK is EAGAIN.
pub data Errno : Type 0 where
  eagain enobufs econnreset epipe eintr einprogress enoent ebadf : Errno
  other : ℕ → Errno

-- `read`: the bytes that were stored (none of them at end of file), or -1.
pub data ReadReply : Type 0 where
  received : List ℕ → ReadReply
  failed : Errno → ReadReply

-- `write`: how many bytes were taken, or -1.
pub data WriteReply : Type 0 where
  wrote : ℕ → WriteReply
  failed : Errno → WriteReply

-- A call that returns a descriptor, or -1.
pub data FdReply : Type 0 where
  opened : ℕ → FdReply
  failed : Errno → FdReply

-- `getsockopt(fd, SOL_SOCKET, SO_ERROR, …)`: the pending error if the call succeeds (`none` for 0).
pub data SocketError : Type 0 where
  pending : Option Errno → SocketError
  unavailable : SocketError

-- The bits of `epoll_event.events` that the source uses.
pub record Events : Type 0 where
  pub epoll_in : Bool
  pub epoll_out : Bool
  pub epoll_err : Bool
  pub epoll_hup : Bool
  pub epoll_rdhup : Bool
  pub epoll_et : Bool

-- The operation of `epoll_ctl`, with the event where it takes one; `data.ptr` is a connection.
pub data Ctl : Type 0 where
  add : Events → Option ℕ → Ctl
  modify : Events → Option ℕ → Ctl
  delete : Ctl

-- The socket options that the source sets.
pub data SocketOption : Type 0 where
  reuse_addr keep_alive no_delay reuse_port defer_accept : SocketOption

-- `epoll_wait`: the ready events, each with its `data.ptr`, or -1.
pub data WaitReply : Type 0 where
  ready : List (Events × Option ℕ) → WaitReply
  failed : Errno → WaitReply

pub record Os : Type 1 where
  pub Kernel : Type 0
  pub read : Kernel → Fd → ℕ → ReadReply × Kernel
  pub write : Kernel → Fd → List ℕ → WriteReply × Kernel
  pub close : Kernel → Fd → Kernel
  -- `none` is success.
  pub epoll_ctl : Kernel → Fd → Ctl → Fd → Option Errno × Kernel
  pub epoll_create1 : Kernel → FdReply × Kernel
  pub accept : Kernel → Fd → FdReply × Kernel
  pub socket : Kernel → FdReply × Kernel
  pub epoll_wait : Kernel → Fd → ℕ → ℕ → WaitReply × Kernel
  -- `fcntl` with F_GETFL (`none` is -1) and with F_SETFL.
  pub get_flags : Kernel → Fd → Option ℕ × Kernel
  pub set_flags : Kernel → Fd → ℕ → Option Errno × Kernel
  pub setsockopt : Kernel → Fd → SocketOption → Option Errno × Kernel
  pub connect : Kernel → Fd → List ℕ → ℕ → Option Errno × Kernel
  pub bind : Kernel → Fd → List ℕ → ℕ → Option Errno × Kernel
  pub listen : Kernel → Fd → ℕ → Option Errno × Kernel
  pub socket_error : Kernel → Fd → SocketError × Kernel
  -- `inet_pton`: whether the text is an IPv4 address.
  pub inet_pton : List ℕ → Bool
  -- `clock_gettime(CLOCK_MONOTONIC)`: seconds and nanoseconds, if the call succeeds.
  pub clock_gettime : Kernel → Option (ℕ × ℕ) × Kernel
  -- whether SIGINT or SIGTERM has been delivered
  pub interrupted : Kernel → Bool
  -- whether `calloc` returned memory
  pub calloc : Kernel → Bool × Kernel
  -- `atoll` of a text whose number is out of range, for which POSIX leaves the behaviour undefined
  pub atoll_overflow : List ℕ → ℤ

-- A kernel that never refuses to register a descriptor.
pub record IsReliable (os : Os) : Type 0 where
  pub registers :
      (k : os.Kernel) (epoll_fd fd : Fd) (ev : Events) (conn : Option ℕ)
      → (os.epoll_ctl k epoll_fd (add ev conn) fd).0 ≡ none

-- What POSIX says of the counts that `read` and `write` return.
pub record IsPosix (os : Os) : Type 0 where
  pub read_fits :
      (k k' : os.Kernel) (fd : Fd) (n : ℕ) (xs : List ℕ)
      → os.read k fd n ≡ (received xs, k')
      → length xs ≤ n
  pub write_fits :
      (k k' : os.Kernel) (fd : Fd) (xs : List ℕ) (n : ℕ)
      → os.write k fd xs ≡ (wrote n, k')
      → n ≤ length xs
