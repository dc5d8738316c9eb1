-- ===== src/Buffer/Progress.antt =====
-- Each successful call of buffer_read_fd and buffer_write_fd (src/network/buffer.c) makes progress,
-- which bounds the loops of the handlers.
use epoll_proxy.Base.{
  ℕ, zero, suc, ◌+◌, ◌≤◌, ◌<◌, ◌≡◌, ap, arith, length, take, length-append, length-take,
}
use native.Mathlib.Decide.{dec_lt}
use epoll_proxy.Config.{Buffer, Fd, buffer_size}
use epoll_proxy.Kernel.{Os, IsPosix, ReadReply, received, WriteReply, wrote}
use epoll_proxy.Kernel
use epoll_proxy.Buffer.{IoResult, count, error, read_fd, write_fd}
use epoll_proxy.Buffer.Refine.{IsValid, contents, length-contents}
use epoll_proxy.Buffer.Io.{Appends, Removes, read_fd-Appends, write_fd-Removes}

Appends-length :
    (b b' : Buffer) (reply : ReadReply) (r : IoResult) (n : ℕ)
    → Appends b reply r b'
    → r ≡ count (suc n)
    → length (contents b') ≡ length (contents b) + suc n
Appends-length b b' (received xs) r n a e =
    ground (arith, ap length a.1, length-append (contents b) xs)
Appends-length b b' (ReadReply.failed e') r n a e = ground arith

Removes-length :
    (b b' : Buffer) (reply : WriteReply) (r : IoResult) (n : ℕ)
    → Removes b reply r b'
    → 0 < length (contents b)
    → r ≡ count (suc n)
    → length (contents b') < length (contents b)
Removes-length b b' (wrote zero) r n a h e = ground arith
Removes-length b b' (wrote (suc m)) r n a h e = omega (
  arith,
  ap length a.1,
  length-append (take (suc m) (contents b)) (contents b'),
  length-take (suc m) (contents b),
)
Removes-length b b' (WriteReply.failed e') r n a h e = ground arith

module _ (os : Os) (posix : IsPosix os) (k : os.Kernel) (b : Buffer) (fd : Fd) (v : IsValid b) where
  pub read_fd_full : buffer_size ≤ b.len → read_fd os k b fd ≡ (error Kernel.enobufs, b, k)
  unfolding read_fd
  read_fd_full h = ground arith

  pub write_fd_empty : b.len ≤ b.pos → write_fd os k b fd ≡ (count 0, b, k)
  unfolding write_fd
  write_fd_empty h = ground arith

  -- The buffer stays valid, and what was read waits behind what waited before.
  pub read_fd_progress :
      let (r, b', k') = read_fd os k b fd in
      IsValid b'
      × ((n : ℕ) → r ≡ count (suc n) → length (contents b') ≡ length (contents b) + suc n)
  read_fd_progress = elim (dec_lt b.len buffer_size) [
    | yes room ↦
        let (valid, appended, _) = read_fd-Appends os posix k b fd v room in
        (valid, λ n e. Appends-length b _ _ _ n appended e)
    | no full ↦ rw (read_fd_full (omega arith)) (v, λ n e. ground arith)
  ]

  -- The buffer stays valid, and fewer bytes wait after a write that took any.
  pub write_fd_progress :
      let (r, b', k') = write_fd os k b fd in
      IsValid b' × ((n : ℕ) → r ≡ count (suc n) → length (contents b') < length (contents b))
  write_fd_progress = elim (dec_lt b.pos b.len) [
    | yes some_wait ↦
        let (valid, removed, _) = write_fd-Removes os posix k b fd v some_wait in
        (valid, λ n e. Removes-length b _ _ _ n removed (omega (arith, length-contents v)) e)
    | no empty ↦ rw (write_fd_empty (omega arith)) (v, λ n e. ground arith)
  ]
