-- ===== src/Buffer/Io.antt =====
-- buffer_read_fd and buffer_write_fd (src/network/buffer.c) against the replies of the kernel.
use epoll_proxy.Base.{
  subst, ℕ, zero, suc, ◌-◌, ◌≤◌, ◌<◌, ◌≡◌, refl, List, [], ◌∷◌, ◌++◌, arith, length, take,
}
use epoll_proxy.Config.{Buffer, Fd, buffer_size}
use epoll_proxy.Kernel.{Os, IsPosix, ReadReply, received, WriteReply, wrote, eagain}
use epoll_proxy.Buffer.{IoResult, count, error, fill, drain, read_fd, write_fd}
use epoll_proxy.Buffer.Refine.{
  IsValid, contents, length-contents, fill-IsValid, fill_appends, drain-IsValid, drain_removes,
}

-- The result and the buffer after a reply of `read`: what came is appended, and a failure is
-- passed on and changes nothing.
abbrev pub Appends : Buffer → ReadReply → IoResult → Buffer → Type 0
Appends b (received xs) r b' = (r ≡ count (length xs)) × (contents b' ≡ contents b ++ xs)
Appends b (ReadReply.failed e) r b' = (r ≡ error e) × (b' ≡ b)

-- The same for `write`: what was taken leaves from the front, and a count of 0 is EAGAIN.
abbrev pub Removes : Buffer → WriteReply → IoResult → Buffer → Type 0
Removes b (wrote zero) r b' = (r ≡ error eagain) × (b' ≡ b)
Removes b (wrote (suc n)) r b' =
    (r ≡ count (suc n)) × (contents b ≡ take (suc n) (contents b) ++ contents b')
Removes b (WriteReply.failed e) r b' = (r ≡ error e) × (b' ≡ b)

abbrev Fits : ℕ → ReadReply → Type 0
Fits n (received xs) = length xs ≤ n
Fits n (ReadReply.failed e) = Unit

abbrev FitsWrite : ℕ → WriteReply → Type 0
FitsWrite n (wrote m) = m ≤ n
FitsWrite n (WriteReply.failed e) = Unit

fill-Appends :
    (b : Buffer) (reply : ReadReply)
    → IsValid b
    → Fits (buffer_size - b.len) reply
    → let (r, b') = fill b reply in IsValid b' × Appends b reply r b'
unfolding fill
fill-Appends b (received []) v h = (fill-IsValid [] v h, (refl, fill_appends [] v h))
fill-Appends b (received (x ∷ xs)) v h =
    (fill-IsValid (x ∷ xs) v h, (refl, fill_appends (x ∷ xs) v h))
fill-Appends b (ReadReply.failed e) v h = (v, (refl, refl))

drain-Removes :
    (b : Buffer) (reply : WriteReply)
    → IsValid b
    → FitsWrite (b.len - b.pos) reply
    → let (r, b') = drain b reply in IsValid b' × Removes b reply r b'
unfolding drain
drain-Removes b (wrote zero) v h = (v, (refl, refl))
drain-Removes b (wrote (suc n)) v h =
    (drain-IsValid (suc n) v h, (ground arith, drain_removes (suc n) v h))
drain-Removes b (WriteReply.failed e) v h = (v, (refl, refl))

module _ (os : Os) (posix : IsPosix os) (k : os.Kernel) (b : Buffer) (fd : Fd) where
  read-Fits :
      (n : ℕ) (reply : ReadReply) (k' : os.Kernel) → os.read k fd n ≡ (reply, k') → Fits n reply
  read-Fits n (received xs) k' e = posix.read_fits k k' fd n xs e
  read-Fits n (ReadReply.failed e') k' e = tt

  write-FitsWrite :
      (xs : List ℕ) (reply : WriteReply) (k' : os.Kernel)
      → os.write k fd xs ≡ (reply, k')
      → FitsWrite (length xs) reply
  write-FitsWrite xs (wrote n) k' e = posix.write_fits k k' fd xs n e
  write-FitsWrite xs (WriteReply.failed e') k' e = tt

  read_fd-eq :
      IsValid b
      → b.len < buffer_size
      → read_fd os k b fd ≡ (
          let (reply, k') = os.read k fd (buffer_size - b.len) in
          let (r, b') = fill b reply in (r, b', k'))
  unfolding read_fd
  read_fd-eq v h = ground arith

  write_fd-eq :
      IsValid b
      → b.pos < b.len
      → write_fd os k b fd ≡ (
          let (reply, k') = os.write k fd (contents b) in
          let (r, b') = drain b reply in (r, b', k'))
  unfolding write_fd contents
  write_fd-eq v h = ground arith

  -- A valid buffer with room asks `read` for exactly the room that is left; it stays valid, the
  -- bytes that `read` stored are appended to those that wait, and the number read (0 at end of
  -- file) is returned. A failure is passed on and leaves the buffer alone.
  pub read_fd-Appends :
      IsValid b
      → b.len < buffer_size
      → let (reply, k') = os.read k fd (buffer_size - b.len) in
        let (r, b', k'') = read_fd os k b fd in IsValid b' × Appends b reply r b' × (k'' ≡ k')
  read_fd-Appends v h =
      let (reply, k') = os.read k fd (buffer_size - b.len) in
      let (valid, appended) = fill-Appends b reply v (read-Fits _ reply k' refl) in
      rw (read_fd-eq v h) (valid, appended, refl)

  -- A valid buffer with bytes that wait offers `write` exactly those; it stays valid, the bytes
  -- taken leave it from the front, and their number is returned. A failure, or a count of 0, which
  -- becomes EAGAIN, leaves the buffer alone.
  pub write_fd-Removes :
      IsValid b
      → b.pos < b.len
      → let (reply, k') = os.write k fd (contents b) in
        let (r, b', k'') = write_fd os k b fd in IsValid b' × Removes b reply r b' × (k'' ≡ k')
  write_fd-Removes v h =
      let (reply, k') = os.write k fd (contents b) in
      let fits : FitsWrite (b.len - b.pos) reply =
        subst (λ n. FitsWrite n reply) (length-contents v) (write-FitsWrite _ reply k' refl) in
      let (valid, removed) = drain-Removes b reply v fits in
      rw (write_fd-eq v h) (valid, removed, refl)
