-- ===== src/Buffer.antt =====
-- src/network/buffer.c: a sliding window over an array.
pub mod Refine
pub mod Io
pub mod Progress
pub mod Queue
use epoll_proxy.Base.{
  ℕ, ◌+◌, List, [], ◌∷◌, Bool, ◌==◌, leb, if◌then◌else◌, length, replicate, slice, blit, add_size,
  sub_size,
}
use epoll_proxy.Config.{Buffer, Fd, buffer_size}
use epoll_proxy.Kernel.{Errno, enobufs, eagain, ReadReply, received, WriteReply, wrote, Os}
use epoll_proxy.Kernel

-- What `buffer_read_fd` and `buffer_write_fd` return: a count, or -1 with `errno`.
pub data IoResult : Type 0 where
  count : ℕ → IoResult
  error : Errno → IoResult

pub init : Buffer
init = record { bytes = replicate buffer_size 0; len = 0; pos = 0 }

unfoldable pub clear : Buffer → Buffer
clear b = record b { len = 0; pos = 0 }

abbrev pub is_full : Buffer → Bool
is_full b = leb buffer_size b.len

abbrev pub is_empty : Buffer → Bool
is_empty b = leb b.len b.pos

unfoldable pub readable_bytes : Buffer → ℕ
readable_bytes b = sub_size b.len b.pos

unfoldable pub writable_bytes : Buffer → ℕ
writable_bytes b = sub_size buffer_size b.len

-- `memmove` copies as if through a buffer of its own, so it is `blit` of the old range.
unfoldable pub compact : Buffer → Buffer
compact b =
    if b.pos == 0 then b else if leb b.len b.pos then record b { pos = 0; len = 0 } else record {
      bytes = blit b.bytes 0 (slice b.pos (sub_size b.len b.pos) b.bytes);
      pos = 0;
      len = sub_size b.len b.pos;
    }

-- What `buffer_read_fd` does with the reply of `read`.
unfoldable pub fill : Buffer → ReadReply → IoResult × Buffer
fill b (received []) = (count 0, b)
fill b (received (x ∷ xs)) = (
  count (length (x ∷ xs)),
  record b { bytes = blit b.bytes b.len (x ∷ xs); len = add_size b.len (length (x ∷ xs)) },
)
fill b (ReadReply.failed e) = (error e, b)

-- What `buffer_write_fd` does with the reply of `write`; the count 0 is reported as EAGAIN.
unfoldable pub drain : Buffer → WriteReply → IoResult × Buffer
drain b (wrote n) = if n == 0 then (error eagain, b) else (
  count n,
  (if leb b.len (add_size b.pos n)
      then record b { pos = 0; len = 0 }
      else record b { pos = add_size b.pos n }),
)
drain b (WriteReply.failed e) = (error e, b)

module _ (os : Os) where
  open os use {Kernel, read, write}

  -- A full buffer is refused before the call.
  pub read_fd : Kernel → Buffer → Fd → IoResult × Buffer × Kernel
  read_fd k b fd =
      if leb buffer_size b.len
      then (error enobufs, b, k)
      else let (reply, k') = read k fd (sub_size buffer_size b.len) in
        let (r, b') = fill b reply in (r, b', k')

  -- An empty buffer makes no call.
  unfoldable pub write_fd : Kernel → Buffer → Fd → IoResult × Buffer × Kernel
  write_fd k b fd =
      if leb b.len b.pos
      then (count 0, b, k)
      else let (reply, k') = write k fd (slice b.pos (sub_size b.len b.pos) b.bytes) in
        let (r, b') = drain b reply in (r, b', k')
