-- ===== src/Proxy/Forward.antt =====
-- forward_data (src/proxy/proxy.c): bytes go from the read buffer of one connection to the write
-- buffer of another.
pub mod Stream
use epoll_proxy.Base.{
  ℕ, Option, none, some, ◌&&◌, ◌==◌, ltb, leb, if◌then◌else◌, add_size, slice, blit,
}
use epoll_proxy.Config.{Buffer, Config}
use epoll_proxy.Connection.{set_conn}
use epoll_proxy.Buffer

-- `dst->write_buf` after the copy of `n` bytes, compacted when little room is left.
unfoldable pub receive : Buffer → Buffer → ℕ → Buffer
receive src dst n =
    let dst' : Buffer = record dst {
      bytes = blit dst.bytes dst.len (slice src.pos n src.bytes);
      len = add_size dst.len n;
    } in
    if ltb 0 dst'.pos && ltb (Buffer.writable_bytes dst') 1024 then Buffer.compact dst' else dst'

-- `src->read_buf` after it, cleared when all is read.
unfoldable pub consume : Buffer → ℕ → Buffer
consume src n =
    let src' : Buffer = record src { pos = add_size src.pos n } in
    if leb src'.len src'.pos then Buffer.clear src' else src'

-- The number of bytes that are moved.
unfoldable pub to_copy : Buffer → Buffer → ℕ
to_copy src dst =
    let available = Buffer.readable_bytes src in
    let space = Buffer.writable_bytes dst in
    if available == 0
    then 0
    else if space == 0
    then 0
    else if ltb available space
    then available
    else space

-- `none` is the return value -1.
unfoldable pub forward_data : Config → Option ℕ → Option ℕ → Option ℕ × Config
forward_data c none dst = (none, c)
forward_data c (some i) none = (none, c)
forward_data c (some i) (some j) =
    let src = (c.connections i).read_buf in
    let dst = (c.connections j).write_buf in
    let n = to_copy src dst in
    if n == 0
    then (some 0, c)
    else let c' = set_conn c j (record (c.connections j) { write_buf = receive src dst n }) in
      (some n, set_conn c' i (record (c'.connections i) { read_buf = consume src n }))
