-- ===== src/Proxy/Forward/Stream.antt =====
-- forward_data (src/proxy/proxy.c) moves bytes without loss, in order, and inside the buffers.
use epoll_proxy.Connection.{set_conn}
use epoll_proxy.Base.{
  if◌then◌else◌, ◌==◌, ℕ, ◌-◌, ◌≤◌, min, ◌⊎◌, ◌≡◌, ◌++◌, some, arith, length, take, slice,
  slice-blit_after, length-blit, length-slice, take-slice, slice-zero, append-nil, add_size, blit,
}
use epoll_proxy.Config.{Buffer, Config, buffer_size}
use epoll_proxy.Buffer.{clear}
use epoll_proxy.Buffer.Refine.{
  IsValid, contents, length-contents, counters, compact-IsValid, contents-compact, slice-split,
}
use epoll_proxy.Proxy.Forward.{receive, consume, to_copy, forward_data}

-- As many bytes as wait and as fit are moved.
pub to_copy_lem :
    {src dst : Buffer}
    → IsValid src
    → IsValid dst
    → to_copy src dst ≡ min (length (contents src)) (buffer_size - dst.len)
unfolding to_copy
to_copy_lem {src} {dst} v w = ground (arith, counters v, counters w)

module _ {src dst : Buffer} (v : IsValid src) (w : IsValid dst) (n : ℕ)
    (waiting : n ≤ src.len - src.pos) (fits : n ≤ buffer_size - dst.len) where
  appended : Buffer
  appended = record dst {
    bytes = blit dst.bytes dst.len (slice src.pos n src.bytes);
    len = add_size dst.len n;
  }

  length-moved : length (slice src.pos n src.bytes) ≡ n
  length-moved = length-slice src.pos n src.bytes (omega (arith, v.whole, v.inside, v.ordered))

  appended-IsValid : IsValid appended
  unfolding appended
  appended-IsValid =
      ground (arith, v, w, length-moved, length-blit dst.bytes dst.len (slice src.pos n src.bytes))

  contents-appended : contents appended ≡ contents dst ++ take n (contents src)
  unfolding contents appended
  contents-appended = ground (
    arith,
    v,
    w,
    length-moved,
    slice-blit_after dst.bytes dst.pos (dst.len - dst.pos) dst.len (slice src.pos n src.bytes),
    take-slice n src.pos (src.len - src.pos) src.bytes waiting,
  )

  pub receive-IsValid : IsValid (receive src dst n)
  unfolding receive appended
  receive-IsValid =
      ground (arith, appended-IsValid, compact-IsValid {b = appended} appended-IsValid)

  -- What is moved joins the end of the destination's queue.
  pub contents-receive : contents (receive src dst n) ≡ contents dst ++ take n (contents src)
  unfolding receive appended
  contents-receive =
      ground (arith, contents-appended, contents-compact {b = appended} appended-IsValid)

  pub consume-IsValid : IsValid (consume src n)
  unfolding consume clear
  consume-IsValid = ground (arith, v)

  -- And leaves the front of the source's.
  pub contents-consume : contents src ≡ take n (contents src) ++ contents (consume src n)
  unfolding consume contents clear
  contents-consume = ground (
    arith,
    v,
    take-slice n src.pos (src.len - src.pos) src.bytes waiting,
    slice-split n src.pos (src.len - src.pos) src.bytes waiting,
    slice-zero src.pos src.bytes,
    slice-zero 0 src.bytes,
    append-nil (slice src.pos n src.bytes),
  )

module _ (c : Config) (i j : ℕ) where
  abbrev src_of : Config → Buffer
  src_of c = (c.connections i).read_buf

  abbrev dst_of : Config → Buffer
  dst_of c = (c.connections j).write_buf

  pub moved : ℕ
  moved = to_copy (src_of c) (dst_of c)

  -- What `forward_data` leaves in the two buffers that it touches.
  forward_data_buffers :
      let (n, c') = forward_data c (some i) (some j) in
      (n ≡ some moved)
      × (((moved ≡ 0) × (src_of c' ≡ src_of c) × (dst_of c' ≡ dst_of c))
          ⊎ ((src_of c' ≡ consume (src_of c) moved)
              × (dst_of c' ≡ receive (src_of c) (dst_of c) moved)))
  unfolding forward_data moved
  forward_data_buffers = ground arith

  pub moved-le :
      IsValid (src_of c)
      → IsValid (dst_of c)
      → (moved ≤ (src_of c).len - (src_of c).pos) × (moved ≤ buffer_size - (dst_of c).len)
  unfolding moved
  moved-le v w = omega (arith, to_copy_lem v w, length-contents v)

  -- Between two connections whose buffers are valid, `forward_data` moves as many bytes as wait and
  -- as fit, and returns their number: they leave the front of the source's read buffer and join
  -- the end of the destination's write buffer, and both buffers stay valid.
  pub forward_data_stream :
      IsValid (src_of c)
      → IsValid (dst_of c)
      → let (r, c') = forward_data c (some i) (some j) in
        let n = min (length (contents (src_of c))) (buffer_size - (dst_of c).len) in
        (r ≡ some n)
        × (contents (dst_of c') ≡ contents (dst_of c) ++ take n (contents (src_of c)))
        × (contents (src_of c) ≡ take n (contents (src_of c)) ++ contents (src_of c'))
        × IsValid (src_of c')
        × IsValid (dst_of c')
  unfolding moved
  forward_data_stream v w =
      let (small, fits) = moved-le v w in
      ground (
        arith,
        forward_data_buffers,
        to_copy_lem v w,
        append-nil (contents (dst_of c)),
        receive-IsValid v w moved small fits,
        contents-receive v w moved small fits,
        consume-IsValid v w moved small fits,
        contents-consume v w moved small fits,
      )

  -- The two connections that it writes.
  pub forward_data_assigns : (forward_data c (some i) (some j)).1 ≡ (
      if moved == 0
      then c
      else let c' =
          set_conn c j
            (record (c.connections j) { write_buf = receive (src_of c) (dst_of c) moved }) in
        set_conn c' i (record (c'.connections i) { read_buf = consume (src_of c) moved }))
  unfolding forward_data moved
  forward_data_assigns = ground arith
