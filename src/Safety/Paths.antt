-- ===== src/Safety/Paths.antt =====
-- The bytes on their way from a connection to its peer: forward_data (src/proxy/proxy.c) against
-- the invariant.
use epoll_proxy.Base.{
  ℕ, ◌+◌, ◌*◌, ◌<◌, ◌≤◌, ◌≡◌, refl, ◌∙◌, ap, Option, none, some, arith, length, ◌==◌, Bool-cases,
  inl, inr,
}
use epoll_proxy.Config.{Config, Connection, Stats, Buffer, max_connections, buffer_size}
use epoll_proxy.Http.{Request}
use epoll_proxy.Buffer.Refine.{contents, length-contents}
use epoll_proxy.Connection.{set_conn}
use epoll_proxy.Connection.Pool.Steps.{proper}
use epoll_proxy.Proxy.Forward.{forward_data, receive, consume}
use epoll_proxy.Proxy.Forward.Stream.{
  moved, moved-le, forward_data_assigns, receive-IsValid, consume-IsValid,
}
use epoll_proxy.Safety.{IsOpen, IsValid}
use epoll_proxy.Safety.Touch.{touch-IsValid, touch-IsOpen}

-- The bytes that wait on the way from a connection to its peer.
abbrev pub on_the_way : Config → ℕ → Option ℕ → ℕ
on_the_way c i none = length (contents (c.connections i).read_buf)
on_the_way c i (some j) =
    length (contents (c.connections i).read_buf) + length (contents (c.connections j).write_buf)

-- For the peer that it has.
abbrev pub path : Config → ℕ → ℕ
path c i = on_the_way c i (c.connections i).peer

-- The buffers and the peers are as they were.
pub record SamePaths (c c' : Config) : Type 0 where
  same_read : (k : ℕ) → (c'.connections k).read_buf ≡ (c.connections k).read_buf
  same_write : (k : ℕ) → (c'.connections k).write_buf ≡ (c.connections k).write_buf
  same_peer : (k : ℕ) → (c'.connections k).peer ≡ (c.connections k).peer

pub on_the_way-same :
    (c c' : Config) (i : ℕ) (peer : Option ℕ)
    → SamePaths c c'
    → on_the_way c' i peer ≡ on_the_way c i peer
on_the_way-same c c' i none q = ap (λ b. length (contents b)) (q.same_read i)
on_the_way-same c c' i (some j) q = omega (
  arith,
  ap (λ b. length (contents b)) (q.same_read i),
  ap (λ b. length (contents b)) (q.same_write j),
)

pub path-same : (c c' : Config) (i : ℕ) → SamePaths c c' → path c' i ≡ path c i
path-same c c' i q = ap (on_the_way c' i) (q.same_peer i) ∙ on_the_way-same c c' i _ q

-- More bytes came in.
on_the_way_more :
    (c : Config) (i n : ℕ) (b : Buffer) (peer : Option ℕ)
    → length (contents b) ≡ length (contents (c.connections i).read_buf) + n
    → on_the_way (set_conn c i (record (c.connections i) { read_buf = b })) i peer
      ≡ on_the_way c i peer + n
on_the_way_more c i n b none e = ground (arith, e)
on_the_way_more c i n b (some j) e = ground (arith, e)

pub path_more :
    (c : Config) (i n : ℕ) (b : Buffer)
    → length (contents b) ≡ length (contents (c.connections i).read_buf) + n
    → path (set_conn c i (record (c.connections i) { read_buf = b })) i ≡ path c i + n
path_more c i n b e =
    let c' : Config = set_conn c i (record (c.connections i) { read_buf = b }) in
    let same : (c'.connections i).peer ≡ (c.connections i).peer = ground arith in
    ap (on_the_way c' i) same ∙ on_the_way_more c i n b _ e

module _ {T : Type 0} {c : Config} {heap : ℕ → Option Request} {next : ℕ} where
  pub on_the_way-le :
      (i : ℕ) (peer : Option ℕ)
      → IsValid T c heap next
      → i < max_connections
      → (c.connections i).peer ≡ peer
      → on_the_way c i peer ≤ 2 * buffer_size
  on_the_way-le i none v h e =
      let p = (v.sound.buffers i h).0 in omega (arith, length-contents p, p.inside)
  on_the_way-le i (some j) v h e =
      let p = (v.sound.buffers i h).0 in
      let q = (v.sound.buffers j (v.sound.peers i j h e)).1 in
      omega (arith, length-contents p, p.inside, length-contents q, q.inside)

  pub forward_data-IsValid :
      (i j : ℕ)
      → IsValid T c heap next
      → IsOpen c i
      → j < max_connections
      → IsValid T (forward_data c (some i) (some j)).1 heap next
        × IsOpen (forward_data c (some i) (some j)).1 i
  forward_data-IsValid i j v o hj =
      rw (forward_data_assigns c i j) (elim (Bool-cases (moved c i j == 0)) [
        | inl e ↦ rw e (v, o)
        | inr e ↦
            let src = (v.sound.buffers i o.0).0 in
            let dst = (v.sound.buffers j hj).1 in
            let (waits, fits) = moved-le c i j src dst in
            let p = proper v.sound j hj in
            let to : Connection = record (c.connections j) {
              write_buf =
                  receive (c.connections i).read_buf (c.connections j).write_buf (moved c i j);
            } in
            let v' : IsValid T (set_conn c j to) heap next =
              touch-IsValid j to v
                (record {
                  reading = p.reading;
                  writing = receive-IsValid src dst (moved c i j) waits fits;
                  peer_in = p.peer_in;
                })
                (record { state = refl; client = refl; request = refl }) in
            let o' = touch-IsOpen c j i to refl o in
            let q = proper v'.sound i o.0 in
            let from : Connection = record ((set_conn c j to).connections i) {
              read_buf = consume (c.connections i).read_buf (moved c i j);
            } in
            rw e (
              touch-IsValid i from v'
                  (record {
                    reading = consume-IsValid src dst (moved c i j) waits fits;
                    writing = q.writing;
                    peer_in = q.peer_in;
                  })
                  (record { state = refl; client = refl; request = refl }),
              touch-IsOpen (set_conn c j to) i i from refl o',
            )
      ])

pub peer-forward_data :
    (c : Config) (i j k : ℕ)
    → ((forward_data c (some i) (some j)).1.connections k).peer ≡ (c.connections k).peer
unfolding forward_data
peer-forward_data c i j k = ground arith

pub forward_data-none : (c : Config) (i : ℕ) → forward_data c (some i) none ≡ (none, c)
unfolding forward_data
forward_data-none c i = refl

pub touched-SamePaths :
    (c : Config) (i now : ℕ) (st : Stats)
    → SamePaths c
        (record (set_conn c i (record (c.connections i) { last_active = now })) { stats = st })
touched-SamePaths c i now st = record {
  same_read = λ k. ground arith;
  same_write = λ k. ground arith;
  same_peer = λ k. ground arith;
}
