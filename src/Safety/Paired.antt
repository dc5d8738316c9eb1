-- ===== src/Safety/Paired.antt =====
-- A client and its backend while handle_http_request (src/proxy/proxy.c) pairs them and copies the
-- request.
use epoll_proxy.Base.{
  ℕ, ◌-◌, ◌≤◌, ◌≡◌, ◌≢◌, refl, sym, ◌∙◌, ap, List, [], some, false, arith, take, length,
  length-take, slice, take-slice, slice-blit_front, Bool, blit, slice-front,
}
use epoll_proxy.Config.{Config, Connection, Fd, connecting, writing_response, buffer_size, Buffer}
use epoll_proxy.Http.{Request}
use epoll_proxy.Buffer
use epoll_proxy.Buffer.Refine.{IsValid, contents, contents-clear}
use epoll_proxy.Connection.{pair, reset, set_conn}
use epoll_proxy.Proxy.Request.{with_request}

-- The two connections after a request was sent on its way.
pub record IsForwarded (client backend : ℕ) (fd : Fd) (keep_alive : Bool) (text : List ℕ)
    (c : Config) : Type 0 where
  -- The backend gets the request, and nothing else.
  pub sent : contents (c.connections backend).write_buf ≡ text
  pub descriptor : (c.connections backend).fd ≡ fd
  pub connects : (c.connections backend).state ≡ connecting
  pub to_backend : (c.connections client).peer ≡ some backend
  pub to_client : (c.connections backend).peer ≡ some client
  -- The client waits for the response.
  pub waits : (c.connections client).state ≡ writing_response
  pub emptied : contents (c.connections client).read_buf ≡ []
  pub keeps : (c.connections client).keep_alive ≡ keep_alive

-- The whole request lies at the front of the client's buffer.
pub record IsReceived (b : Buffer) (req : Request) : Type 0 where
  pub front : b.pos ≡ 0
  pub arrived : req.total_length ≤ b.len

unfoldable pub request_bytes : Buffer → Request → List ℕ
request_bytes b req = take req.total_length (contents b)

-- Paired, before the request is copied.
pub record IsPaired (client backend : ℕ) (fd : Fd) (c : Config) : Type 0 where
  pub apart : client ≢ backend
  pub descriptor : (c.connections backend).fd ≡ fd
  pub connects : (c.connections backend).state ≡ connecting
  pub to_backend : (c.connections client).peer ≡ some backend
  pub to_client : (c.connections backend).peer ≡ some client
  pub reading : IsValid (c.connections client).read_buf
  pub whole : length (c.connections backend).write_buf.bytes ≡ buffer_size

contents-with_request :
    (backend client : Connection) (req : Request)
    → IsValid client.read_buf
    → IsReceived client.read_buf req
    → contents (with_request backend client req.total_length).write_buf
      ≡ request_bytes client.read_buf req
unfolding with_request contents request_bytes
contents-with_request backend client req v r =
    let n = req.total_length in
    let bytes = client.read_buf.bytes in
    let dst = backend.write_buf.bytes in
    let m : length (take n bytes) ≡ n =
      omega (arith, length-take n bytes, v.whole, v.inside, r.arrived) in
    ap (λ k. slice 0 k (blit dst 0 (take n bytes)))
      (let e : n - 0 ≡ length (take n bytes) = omega (arith, m) in e)
    ∙ slice-blit_front dst (take n bytes)
    ∙ sym (
        ap (λ p. take n (slice p (client.read_buf.len - p) bytes)) r.front
        ∙ take-slice n 0 (client.read_buf.len - 0) bytes (omega (arith, r.arrived))
        ∙ slice-front n bytes)

kept-with_request :
    (backend client : Connection) (n : ℕ)
    → ((with_request backend client n).fd ≡ backend.fd)
      × ((with_request backend client n).state ≡ backend.state)
      × ((with_request backend client n).peer ≡ backend.peer)
unfolding with_request
kept-with_request backend client n = (refl, refl, refl)

pub copied-IsForwarded :
    (client backend : ℕ) (fd : Fd) (req : Request) (c : Config)
    → IsPaired client backend fd c
    → IsReceived (c.connections client).read_buf req
    → let conn = c.connections client in
      let copied =
        set_conn c backend (with_request (c.connections backend) conn req.total_length) in
      let cleared = set_conn copied client (record (copied.connections client) {
        read_buf = Buffer.clear (copied.connections client).read_buf;
        keep_alive = req.keep_alive;
      }) in
      IsForwarded client backend fd req.keep_alive
        (request_bytes conn.read_buf req)
        (set_conn cleared client (record (cleared.connections client) { state = writing_response }))
copied-IsForwarded client backend fd req c p r =
    let conn = c.connections client in
    let same = contents-with_request (c.connections backend) conn req p.reading r in
    let kept = kept-with_request (c.connections backend) conn req.total_length in
    record {
      sent = ground (arith, same, p.apart);
      descriptor = ground (arith, kept, p.apart, p.descriptor);
      connects = ground (arith, kept, p.apart, p.connects);
      to_backend = ground (arith, p.apart, p.to_backend);
      to_client = ground (arith, kept, p.apart, p.to_client);
      waits = ground arith;
      emptied = ground (arith, contents-clear conn.read_buf, p.apart);
      keeps = ground arith;
    }

-- Opening a backend and pairing it.
pub pair-IsPaired :
    (c : Config) (client backend : ℕ) (fd : Fd) (now : ℕ)
    → client ≢ backend
    → IsValid (c.connections client).read_buf
    → length (c.connections backend).write_buf.bytes ≡ buffer_size
    → IsPaired client backend fd (
        pair
          (set_conn c backend (reset (c.connections backend) fd false connecting now))
          client
          backend)
unfolding pair reset Buffer.clear
pair-IsPaired c client backend fd now ne v w = record {
  apart = ne;
  descriptor = ground arith;
  connects = ground arith;
  to_backend = ground (arith, ne);
  to_client = ground arith;
  reading = ground (arith, ne, v);
  whole = ground (arith, w);
}

-- And leaves the request and the bytes of the client alone.
pub pair-SameRequest :
    (c : Config) (client backend : ℕ) (conn : Connection)
    → client ≢ backend
    → let conn' = (pair (set_conn c backend conn) client backend).connections client in
      (conn'.read_buf ≡ (c.connections client).read_buf)
      × (conn'.http_req ≡ (c.connections client).http_req)
unfolding pair
pair-SameRequest c client backend conn ne = ground arith
