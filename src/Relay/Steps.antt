-- ===== src/Relay/Steps.antt =====
-- What the assignments of the handlers (src/proxy/proxy.c) do to one way through a pair.
use epoll_proxy.Base.{ℕ, ◌≡◌, ◌≢◌, refl, sym, ◌∙◌, ap, ◌++◌, arith, append_assoc}
use epoll_proxy.Config.{Config, Stats, Buffer}
use epoll_proxy.Kernel.{Os}
use epoll_proxy.Buffer.Refine.{IsValid, contents}
use epoll_proxy.Connection.{set_conn}
use epoll_proxy.State.{State}
use epoll_proxy.Relay.Traffic.{IsRecorded}
use epoll_proxy.Relay.Flow.{Way, on_way, IsLinked, SameWay, IsFlowing, went}
use epoll_proxy.Relay.Bytes.{CameIn, WentOut}

pub touched-SameWay :
    (p : Way) (c : Config) (k now : ℕ) (st : Stats)
    → SameWay p c
        (record (set_conn c k (record (c.connections k) { last_active = now })) { stats = st })
touched-SameWay p c k now st = record {
  same_mode = refl;
  same_source_fd = ground arith;
  same_target_fd = ground arith;
  same_peer = ground arith;
  same_client = ground arith;
  same_read = ground arith;
  same_write = ground arith;
}

abbrev with_read : Config → ℕ → Buffer → Config
with_read c i b = set_conn c i (record (c.connections i) { read_buf = b })

abbrev with_write : Config → ℕ → Buffer → Config
with_write c j b = set_conn c j (record (c.connections j) { write_buf = b })

with_read-IsLinked :
    (p : Way) (c : Config) (b : Buffer)
    → IsLinked p c
    → IsValid b
    → IsLinked p (with_read c p.source b)
with_read-IsLinked p c b l v = record {
  apart = l.apart;
  fds_apart = l.fds_apart;
  source_is = ground (arith, l.source_is);
  target_is = ground (arith, l.target_is);
  peer_is = ground (arith, l.peer_is);
  plain = ground (arith, l.plain);
  reading = ground (arith, v);
  writing = ground (arith, l.writing);
}

with_write-IsLinked :
    (p : Way) (c : Config) (b : Buffer)
    → IsLinked p c
    → IsValid b
    → IsLinked p (with_write c p.target b)
with_write-IsLinked p c b l v = record {
  apart = l.apart;
  fds_apart = l.fds_apart;
  source_is = ground (arith, l.source_is);
  target_is = ground (arith, l.target_is);
  peer_is = ground (arith, l.peer_is);
  plain = ground (arith, l.plain);
  reading = ground (arith, l.reading);
  writing = ground (arith, v);
}

on_way-with_read :
    (i j : ℕ) (c : Config) (b : Buffer)
    → i ≢ j
    → on_way i j (with_read c i b) ≡ contents (c.connections j).write_buf ++ contents b
on_way-with_read i j c b ne = ground arith

on_way-with_write :
    (i j : ℕ) (c : Config) (b : Buffer)
    → i ≢ j
    → on_way i j (with_write c j b) ≡ contents b ++ contents (c.connections i).read_buf
on_way-with_write i j c b ne = ground arith

module _ ⦃os : Os⦄ (rec : IsRecorded os) (p : Way) where
  pub CameIn-IsFlowing :
      (s : State) (b : Buffer) (k : os.Kernel)
      → IsFlowing rec p s
      → CameIn
          (s.config.connections p.source).read_buf
          b
          p.source_fd
          (rec.seen s.kernel)
          (rec.seen k)
      → IsFlowing rec p (record s { config = with_read s.config p.source b; kernel = k })
  CameIn-IsFlowing s b k f m =
      let out = (s.config.connections p.target).write_buf in
      let wait = (s.config.connections p.source).read_buf in
      record {
        linked = with_read-IsLinked p s.config b f.linked m.valid;
        new = f.new ++ m.bytes;
        arrived =
            m.came ∙ ap (λ xs. xs ++ m.bytes) f.arrived ∙ append_assoc p.came_before f.new m.bytes;
        in_order =
            ap (λ xs. xs p.target_fd ++ on_way p.source p.target (with_read s.config p.source b))
              m.same_went
            ∙ ap (λ xs. went rec p s ++ xs)
                (on_way-with_read p.source p.target s.config b f.linked.apart
                  ∙ ap (λ xs. contents out ++ xs) m.joined
                  ∙ sym (append_assoc (contents out) (contents wait) m.bytes))
            ∙ sym (append_assoc (went rec p s) (contents out ++ contents wait) m.bytes)
            ∙ ap (λ xs. xs ++ m.bytes) f.in_order
            ∙ append_assoc p.sent_or_waiting f.new m.bytes;
      }

  pub WentOut-IsFlowing :
      (s : State) (b : Buffer) (k : os.Kernel)
      → IsFlowing rec p s
      → WentOut
          (s.config.connections p.target).write_buf
          b
          p.target_fd
          (rec.seen s.kernel)
          (rec.seen k)
      → IsFlowing rec p (record s { config = with_write s.config p.target b; kernel = k })
  WentOut-IsFlowing s b k f m =
      let out = (s.config.connections p.target).write_buf in
      let wait = (s.config.connections p.source).read_buf in
      record {
        linked = with_write-IsLinked p s.config b f.linked m.valid;
        new = f.new;
        arrived = ap (λ xs. xs p.source_fd) m.same_came ∙ f.arrived;
        in_order =
            ap (λ xs. xs ++ on_way p.source p.target (with_write s.config p.target b)) m.went
            ∙ ap (λ xs. (went rec p s ++ m.bytes) ++ xs)
                (on_way-with_write p.source p.target s.config b f.linked.apart)
            ∙ append_assoc (went rec p s) m.bytes (contents b ++ contents wait)
            ∙ ap (λ xs. went rec p s ++ xs)
                (sym (append_assoc m.bytes (contents b) (contents wait))
                  ∙ ap (λ xs. xs ++ contents wait) (sym m.left))
            ∙ f.in_order;
      }
