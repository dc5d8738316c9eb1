-- ===== src/Relay/Flow.antt =====
-- One way through a pair of connections: from the read buffer of the one to the write buffer of
-- the other.
use epoll_proxy.Base.{
  ℕ, ◌≡◌, ◌≢◌, refl, sym, ap, subst, ◌∙◌, List, ◌++◌, some, false, ◌&&◌, ◌⊎◌, inl, inr,
}
use epoll_proxy.Config.{Config, Fd, closed}
use epoll_proxy.Kernel.{Os}
use epoll_proxy.Buffer.Refine.{IsValid, contents}
use epoll_proxy.State.{State}
use epoll_proxy.Proxy.Events.{is_http}
use epoll_proxy.Relay.Traffic.{IsRecorded}

-- The connection that is read and the one that is written to, their descriptors, and how things
-- stood at the start: what had come in before, and what had gone out or waited.
pub record Way : Type 0 where
  pub source : ℕ
  pub target : ℕ
  pub source_fd : Fd
  pub target_fd : Fd
  pub came_before : List ℕ
  pub sent_or_waiting : List ℕ

-- The bytes on the way, those that go out next first.
abbrev pub on_way : ℕ → ℕ → Config → List ℕ
on_way i j c = contents (c.connections j).write_buf ++ contents (c.connections i).read_buf

-- The pair is whole. A client in HTTP mode is no source: its bytes go through the parser.
pub record IsLinked (p : Way) (c : Config) : Type 0 where
  pub apart : p.source ≢ p.target
  pub fds_apart : p.source_fd ≢ p.target_fd
  pub source_is : (c.connections p.source).fd ≡ p.source_fd
  pub target_is : (c.connections p.target).fd ≡ p.target_fd
  pub peer_is : (c.connections p.source).peer ≡ some p.target
  pub plain : (is_http c.mode && (c.connections p.source).is_client) ≡ false
  pub reading : IsValid (c.connections p.source).read_buf
  pub writing : IsValid (c.connections p.target).write_buf

-- An assignment that leaves all of this alone.
pub record SameWay (p : Way) (c c' : Config) : Type 0 where
  pub same_mode : c'.mode ≡ c.mode
  pub same_source_fd : (c'.connections p.source).fd ≡ (c.connections p.source).fd
  pub same_target_fd : (c'.connections p.target).fd ≡ (c.connections p.target).fd
  pub same_peer : (c'.connections p.source).peer ≡ (c.connections p.source).peer
  pub same_client : (c'.connections p.source).is_client ≡ (c.connections p.source).is_client
  pub same_read : (c'.connections p.source).read_buf ≡ (c.connections p.source).read_buf
  pub same_write : (c'.connections p.target).write_buf ≡ (c.connections p.target).write_buf

pub SameWay-IsLinked : (p : Way) (c c' : Config) → SameWay p c c' → IsLinked p c → IsLinked p c'
SameWay-IsLinked p c c' q l = record {
  apart = l.apart;
  fds_apart = l.fds_apart;
  source_is = q.same_source_fd ∙ l.source_is;
  target_is = q.same_target_fd ∙ l.target_is;
  peer_is = q.same_peer ∙ l.peer_is;
  plain = rw (q.same_mode, q.same_client) l.plain;
  reading = subst IsValid (sym q.same_read) l.reading;
  writing = subst IsValid (sym q.same_write) l.writing;
}

pub SameWay-on_way :
    (p : Way) (c c' : Config)
    → SameWay p c c'
    → on_way p.source p.target c' ≡ on_way p.source p.target c
SameWay-on_way p c c' q = rw (q.same_read, q.same_write) refl

module _ ⦃os : Os⦄ (rec : IsRecorded os) (p : Way) where
  abbrev pub came : State → List ℕ
  came s = (rec.seen s.kernel).came p.source_fd

  abbrev pub went : State → List ℕ
  went s = (rec.seen s.kernel).went p.target_fd

  -- What went out and what is on the way are together what was there at the start and what came in
  -- since, in this order.
  pub record IsFlowing (s : State) : Type 0 where
    pub linked : IsLinked p s.config
    pub new : List ℕ
    pub arrived : came s ≡ p.came_before ++ new
    pub in_order : went s ++ on_way p.source p.target s.config ≡ p.sent_or_waiting ++ new

  -- The target is closed; the bytes that were on the way are lost.
  pub record IsCut (s : State) : Type 0 where
    pub target_closed : (s.config.connections p.target).state ≡ closed
    pub new : List ℕ
    pub lost : List ℕ
    pub arrived : came s ≡ p.came_before ++ new
    pub in_order : went s ++ lost ≡ p.sent_or_waiting ++ new

  abbrev pub Outcome : State → Type 0
  Outcome s = IsFlowing s ⊎ IsCut s

  pub SameWay-IsFlowing :
      (s s' : State)
      → SameWay p s.config s'.config
      → came s' ≡ came s
      → went s' ≡ went s
      → IsFlowing s
      → IsFlowing s'
  SameWay-IsFlowing s s' q e e' f = record {
    linked = SameWay-IsLinked p s.config s'.config q f.linked;
    new = f.new;
    arrived = e ∙ f.arrived;
    in_order =
        ap (λ xs. xs ++ on_way p.source p.target s'.config) e'
        ∙ ap (λ xs. went s ++ xs) (SameWay-on_way p s.config s'.config q)
        ∙ f.in_order;
  }

  pub IsCut-of_flow :
      (s s' : State)
      → (s'.config.connections p.target).state ≡ closed
      → rec.seen s'.kernel ≡ rec.seen s.kernel
      → IsFlowing s
      → IsCut s'
  IsCut-of_flow s s' h e f = record {
    target_closed = h;
    new = f.new;
    lost = on_way p.source p.target s.config;
    arrived = ap (λ t. t.came p.source_fd) e ∙ f.arrived;
    in_order = ap (λ t. t.went p.target_fd ++ on_way p.source p.target s.config) e ∙ f.in_order;
  }

  pub silent-Outcome :
      (s : State) (k : os.Kernel)
      → rec.seen k ≡ rec.seen s.kernel
      → Outcome s
      → Outcome (record s { kernel = k })
  silent-Outcome s k e (inl f) = inl (record {
    linked = f.linked;
    new = f.new;
    arrived = ap (λ t. t.came p.source_fd) e ∙ f.arrived;
    in_order = ap (λ t. t.went p.target_fd ++ on_way p.source p.target s.config) e ∙ f.in_order;
  })
  silent-Outcome s k e (inr f) = inr (record {
    target_closed = f.target_closed;
    new = f.new;
    lost = f.lost;
    arrived = ap (λ t. t.came p.source_fd) e ∙ f.arrived;
    in_order = ap (λ t. t.went p.target_fd ++ f.lost) e ∙ f.in_order;
  })
