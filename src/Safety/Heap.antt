-- ===== src/Safety/Heap.antt =====
-- The requests on the heap: what is live can be read, and a write to it keeps the invariant.
use epoll_proxy.Base.{ℕ, Option, some, arith, ◌==◌, if◌then◌else◌, ◌≡◌}
use epoll_proxy.Config.{Config, update}
use epoll_proxy.Kernel.{Os}
use epoll_proxy.Http.{Request}
use epoll_proxy.State.{State, M, and_then, load, store}
use epoll_proxy.Safety.{IsLive, IsValid, IsSafe, Ensures}

IsLive-update :
    (heap : ℕ → Option Request) (next a : ℕ) (req : Request) (p : Option ℕ)
    → IsLive heap next p
    → IsLive (update heap a (some req)) next p
IsLive-update heap next a req p l = record {
  address = l.address;
  request = if a == l.address then req else l.request;
  is_address = l.is_address;
  below = l.below;
  held = ground (arith, l);
}

pub store-IsValid :
    {T : Type 0} {c : Config} {heap : ℕ → Option Request} {next : ℕ} (a : ℕ) (req : Request)
    → IsValid T c heap next
    → IsValid T c (update heap a (some req)) next
store-IsValid a req v = record {
  sound = v.sound;
  live = λ m i q. IsLive-update _ _ a req _ (v.live m i q);
  apart = v.apart;
  unused = v.unused;
  owned = λ t.
      let o = v.owned t in
      record { lives = λ i h n. IsLive-update _ _ a req _ (o.lives i h n); alone = o.alone };
}

module _ ⦃os : Os⦄ where
  -- Reading a live request.
  pub after_load :
      {B : Type 0} {Q : B → State → Type 0} (p : Option ℕ) (s : State) (f : Request → M B)
      → IsLive s.heap s.next p
      → ((req : Request) → Ensures Q (f req s))
      → Ensures Q (and_then (load p s) f)
  unfolding load
  after_load p s f l h = rw (l.is_address, load) (rw (l.held, load) (h l.request))

  -- The same where it is known.
  pub after_load-held :
      {B : Type 0} {Q : B → State → Type 0} (p : Option ℕ) (a : ℕ) (req : Request) (s : State)
      (f : Request → M B)
      → p ≡ some a
      → s.heap a ≡ some req
      → Ensures Q (f req s)
      → Ensures Q (and_then (load p s) f)
  unfolding load
  after_load-held p a req s f e h q = rw (e, load) (rw (h, load) q)

  -- Writing it.
  pub after_store :
      {B : Type 0} {Q : B → State → Type 0} (p : Option ℕ) (req : Request) (s : State)
      (f : Unit {0} → M B)
      → IsLive s.heap s.next p
      → IsSafe s
      → ((heap : ℕ → Option Request)
          → IsSafe (record s { heap = heap })
          → Ensures Q (f tt (record s { heap = heap })))
      → Ensures Q (and_then (store p req s) f)
  unfolding store
  after_store p req s f l v h =
      rw (l.is_address, store) (rw (l.held, store) (h _ (store-IsValid l.address req v)))

  pub after_store-held :
      {B : Type 0} {Q : B → State → Type 0} (p : Option ℕ) (a : ℕ) (old req : Request) (s : State)
      (f : Unit {0} → M B)
      → p ≡ some a
      → s.heap a ≡ some old
      → Ensures Q (f tt (record s { heap = update s.heap a (some req) }))
      → Ensures Q (and_then (store p req s) f)
  unfolding store
  after_store-held p a old req s f e h q = rw (e, store) (rw (h, store) q)
