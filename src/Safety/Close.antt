-- ===== src/Safety/Close.antt =====
-- connection_close (src/network/connection.c) of a connection that is not whole: its request was
-- never there, or is freed already.
use epoll_proxy.Base.{ℕ, ◌≡◌, ◌≢◌, sym, ◌∙◌, subst, Option, none, some, arith, ap, ◌<◌, fun_ext}
use epoll_proxy.Config.{Config, http, tcp, max_connections, update}
use epoll_proxy.Kernel.{Os, IsReliable}
use epoll_proxy.Http.{Request}
use epoll_proxy.Connection.{free, unpair, is_closed}
use epoll_proxy.Connection.Pool.{IsSound}
use epoll_proxy.State.{State, release, done, and_then, M}
use epoll_proxy.Proxy.Lifecycle.{close, close_open}
use epoll_proxy.Safety.{
  IsOpen, IsClient, IsLive, IsValid, Ensures, ensures, Safely, Owns, InPool, requests,
}
use epoll_proxy.Safety.Rules.{branch, after_quiet}
use epoll_proxy.Safety.Kernel.{close_socket-IsQuiet}
use epoll_proxy.Safety.Lifecycle.{release-Released}
use epoll_proxy.Safety.Owned.{InPoolBut, freed-IsLive, Owns-mend}

-- The invariant, but for the request of one connection.
pub record IsValidBut (T : Type 0) (i : ℕ) (c : Config) (heap : ℕ → Option Request) (next : ℕ)
    : Type 0 where
  pub sound : IsSound c
  pub live :
      c.mode ≡ http → (k : ℕ) → k ≢ i → IsClient c k → IsLive heap next (c.connections k).http_req
  pub apart :
      c.mode ≡ http
      → (k l : ℕ) → k ≢ i
      → l ≢ i
      → k ≢ l
      → IsClient c k
      → IsClient c l
      → (c.connections k).http_req ≢ (c.connections l).http_req
  pub unused : c.mode ≡ tcp → (k : ℕ) → k < max_connections → (c.connections k).http_req ≡ none
  pub owned : T → Owns (InPoolBut i) (requests c) heap next

module _ {T : Type 0} {c : Config} {heap : ℕ → Option Request} {next : ℕ} where
  pub weaken-IsValidBut : (i : ℕ) → IsValid T c heap next → IsValidBut T i c heap next
  weaken-IsValidBut i v = record {
    sound = v.sound;
    live = λ m k _ q. v.live m k q;
    apart = λ m k l _ _ ne qk ql. v.apart m k l ne qk ql;
    unused = v.unused;
    owned = λ t.
        let o = v.owned t in
        record { lives = λ k h. o.lives k h.0; alone = λ k l h h'. o.alone k l h.0 h'.0 };
  }

  -- Its request is freed.
  pub freed-IsValidBut :
      (i a : ℕ)
      → IsValid T c heap next
      → c.mode ≡ http
      → IsClient c i
      → (c.connections i).http_req ≡ some a
      → IsValidBut T i c (update heap a none) next
  freed-IsValidBut i a v m q e = record {
    sound = v.sound;
    live = λ _ k ne qk.
        freed-IsLive a (v.live m k qk)
          (λ same. v.apart m i k (λ e'. ne (sym e')) q qk (e ∙ sym same));
    apart = λ _ k l _ _ ne qk ql. v.apart m k l ne qk ql;
    unused = v.unused;
    owned = λ t.
        let o = v.owned t in
        record {
          lives = λ k h n.
              freed-IsLive a (o.lives k h.0 n)
                (λ same. o.alone k i h.0 q.in_pool h.1 n (same ∙ sym e));
          alone = λ k l h h'. o.alone k l h.0 h'.0;
        };
  }

  -- Closing the connection mends the invariant.
  mend-IsValid :
      (i : ℕ)
      → IsValidBut T i c heap next
      → IsOpen c i
      → (T → (c.connections i).http_req ≡ none)
      → IsValid T (free (unpair c (some i)) (some i)) heap next
  mend-IsValid i v o none_left =
      let r = release-Released c i v.sound o in
      let other : (k : ℕ) → IsClient (free (unpair c (some i)) (some i)) k → k ≢ i = λ k q e.
        q.open_state
          (ap (λ n. ((free (unpair c (some i)) (some i)).connections n).state) e ∙ r.is_closed) in
      record {
        sound = r.sound;
        live = λ m k q.
            subst (IsLive heap next) (sym (r.keeps.same_request k))
              (v.live (sym r.keeps.same_mode ∙ m) k (other k q) (r.keeps.client_before k q));
        apart = λ m k l ne qk ql e.
            v.apart (sym r.keeps.same_mode ∙ m) k l (other k qk) (other l ql) ne
              (r.keeps.client_before k qk) (r.keeps.client_before l ql)
              (sym (r.keeps.same_request k) ∙ e ∙ r.keeps.same_request l);
        unused = λ m k h. r.keeps.same_request k ∙ v.unused (sym r.keeps.same_mode ∙ m) k h;
        owned = λ t.
            subst (λ reqs. Owns InPool reqs heap next) (fun_ext (λ k. sym (r.keeps.same_request k)))
              (Owns-mend i (v.owned t) (none_left t));
      }

module _ ⦃os : Os⦄ where
  pub mend-Safely :
      (i : ℕ) (s : State)
      → IsValidBut (IsReliable os) i s.config s.heap s.next
      → IsOpen s.config i
      → (IsReliable os → (s.config.connections i).http_req ≡ none)
      → Safely (close (some i) s)
  unfolding close close_open
  mend-Safely i s v o none_left =
      branch (is_closed (s.config.connections i).state) done (close_open i)
        (λ e. absurd (o.1 (ground arith)))
        (λ _.
          after_quiet s _ (close_socket-IsQuiet s.config.epoll_fd (s.config.connections i).fd s)
            (λ _ k. ensures (mend-IsValid i v o none_left)))

  -- A live request is freed, or there is none.
  pub after_release-none :
      {B : Type 0} {Q : B → State → Type 0} (p : Option ℕ) (s : State) (f : Unit {0} → M B)
      → p ≡ none
      → Ensures Q (f tt s)
      → Ensures Q (and_then (release p s) f)
  unfolding release
  after_release-none p s f e h = rw (e, release) h

  pub after_release :
      {B : Type 0} {Q : B → State → Type 0} (p : Option ℕ) (s : State) (f : Unit {0} → M B)
      (l : IsLive s.heap s.next p)
      → Ensures Q (f tt (record s { heap = update s.heap l.address none }))
      → Ensures Q (and_then (release p s) f)
  unfolding release
  after_release p s f l h = rw (l.is_address, release) (rw (l.held, release) h)
