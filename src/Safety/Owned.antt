-- ===== src/Safety/Owned.antt =====
-- The requests on the heap and the slots that own them, when a request is freed or allocated
-- (src/proxy/proxy.c, src/network/connection.c).
use epoll_proxy.Base.{
  ℕ, ◌≡◌, ◌≢◌, sym, ◌∙◌, subst, Option, none, some, arith, ap, ◌<◌, ℕ_discrete, refl, ◌+◌,
}
use epoll_proxy.Config.{max_connections, update}
use epoll_proxy.Http.{Request}
use epoll_proxy.Safety.{IsLive, Owns, InPool}

abbrev pub InPoolBut : ℕ → ℕ → Type 0
InPoolBut i k = (k < max_connections) × (k ≢ i)

-- A request stays live when another is freed.
pub freed-IsLive :
    {heap : ℕ → Option Request} {next : ℕ} {p : Option ℕ} (a : ℕ)
    → IsLive heap next p
    → p ≢ some a
    → IsLive (update heap a none) next p
freed-IsLive a l ne =
    let other : a ≢ l.address = λ same. ne (l.is_address ∙ ap some (sym same)) in
    record {
      address = l.address;
      request = l.request;
      is_address = l.is_address;
      below = l.below;
      held = ground (arith, l.held);
    }

-- A slot without a request is no exception.
pub Owns-mend :
    {heap : ℕ → Option Request} {next : ℕ} {reqs : ℕ → Option ℕ} (i : ℕ)
    → Owns (InPoolBut i) reqs heap next
    → reqs i ≡ none
    → Owns InPool reqs heap next
Owns-mend {reqs} i o e = record {
  lives = λ k h n. o.lives k (h, other k n) n;
  alone = λ k l hk hl ne n. elim (ℕ_discrete l i) [
    | yes same ↦ λ e'. n (e' ∙ ap reqs same ∙ e)
    | no differs ↦ o.alone k l (hk, other k n) (hl, differs) ne n
  ];
}
  where
    other : (k : ℕ) → reqs k ≢ none → k ≢ i
    other k n same = n (ap reqs same ∙ e)

-- Neither is a slot that alone is given another.
pub Owns-elsewhere :
    {heap : ℕ → Option Request} {next : ℕ} {reqs reqs' : ℕ → Option ℕ} {i : ℕ}
    → ((k : ℕ) → k ≢ i → reqs' k ≡ reqs k)
    → Owns (InPoolBut i) reqs heap next
    → Owns (InPoolBut i) reqs' heap next
Owns-elsewhere {heap} {next} e o = record {
  lives = λ k h n. subst (IsLive heap next) (sym (e k h.1)) (o.lives k h (λ e'. n (e k h.1 ∙ e')));
  alone = λ k l hk hl ne n same.
      o.alone k l hk hl ne (λ e'. n (e k hk.1 ∙ e')) (sym (e k hk.1) ∙ same ∙ e l hl.1);
}

-- A request keeps its place when another is allocated.
pub grown-IsLive :
    {heap : ℕ → Option Request} {next : ℕ} {p : Option ℕ} (req : Request)
    → IsLive heap next p
    → IsLive (update heap next (some req)) (next + 1) p
grown-IsLive req l = record {
  address = l.address;
  request = l.request;
  is_address = l.is_address;
  below = omega (arith, l.below);
  held = ground (arith, l.held, l.below);
}

pub fresh-IsLive :
    (heap : ℕ → Option Request) (next : ℕ) (req : Request)
    → IsLive (update heap next (some req)) (next + 1) (some next)
fresh-IsLive heap next req = record {
  address = next;
  request = req;
  is_address = refl;
  below = omega arith;
  held = ground arith;
}

pub below-IsLive :
    {heap : ℕ → Option Request} {next : ℕ} {p : Option ℕ} → IsLive heap next p → p ≢ some next
below-IsLive l same = ground (arith, l.is_address, l.below)

-- The slot that was left out is given the fresh request.
pub Owns-fresh :
    {P : ℕ → Type 0} {heap : ℕ → Option Request} {next : ℕ} {reqs : ℕ → Option ℕ} (i : ℕ)
    (req : Request)
    → Owns (λ k. P k × (k ≢ i)) reqs heap next
    → reqs i ≡ some next
    → Owns P reqs (update heap next (some req)) (next + 1)
Owns-fresh {P} {heap} {next} {reqs} i req o e = record {
  lives = λ k h n. elim (ℕ_discrete k i) [
    | yes same ↦ subst (IsLive _ _) (sym (ap reqs same ∙ e)) (fresh-IsLive heap next req)
    | no ne ↦ grown-IsLive req (o.lives k (h, ne) n)
  ];
  alone = λ k l hk hl ne n. elim (ℕ_discrete k i) [
    | yes sk ↦ elim (ℕ_discrete l i) [
      | yes sl ↦ absurd (ne (sk ∙ sym sl))
      | no nl ↦ λ same. older l hl nl (sym same ∙ ap reqs sk ∙ e)
    ]
    | no nk ↦ elim (ℕ_discrete l i) [
      | yes sl ↦ λ same. older k hk nk (same ∙ ap reqs sl ∙ e)
      | no nl ↦ o.alone k l (hk, nk) (hl, nl) ne n
    ]
  ];
}
  where
    older : (k : ℕ) → P k → k ≢ i → reqs k ≢ some next
    older k h ne same = below-IsLive (o.lives k (h, ne) (λ e'. cc)) same
