-- ===== src/Relay/Yields.antt =====
-- Partial correctness: what holds of a command's result, if it comes to an end.
use epoll_proxy.Base.{◌≡◌, refl, Option, none, some, Bool, true, false, if◌then◌else◌, subst}
use epoll_proxy.Kernel.{Os}
use epoll_proxy.State.{State, M, and_then}
use epoll_proxy.Safety.{Ensures, ensures}

module _ ⦃os : Os⦄ where
  pub data Yields {A : Type 0} (P : A → State → Type 0) : Option (A × State) → Type 0 where
    stuck : Yields P none
    yields : {a : A} {s : State} → P a s → Yields P (some (a, s))

  module _ {A : Type 0} where
    pub bind-Yields :
        {B : Type 0} {P : A → State → Type 0} {Q : B → State → Type 0} {r : Option (A × State)}
        {f : A → M B}
        → Yields P r
        → ((a : A) (s : State) → P a s → Yields Q (f a s))
        → Yields Q (and_then r f)
    bind-Yields stuck h = stuck
    bind-Yields (yields {a} {s} p) h = h a s p

    pub branch-Yields :
        {Q : A → State → Type 0} (b : Bool) (m n : M A) {s : State}
        → (b ≡ true → Yields Q (m s))
        → (b ≡ false → Yields Q (n s))
        → Yields Q ((if b then m else n) s)
    branch-Yields true m n p q = p refl
    branch-Yields false m n p q = q refl

    pub weaken-Yields :
        {P Q : A → State → Type 0} {r : Option (A × State)}
        → ((a : A) (s : State) → P a s → Q a s)
        → Yields P r
        → Yields Q r
    weaken-Yields h stuck = stuck
    weaken-Yields h (yields {a} {s} p) = yields (h a s p)

    pub both-Yields :
        {P Q : A → State → Type 0} {r : Option (A × State)}
        → Yields P r
        → Yields Q r
        → Yields (λ a s. P a s × Q a s) r
    both-Yields stuck q = stuck
    both-Yields (yields p) (yields q) = yields (p, q)

    -- With termination, it is total correctness.
    pub total_of :
        {P Q : A → State → Type 0} {r : Option (A × State)}
        → Ensures P r
        → Yields Q r
        → Ensures (λ a s. P a s × Q a s) r
    total_of (ensures p) (yields q) = ensures (p, q)

    pub Yields-of_ensured :
        {P : A → State → Type 0} {r : Option (A × State)} → Ensures P r → Yields P r
    Yields-of_ensured (ensures p) = yields p

    abbrev Holds : (A → State → Type 0) → Option (A × State) → Type 0
    Holds P none = Unit
    Holds P (some (a, s)) = P a s

    Holds-of_ensured : {P : A → State → Type 0} {r : Option (A × State)} → Ensures P r → Holds P r
    Holds-of_ensured (ensures p) = p

    -- What holds of the result that there is.
    pub result_of :
        {P : A → State → Type 0} {r : Option (A × State)} {a : A} {s : State}
        → r ≡ some (a, s)
        → Ensures P r
        → P a s
    result_of {P} e h = subst (Holds P) e (Holds-of_ensured h)
