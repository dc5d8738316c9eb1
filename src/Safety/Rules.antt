-- ===== src/Safety/Rules.antt =====
-- The rules of the calculus: sequence, branch, consequence, and system calls.
use epoll_proxy.Base.{◌≡◌, refl, ◌∙◌, ap, Option, some, Bool, true, false, if◌then◌else◌}
use epoll_proxy.Kernel.{Os}
use epoll_proxy.State.{State, M, and_then, ◌>>=◌, pure, system}
use epoll_proxy.Safety.{Ensures, ensures, IsQuiet}

module _ ⦃os : Os⦄ {A : Type 0} where
  pub bind :
      {B : Type 0} {P : A → State → Type 0} {Q : B → State → Type 0} {r : Option (A × State)}
      {f : A → M B}
      → Ensures P r
      → ((a : A) (s : State) → P a s → Ensures Q (f a s))
      → Ensures Q (and_then r f)
  bind (ensures {a} {s} p) h = h a s p

  pub branch :
      {Q : A → State → Type 0} (b : Bool) (m n : M A) {s : State}
      → (b ≡ true → Ensures Q (m s))
      → (b ≡ false → Ensures Q (n s))
      → Ensures Q ((if b then m else n) s)
  branch true m n yes_case no_case = yes_case refl
  branch false m n yes_case no_case = no_case refl

  pub weaken :
      {P Q : A → State → Type 0} {r : Option (A × State)}
      → ((a : A) (s : State) → P a s → Q a s)
      → Ensures P r
      → Ensures Q r
  weaken h (ensures {a} {s} p) = ensures (h a s p)

  -- A quiet command, and then the rest.
  pub after_quiet :
      {B : Type 0} {Q : B → State → Type 0} {r : Option (A × State)} (s : State) (f : A → M B)
      → (a : A) × (k : os.Kernel) × (r ≡ some (a, record s { kernel = k }))
      → ((a : A) (k : os.Kernel) → Ensures Q (f a (record s { kernel = k })))
      → Ensures Q (and_then r f)
  after_quiet s f (a, k, e) h = rw e (h a k)

  pub system-IsQuiet : (f : os.Kernel → A × os.Kernel) → IsQuiet (system f)
  system-IsQuiet f s = ((f s.kernel).0, (f s.kernel).1, refl)

  pub pure-IsQuiet : (a : A) → IsQuiet (pure a)
  pure-IsQuiet a s = (a, s.kernel, refl)

  pub bind-IsQuiet :
      {B : Type 0} (m : M A) (f : A → M B)
      → IsQuiet m
      → ((a : A) → IsQuiet (f a))
      → IsQuiet (m >>= f)
  bind-IsQuiet m f q h s =
      let (a, k, e) = q s in
      let (b, k', e') = h a (record s { kernel = k }) in (b, k', ap (λ r. and_then r f) e ∙ e')

  pub branch-IsQuiet : (b : Bool) (m n : M A) → IsQuiet m → IsQuiet n → IsQuiet (if b then m else n)
  branch-IsQuiet true m n p q = p
  branch-IsQuiet false m n p q = q
