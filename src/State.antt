-- ===== src/State.antt =====
-- The state that the proxy works on, and commands over it: the configuration with its pool, the
-- requests that `calloc` gave out, and the kernel.
use epoll_proxy.Base.{ℕ, ◌+◌, Option, none, some, if◌then◌else◌}
use epoll_proxy.Config.{Config, Connection, Stats, update}
use epoll_proxy.Kernel.{Os}
use epoll_proxy.Http.{Request}
use epoll_proxy.Connection.{set_conn}

-- `heap` holds the live `http_request_t`s by address; `next` is the address that comes next.
pub record State ⦃os : Os⦄ : Type 0 where
  pub config : Config
  pub kernel : os.Kernel
  pub heap : ℕ → Option Request
  pub next : ℕ

module _ ⦃os : Os⦄ where
  -- `none` is a request that is read, written or freed through a pointer that is NULL or was freed,
  -- or a loop that runs out of its fuel. No other undefined behaviour of C is followed.
  abbrev pub M : Type 0 → Type 0
  M A = State → Option (A × State)

  abbrev pub pure : {A : Type 0} → A → M A
  pure a s = some (a, s)

  abbrev pub and_then : {A B : Type 0} → Option (A × State) → (A → M B) → Option (B × State)
  and_then none f = none
  and_then (some (a, s)) f = f a s

  infixl 5 ◌>>=◌ ◌>>◌
  abbrev pub ◌>>=◌ : {A B : Type 0} → M A → (A → M B) → M B
  ◌>>=◌ m f s = and_then (m s) f

  abbrev pub ◌>>◌ : {B : Type 0} → M (Unit {0}) → M B → M B
  m >> n = m >>= λ _. n

  -- `return` from a function with no result.
  abbrev pub done : M (Unit {0})
  done = pure tt

  abbrev pub undefined : {A : Type 0} → M A
  undefined s = none

  abbrev pub get_config : M Config
  get_config s = some (s.config, s)

  abbrev pub put_config : Config → M (Unit {0})
  put_config c s = some (tt, record s { config = c })

  abbrev pub get_conn : ℕ → M Connection
  get_conn i s = some (s.config.connections i, s)

  abbrev pub put_conn : ℕ → Connection → M (Unit {0})
  put_conn i conn s = some (tt, record s { config = set_conn s.config i conn })

  abbrev pub put_stats : (Stats → Stats) → M (Unit {0})
  put_stats f s = some (tt, record s { config = record s.config { stats = f s.config.stats } })

  -- A system call.
  abbrev pub system : {A : Type 0} → (os.Kernel → A × os.Kernel) → M A
  system f s = let (a, k) = f s.kernel in some (a, record s { kernel = k })

  -- `*p`
  unfoldable pub load : Option ℕ → M Request
  load none s = none
  load (some p) s = elim (s.heap p) [ none ↦ none | some req ↦ some (req, s) ]

  -- `*p = req`
  unfoldable pub store : Option ℕ → Request → M (Unit {0})
  store none req s = none
  store (some p) req s = elim (s.heap p) [
    | none ↦ none
    | some old ↦ some (tt, record s { heap = update s.heap p (some req) })
  ]

  -- `free(p)`; NULL is let through.
  unfoldable pub release : Option ℕ → M (Unit {0})
  release none s = some (tt, s)
  release (some p) s = elim (s.heap p) [
    | none ↦ none
    | some old ↦ some (tt, record s { heap = update s.heap p none })
  ]

  -- `calloc` of a request, which is then initialised: its address, or NULL.
  unfoldable pub allocate : Request → M (Option ℕ)
  allocate req s =
      let (granted, k) = os.calloc s.kernel in
      if granted
      then some (
        some s.next,
        record s { kernel = k; heap = update s.heap s.next (some req); next = s.next + 1 },
      )
      else some (none, record s { kernel = k })
