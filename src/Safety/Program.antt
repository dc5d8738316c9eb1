-- ===== src/Safety/Program.antt =====
-- main (src/core/main.c) against the invariant: from the memory that `calloc` gives it to its end.
use epoll_proxy.Base.{ℕ, ◌≡◌, refl, List, Bool, true, false, ◌⊎◌, inl, inr, codes}
use epoll_proxy.Kernel.{Os, IsPosix, IsReliable}
use epoll_proxy.State.{State}
use epoll_proxy.Args.{Args, Parsed, parsed, refused, exited, parse_args, validate_config}
use epoll_proxy.Args.Getopt.{same}
use epoll_proxy.Proxy.Loop.{RunResult, running, stopped, wait_failed, proxy_init, proxy_init_http}
use epoll_proxy.Program.{
  Ending, success, failure, still_running, zero_config, main, with_memory, start, serve, shut_down,
  initialise,
}
use epoll_proxy.Safety.{IsSafe, Safely, Ensures, ensures}
use epoll_proxy.Safety.Rules.{bind, branch, after_quiet, system-IsQuiet}
use epoll_proxy.Safety.Start.{HoldsNone, proxy_init-Safely, proxy_init_http-Safely}
use epoll_proxy.Safety.Running.{IsEpoll, proxy_run-Safely}
use epoll_proxy.Safety.Cleanup.{IsShut, proxy_cleanup-IsShut}

module _ ⦃os : Os⦄ where
  -- How a run with a command line may end: it exits in success after the help, or with every
  -- connection closed; where it goes on, its state is safe.
  unfoldable pub IsEnding : List (List ℕ) → Ending → State → Type 0
  IsEnding argv failure s = Unit {0}
  IsEnding argv success s = (parse_args argv ≡ exited) ⊎ IsShut s
  IsEnding argv still_running s = IsSafe s

  shut_down-IsEnding :
      IsReliable os
      → (argv : List (List ℕ)) (r : RunResult) (s : State) → IsSafe s
      → Ensures (IsEnding argv) (shut_down r s)
  unfolding shut_down IsEnding
  shut_down-IsEnding reliable argv running s v = ensures v
  shut_down-IsEnding reliable argv stopped s v =
      bind (proxy_cleanup-IsShut reliable s v) (λ _ s' shut. ensures (inr shut))
  shut_down-IsEnding reliable argv wait_failed s v =
      bind (proxy_cleanup-IsShut reliable s v) (λ _ s' shut. ensures tt)

  initialise-Safely : (args : Args) (s : State) → HoldsNone s.config → Safely (initialise args s)
  unfolding initialise
  initialise-Safely args s blank =
      branch (same args.mode (codes "http")) (proxy_init_http _ _ _ _) (proxy_init _ _ _ _)
        (λ _. proxy_init_http-Safely _ _ _ _ s (λ _. blank))
        (λ _. proxy_init-Safely _ _ _ _ s (λ _. blank))

  module _ (posix : IsPosix os) (epoll : IsEpoll os) (reliable : IsReliable os) where
    serve-IsEnding :
        (argv : List (List ℕ)) (turns rounds : ℕ) (initialised : Bool) (s : State)
        → IsSafe s
        → Ensures (IsEnding argv) (serve turns rounds initialised s)
    unfolding serve IsEnding
    serve-IsEnding argv turns rounds false s v = ensures tt
    serve-IsEnding argv turns rounds true s v =
        bind (proxy_run-Safely posix epoll turns rounds s v)
          (λ r s' v'. shut_down-IsEnding reliable argv r s' v')

    -- `p` is what `parse_args` returns.
    start-IsEnding :
        (argv : List (List ℕ)) (turns rounds : ℕ) (p : Parsed) (s : State)
        → parse_args argv ≡ p
        → HoldsNone s.config
        → Ensures (IsEnding argv) (start turns rounds p s)
    unfolding start IsEnding
    start-IsEnding argv turns rounds refused s e blank = ensures tt
    start-IsEnding argv turns rounds exited s e blank = ensures (inl e)
    start-IsEnding argv turns rounds (parsed args) s e blank =
        branch (validate_config args) _ _
          (λ _.
            bind (initialise-Safely args s blank)
              (λ initialised s' v. serve-IsEnding argv turns rounds initialised s' v))
          (λ _. ensures tt)

    with_memory-IsEnding :
        (argv : List (List ℕ)) (turns rounds : ℕ) (allocated : Bool) (s : State)
        → Ensures (IsEnding argv) (with_memory turns rounds argv allocated s)
    unfolding with_memory IsEnding
    with_memory-IsEnding argv turns rounds false s = ensures tt
    with_memory-IsEnding argv turns rounds true s =
        start-IsEnding argv turns rounds (parse_args argv) (record s { config = zero_config }) refl
          (λ i h. refl)

    -- With a kernel that behaves as POSIX and epoll say and never refuses to register a descriptor,
    -- `main` with any command line, for any number of turns of the event loop, runs without a request
    -- that is read, written or freed through a pointer that is NULL or was freed, and without a loop
    -- of a handler that runs out of its fuel: where it ends in success it has printed the help or
    -- closed every connection, and where it goes on its state is safe.
    pub main-IsEnding :
        (argv : List (List ℕ)) (turns rounds : ℕ) (s : State)
        → Ensures (IsEnding argv) (main turns rounds argv s)
    unfolding main
    main-IsEnding argv turns rounds s =
        after_quiet s (with_memory turns rounds argv) (system-IsQuiet os.calloc s) (λ allocated k.
          with_memory-IsEnding argv turns rounds allocated (record s { kernel = k }))
