-- ===== src/Safety/Start.antt =====
-- proxy_init and proxy_init_http (src/proxy/proxy.c) set up the invariant.
use epoll_proxy.Base.{ℕ, refl, List, Option, none, some, true, false, ◌≡◌, Bool, ◌∙◌, ◌<◌}
use epoll_proxy.Config.{Config, Fd, http, max_connections, tcp}
use epoll_proxy.Kernel.{Os, reuse_addr, reuse_port, defer_accept, IsReliable}
use epoll_proxy.Http.{Request}
use epoll_proxy.Connection.{pool_init}
use epoll_proxy.Connection.Pool.Init.{
  pool_init-IsSound, pool_init-closed, mode-pool_init, request-pool_init,
}
use epoll_proxy.Epoll.{in_events}
use epoll_proxy.Epoll.Quiet.{epoll_init-IsQuiet, create_listen_socket-IsQuiet}
use epoll_proxy.State.{State, M}
use epoll_proxy.Proxy.Loop.{proxy_init, proxy_init_http, start_listening, register_listener}
use epoll_proxy.Safety.{IsValid, IsSafe, ensures, Safely, IsQuiet, Ensures}
use epoll_proxy.Safety.Rules.{
  after_quiet, system-IsQuiet, bind-IsQuiet, branch-IsQuiet, pure-IsQuiet,
}
use epoll_proxy.Safety.Assign.{Keeps-IsValid}
use epoll_proxy.Safety.Kernel.{epoll_add-IsQuiet, close_fd-IsQuiet}

-- No slot points to a request.
abbrev pub HoldsNone : Config → Type 0
HoldsNone c = (i : ℕ) → i < max_connections → (c.connections i).http_req ≡ none

pub pool_init-IsValid :
    {T : Type 0} (c : Config) (heap : ℕ → Option Request) (next : ℕ)
    → (T → HoldsNone c)
    → c.mode ≡ http
    → IsValid T (pool_init c) heap next
pool_init-IsValid c heap next blank h = record {
  sound = pool_init-IsSound c;
  live = λ m i q. absurd (q.open_state (pool_init-closed c i q.in_pool));
  apart = λ m i j ne qi qj e. qi.open_state (pool_init-closed c i qi.in_pool);
  unused = λ m i q. let same = mode-pool_init c in cc;
  owned = λ t. record {
    lives = λ i q n. absurd (n (request-pool_init c i ∙ blank t i q));
    alone = λ i j q r ne n. absurd (n (request-pool_init c i ∙ blank t i q));
  };
}

-- The descriptors of epoll and of the listening socket do not matter.
pub set_fds-IsValid :
    {T : Type 0} {c : Config} {heap : ℕ → Option Request} {next : ℕ} (epoll_fd listen_fd : Fd)
    → IsValid T c heap next
    → IsValid T (record c { epoll_fd = epoll_fd; listen_fd = listen_fd }) heap next
set_fds-IsValid epoll_fd listen_fd v =
    Keeps-IsValid v
      (record {
        bounded = v.sound.bounded;
        distinct = v.sound.distinct;
        ready = v.sound.ready;
        accounted = v.sound.accounted;
        buffers = v.sound.buffers;
        peers = v.sound.peers;
      })
      (record {
        same_mode = refl;
        client_before =
            λ i q. record { in_pool = q.in_pool; client = q.client; open_state = q.open_state };
        same_request = λ i. refl;
      })

module _ ⦃os : Os⦄ where
  register_listener-IsQuiet :
      (epoll_fd : ℕ) (listen_fd : Fd) → IsQuiet (register_listener epoll_fd listen_fd)
  unfolding register_listener
  register_listener-IsQuiet epoll_fd none =
      bind-IsQuiet _ _ (close_fd-IsQuiet (some epoll_fd)) (λ _. pure-IsQuiet false)
  register_listener-IsQuiet epoll_fd (some fd) =
      bind-IsQuiet _ _ (system-IsQuiet (λ k. os.setsockopt k (some fd) reuse_addr)) (λ _.
        bind-IsQuiet _ _ (system-IsQuiet (λ k. os.setsockopt k (some fd) reuse_port)) (λ _.
          bind-IsQuiet _ _ (system-IsQuiet (λ k. os.setsockopt k (some fd) defer_accept)) (λ _.
            bind-IsQuiet _ _ (epoll_add-IsQuiet (some epoll_fd) (some fd) in_events none) (λ added.
              branch-IsQuiet added _ _ (pure-IsQuiet true) (
                bind-IsQuiet _ _ (close_fd-IsQuiet (some fd)) (λ _.
                  bind-IsQuiet _ _ (close_fd-IsQuiet (some epoll_fd))
                    (λ _. pure-IsQuiet false)))))))

  quiet-Safely : {A : Type 0} (m : M A) (s : State) → IsQuiet m → IsSafe s → Safely (m s)
  quiet-Safely m s q v = let (a, k, same) = q s in rw same (ensures v)

  start_listening-Safely :
      (addr : List ℕ) (port : ℕ) (epoll_fd : Fd) (s : State)
      → IsSafe s
      → Safely (start_listening addr port epoll_fd s)
  unfolding start_listening
  start_listening-Safely addr port none s v = ensures v
  start_listening-Safely addr port (some epoll_fd) s v =
      after_quiet s _ (create_listen_socket-IsQuiet addr port s) (λ listen_fd k.
        quiet-Safely _ _ (register_listener-IsQuiet epoll_fd listen_fd)
          (set_fds-IsValid s.config.epoll_fd listen_fd v))

  pub proxy_init_http-Safely :
      (listen_addr : List ℕ) (listen_port : ℕ) (backend_addr : List ℕ) (backend_port : ℕ)
      (s : State)
      → (IsReliable os → HoldsNone s.config)
      → Safely (proxy_init_http listen_addr listen_port backend_addr backend_port s)
  unfolding proxy_init_http
  proxy_init_http-Safely listen_addr listen_port backend_addr backend_port s blank =
      let c : Config = pool_init (record s.config {
        listen_addr = listen_addr;
        listen_port = listen_port;
        backend_addr = backend_addr;
        backend_port = backend_port;
        mode = http;
      }) in
      let s' : State = record s { config = c } in
      after_quiet s' _ (epoll_init-IsQuiet s') (λ epoll_fd k.
        start_listening-Safely listen_addr listen_port epoll_fd _
          (set_fds-IsValid epoll_fd _ (pool_init-IsValid _ s.heap s.next blank refl)))

  -- Whatever the kernel answers, `proxy_init` comes to its end and leaves a safe state, whatever the
  -- memory held or, for a kernel that never refuses to register a descriptor, if no slot pointed to
  -- a request.
  pub proxy_init-Safely :
      (listen_addr : List ℕ) (listen_port : ℕ) (backend_addr : List ℕ) (backend_port : ℕ)
      (s : State)
      → (IsReliable os → HoldsNone s.config)
      → Safely (proxy_init listen_addr listen_port backend_addr backend_port s)
  unfolding proxy_init
  proxy_init-Safely listen_addr listen_port backend_addr backend_port s blank =
      proxy_init_http-Safely listen_addr listen_port backend_addr backend_port
        (record s { config = record s.config { mode = tcp } }) blank

  InHttpMode : Bool → State → Type 0
  InHttpMode started s = s.config.mode ≡ http

  start_listening-InHttpMode :
      (addr : List ℕ) (port : ℕ) (epoll_fd : Fd) (s : State)
      → s.config.mode ≡ http
      → Ensures InHttpMode (start_listening addr port epoll_fd s)
  unfolding start_listening InHttpMode
  start_listening-InHttpMode addr port none s m = ensures m
  start_listening-InHttpMode addr port (some epoll_fd) s m =
      after_quiet s _ (create_listen_socket-IsQuiet addr port s) (λ listen_fd k.
        let s' : State = record s {
          config = record s.config { listen_fd = listen_fd };
          kernel = k;
        } in
        let (_, _, same) = register_listener-IsQuiet epoll_fd listen_fd s' in rw same (ensures m))

  -- `proxy_init`, which is to start the proxy in TCP mode, comes to its end with HTTP mode set,
  -- whatever the memory held and whatever the kernel answers.
  pub proxy_init-InHttpMode :
      (listen_addr : List ℕ) (listen_port : ℕ) (backend_addr : List ℕ) (backend_port : ℕ)
      (s : State)
      → Ensures
          (λ _ s'. s'.config.mode ≡ http)
          (proxy_init listen_addr listen_port backend_addr backend_port s)
  unfolding proxy_init proxy_init_http InHttpMode
  proxy_init-InHttpMode listen_addr listen_port backend_addr backend_port s =
      let c : Config = pool_init (record s.config {
        listen_addr = listen_addr;
        listen_port = listen_port;
        backend_addr = backend_addr;
        backend_port = backend_port;
        mode = http;
      }) in
      let s' : State = record s { config = c } in
      after_quiet s' _ (epoll_init-IsQuiet s') (λ epoll_fd k.
        start_listening-InHttpMode listen_addr listen_port epoll_fd _ (mode-pool_init _))
