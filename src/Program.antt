-- ===== src/Program.antt =====
-- main (src/core/main.c): the memory of the proxy, the command line, and a run from start to end.
use epoll_proxy.Base.{ℕ, List, [], none, some, Bool, true, false, if◌then◌else◌, codes}
use epoll_proxy.Config.{Config, Connection, connecting, tcp}
use epoll_proxy.Kernel.{Os}
use epoll_proxy.Buffer
use epoll_proxy.Connection.{zero_stats}
use epoll_proxy.State.{M, pure, system, put_config, ◌>>=◌, ◌>>◌}
use epoll_proxy.Args.{Args, Parsed, parsed, refused, exited, parse_args, validate_config}
use epoll_proxy.Args.Getopt.{same}
use epoll_proxy.Proxy.Loop.{
  RunResult, stopped, wait_failed, running, proxy_init, proxy_init_http, proxy_run,
}
use epoll_proxy.Proxy.Cleanup.{proxy_cleanup}

-- A `connection_t` and a `proxy_config_t` as `calloc` leaves them: all bytes are 0, which is the
-- state CONN_CONNECTING and the mode PROXY_MODE_TCP.
abbrev pub zero_connection : Connection
zero_connection = record {
  fd = some 0;
  peer = none;
  state = connecting;
  read_buf = Buffer.init;
  write_buf = Buffer.init;
  is_client = false;
  last_active = 0;
  http_req = none;
  requests_handled = 0;
  keep_alive = false;
}

abbrev pub zero_config : Config
zero_config = record {
  listen_addr = [];
  listen_port = 0;
  backend_addr = [];
  backend_port = 0;
  mode = tcp;
  epoll_fd = some 0;
  listen_fd = some 0;
  connections = λ i. zero_connection;
  free_list = λ i. 0;
  free_count = 0;
  stats = zero_stats;
}

-- The exit status, or that the process is still in the event loop after the turns that the model
-- follows.
pub data Ending : Type 0 where
  success failure still_running : Ending

module _ ⦃os : Os⦄ where
  -- From `proxy_cleanup` on.
  unfoldable pub shut_down : RunResult → M Ending
  shut_down running = pure still_running
  shut_down stopped = proxy_cleanup >> pure success
  shut_down wait_failed = proxy_cleanup >> pure failure

  -- "Initialize based on mode"
  unfoldable pub initialise : Args → M Bool
  initialise args =
      if same args.mode (codes "http")
      then proxy_init_http args.listen_addr args.listen_port args.backend_addr args.backend_port
      else proxy_init args.listen_addr args.listen_port args.backend_addr args.backend_port

  unfoldable pub serve : ℕ → ℕ → Bool → M Ending
  serve turns rounds false = pure failure
  serve turns rounds true = do r ← proxy_run turns rounds; shut_down r

  unfoldable pub start : ℕ → ℕ → Parsed → M Ending
  start turns rounds refused = pure failure
  start turns rounds exited = pure success
  start turns rounds (parsed args) =
      if validate_config args
      then (do initialised ← initialise args; serve turns rounds initialised)
      else pure failure

  unfoldable pub with_memory : ℕ → ℕ → List (List ℕ) → Bool → M Ending
  with_memory turns rounds argv false = pure failure
  with_memory turns rounds argv true = do
    put_config zero_config
    start turns rounds (parse_args argv)

  -- `turns` and `rounds` are for `proxy_run`; `argv` is without the program's name.
  unfoldable pub main : ℕ → ℕ → List (List ℕ) → M Ending
  main turns rounds argv = do allocated ← system os.calloc; with_memory turns rounds argv allocated
