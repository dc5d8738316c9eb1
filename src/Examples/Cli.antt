-- ===== src/Examples/Cli.antt =====
-- The theorems on the command line and on the whole program at concrete arguments.
use epoll_proxy.Base.{◌≡◌, refl, [], ◌∷◌, true, false, arith, codes, inl}
use epoll_proxy.Args.{Args, parsed, parse_args}
use epoll_proxy.Args.Accepted.{IsAccepted, parse_args-IsAccepted}
use epoll_proxy.Args.CommandLine.{command_line, parse_args-command_line}
use epoll_proxy.Program.{main}
use epoll_proxy.Proxy.Cleanup.{proxy_cleanup}
use epoll_proxy.Safety.{Ensures}
use epoll_proxy.Safety.Cleanup.{IsShut, proxy_cleanup-IsShut}
use epoll_proxy.Safety.Program.{IsEnding, main-IsEnding}
use epoll_proxy.Kernel.{IsReliable}
use epoll_proxy.Examples.Net.{net, net-IsPosix}
use epoll_proxy.Examples.Handlers.{before_start}
use epoll_proxy.Examples.Clients.{reading, reading-IsSafe, net-IsEpoll}

-- An address that begins with a dash, and other ports.
abbrev other_config : Args
other_config = record {
  listen_addr = codes "-p";
  listen_port = 1;
  backend_addr = codes "10.0.0.1";
  backend_port = 65535;
  mode = codes "tcp";
}

other_config-IsAccepted : IsAccepted other_config
other_config-IsAccepted = record { listens = omega arith; connects = omega arith; known = inl refl }

parse_args-command_line_example : parse_args (command_line false other_config) ≡ parsed other_config
parse_args-command_line_example = parse_args-command_line false other_config other_config-IsAccepted

parse_args-IsAccepted_example : IsAccepted other_config
parse_args-IsAccepted_example =
    parse_args-IsAccepted (command_line true other_config) other_config
      (parse_args-command_line true other_config other_config-IsAccepted)

pub net-IsReliable : IsReliable net
net-IsReliable = record { registers = λ k epoll_fd fd ev conn. refl }

proxy_cleanup-IsShut_example : Ensures (λ _. IsShut) (proxy_cleanup reading)
proxy_cleanup-IsShut_example = proxy_cleanup-IsShut net-IsReliable reading reading-IsSafe

main-IsEnding_example :
    Ensures
      (IsEnding (codes "--port" ∷ codes "9000" ∷ []))
      (main 3 2 (codes "--port" ∷ codes "9000" ∷ []) before_start)
main-IsEnding_example =
    main-IsEnding net-IsPosix net-IsEpoll net-IsReliable (codes "--port" ∷ codes "9000" ∷ []) 3 2
      before_start
