-- ===== src/Args.antt =====
-- The command line (src/core/main.c): `args_t`, parse_args and validate_config. An argument is the
-- list of its bytes without the final NUL.
pub mod Getopt
pub mod Accepted
pub mod CommandLine
use epoll_proxy.Base.{
  ℕ, List, [], ◌∷◌, Option, none, some, Bool, true, false, not, ◌&&◌, ◌||◌, ◌==◌, ltb,
  if◌then◌else◌, codes,
}
use epoll_proxy.Base.Int.{ℤ, pos, negsuc}
use epoll_proxy.Base.Decimal.{strtol}
use epoll_proxy.Args.Getopt.{Found, option, unknown, getopt, same, is_nil}

-- `args_t`
pub record Args : Type 0 where
  pub listen_addr : List ℕ
  pub listen_port : ℕ
  pub backend_addr : List ℕ
  pub backend_port : ℕ
  pub mode : List ℕ

abbrev pub defaults : Args
defaults = record {
  listen_addr = codes "0.0.0.0";
  listen_port = 8080;
  backend_addr = codes "127.0.0.1";
  backend_port = 8081;
  mode = codes "http";
}

-- `parse_args` returned 0 or -1, or the process ended by `exit(0)`.
pub data Parsed : Type 0 where
  parsed : Args → Parsed
  refused exited : Parsed

abbrev pub port_of : ℤ → Option ℕ
port_of (pos n) = if n == 0 || ltb 65535 n then none else some n
port_of (negsuc n) = none

-- `strtol` and the three tests that follow it; `none` is an invalid port.
unfoldable pub parse_port : List ℕ → Option ℕ
parse_port text = let (port, end) = strtol text in if not (is_nil end) then none else port_of port

-- A round of the loop of `parse_args`; `none` ends it by a `return` or `exit`.
unfoldable pub apply : ℕ → List ℕ → Args → Option Args
apply opt optarg args =
    if opt == b'l'
    then some (record args { listen_addr = optarg })
    else if opt == b'p'
    then elim (parse_port optarg) [
      | none ↦ none
      | some port ↦ some (record args { listen_port = port })
    ]
    else if opt == b'b'
    then some (record args { backend_addr = optarg })
    else if opt == b'P'
    then elim (parse_port optarg) [
      | none ↦ none
      | some port ↦ some (record args { backend_port = port })
    ]
    else if opt == b'm'
    then (if not (same optarg (codes "tcp")) && not (same optarg (codes "http"))
        then none
        else some (record args { mode = optarg }))
    else none

-- The loop over what `getopt_long` returns.
unfoldable pub apply_all : List Found → Args → Parsed
apply_all [] args = parsed args
apply_all (unknown ∷ rest) args = refused
apply_all (option opt optarg ∷ rest) args = elim (opt == b'h') [
  | true ↦ exited
  | false ↦ elim (apply opt optarg args) [ none ↦ refused | some args' ↦ apply_all rest args' ]
]

-- `if (optind < argc)`
abbrev pub no_operands : List (List ℕ) → Parsed → Parsed
no_operands [] r = r
no_operands (arg ∷ operands) (parsed args) = refused
no_operands (arg ∷ operands) refused = refused
no_operands (arg ∷ operands) exited = exited

-- The arguments are `argv[1]` to `argv[argc - 1]`.
unfoldable pub parse_args : List (List ℕ) → Parsed
parse_args argv =
    let (found, operands) = getopt argv in no_operands operands (apply_all found defaults)

-- `true` is the return value 0. The warning about a privileged port is left out.
unfoldable pub validate_config : Args → Bool
validate_config args =
    not (same args.listen_addr args.backend_addr && args.listen_port == args.backend_port)
