-- ===== src/Args/CommandLine.antt =====
-- Every accepted configuration can be written as arguments of parse_args (src/core/main.c).
use epoll_proxy.Base.{
  ℕ, ◌≡◌, refl, List, [], ◌∷◌, some, Bool, true, false, arith, codes, if◌then◌else◌,
}
use epoll_proxy.Base.Decimal.{decimal, strtol-decimal}
use epoll_proxy.Args.{Args, parsed, parse_port, apply, apply_all, parse_args}
use epoll_proxy.Args.Accepted.{IsPort, IsAccepted, same_iff}
use epoll_proxy.Args.Getopt.{option, same, getopt, kind, read_short, read_long, find_long}
use epoll_proxy.Http.Chars.{starts_with, before, from}

-- The option names in either form, short or long.
abbrev flag : Bool → List ℕ → List ℕ → List ℕ
flag short s l = if short then s else l

unfoldable pub command_line : Bool → Args → List (List ℕ)
command_line short a =
    flag short (codes "-l") (codes "--listen")
    ∷ a.listen_addr
    ∷ flag short (codes "-p") (codes "--port")
    ∷ decimal 20 a.listen_port
    ∷ flag short (codes "-b") (codes "--backend")
    ∷ a.backend_addr
    ∷ flag short (codes "-P") (codes "--backend-port")
    ∷ decimal 20 a.backend_port
    ∷ flag short (codes "-m") (codes "--mode")
    ∷ a.mode
    ∷ []

getopt-command_line :
    (short : Bool) (a : Args)
    → getopt (command_line short a) ≡ (
      option b'l' a.listen_addr
          ∷ option b'p' (decimal 20 a.listen_port)
          ∷ option b'b' a.backend_addr
          ∷ option b'P' (decimal 20 a.backend_port)
          ∷ option b'm' a.mode
          ∷ [],
      [],
    )
unfolding getopt command_line kind read_short read_long find_long same starts_with before from
getopt-command_line true a = refl
getopt-command_line false a = refl

parse_port-decimal : (n : ℕ) → IsPort n → parse_port (decimal 20 n) ≡ some n
unfolding parse_port
parse_port-decimal n h = ground (arith, strtol-decimal n)

-- Whatever the addresses are, also where they begin with a dash, an accepted configuration that is
-- written with all five options, in their short or in their long form, is read back by `parse_args`.
pub parse_args-command_line :
    (short : Bool) (a : Args) → IsAccepted a → parse_args (command_line short a) ≡ parsed a
unfolding parse_args apply_all apply
parse_args-command_line short a v = rw (getopt-command_line short a) (
    ground (
      arith,
      parse_port-decimal a.listen_port v.listens,
      parse_port-decimal a.backend_port v.connects,
      v.known,
      same_iff a.mode (codes "tcp"),
      same_iff a.mode (codes "http"),
    ))
