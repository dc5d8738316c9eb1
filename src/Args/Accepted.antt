-- ===== src/Args/Accepted.antt =====
-- What parse_args and validate_config (src/core/main.c) accept.
use epoll_proxy.Base.{
  ℕ, ◌≤◌, ◌≡◌, ◌⊎◌, ◌↔◌, inl, inr, refl, List, [], ◌∷◌, some, true, arith, ◌==◌, codes, Bool-cases,
  Option-cases,
}
use epoll_proxy.Base.Int.{ℤ, pos, negsuc}
use epoll_proxy.Base.Decimal.{strtol}
use epoll_proxy.Args.{
  Args, Parsed, parsed, refused, exited, defaults, port_of, parse_port, apply, apply_all,
  no_operands, parse_args,
}
use epoll_proxy.Args.Getopt.{Found, option, unknown, same, getopt}

pub same_iff : (s t : List ℕ) → (same s t ≡ true) ↔ (s ≡ t)
unfolding same
same_iff [] [] = ground arith
same_iff [] (c ∷ t) = ground arith
same_iff (c ∷ s) [] = ground arith
same_iff (c ∷ s) (d ∷ t) = ground (arith, same_iff s t)

abbrev pub IsPort : ℕ → Type 0
IsPort n = (1 ≤ n) × (n ≤ 65535)

-- The ports fit a `uint16_t` and are not 0, and the mode is one of the two.
pub record IsAccepted (a : Args) : Type 0 where
  pub listens : IsPort a.listen_port
  pub connects : IsPort a.backend_port
  pub known : (a.mode ≡ codes "tcp") ⊎ (a.mode ≡ codes "http")

port_of-IsPort : (z : ℤ) (n : ℕ) → port_of z ≡ some n → IsPort n
port_of-IsPort (pos m) n e = ground arith
port_of-IsPort (negsuc m) n e = cc

parse_port-IsPort : (text : List ℕ) (n : ℕ) → parse_port text ≡ some n → IsPort n
unfolding parse_port
parse_port-IsPort text n e = ground (arith, port_of-IsPort (strtol text).0 n)

defaults-IsAccepted : IsAccepted defaults
defaults-IsAccepted = record { listens = omega arith; connects = omega arith; known = inr refl }

apply-IsAccepted :
    (opt : ℕ) (optarg : List ℕ) (a a' : Args)
    → IsAccepted a
    → apply opt optarg a ≡ some a'
    → IsAccepted a'
unfolding apply
apply-IsAccepted opt optarg a a' v e = record {
  listens = ground (arith, v.listens, parse_port-IsPort optarg a'.listen_port);
  connects = ground (arith, v.connects, parse_port-IsPort optarg a'.backend_port);
  known = ground (arith, v.known, same_iff optarg (codes "tcp"), same_iff optarg (codes "http"));
}

apply_all-IsAccepted :
    (found : List Found) (a a' : Args)
    → IsAccepted a
    → apply_all found a ≡ parsed a'
    → IsAccepted a'
unfolding apply_all
apply_all-IsAccepted [] a a' v e = ground (arith, v)
apply_all-IsAccepted (unknown ∷ rest) a a' v e = cc
apply_all-IsAccepted (option opt optarg ∷ rest) a a' v e = elim (Bool-cases (opt == b'h')) [
  | inl h ↦ ground arith
  | inr h ↦ elim (Option-cases (apply opt optarg a)) [
    | inl e' ↦ ground arith
    | inr (b, e') ↦
        apply_all-IsAccepted rest b a' (apply-IsAccepted opt optarg a b v e') (ground arith)
  ]
]

parsed_of_no_operands :
    (operands : List (List ℕ)) (r : Parsed) (a : Args)
    → no_operands operands r ≡ parsed a
    → r ≡ parsed a
parsed_of_no_operands [] r a e = e
parsed_of_no_operands (x ∷ xs) (parsed b) a e = cc
parsed_of_no_operands (x ∷ xs) refused a e = cc
parsed_of_no_operands (x ∷ xs) exited a e = cc

-- Whatever the arguments are, if `parse_args` returns 0, both ports lie between 1 and 65535, and the
-- mode is "tcp" or "http".
pub parse_args-IsAccepted :
    (argv : List (List ℕ)) (a : Args) → parse_args argv ≡ parsed a → IsAccepted a
unfolding parse_args
parse_args-IsAccepted argv a e =
    let (found, operands) = getopt argv in
    apply_all-IsAccepted found defaults a defaults-IsAccepted (parsed_of_no_operands operands _ a e)
