-- ===== src/Args/Getopt.antt =====
-- `getopt_long` as parse_args (src/core/main.c) calls it, with the option string "l:p:b:P:m:h" and
-- the table `long_options`. As glibc has it: options and operands may be mixed, "--" ends the
-- options, a long name may be cut short where that is not ambiguous.
use epoll_proxy.Base.{
  ℕ, List, [], ◌∷◌, ◌++◌, Option, none, some, Bool, true, false, not, ◌&&◌, ◌||◌, ◌==◌,
  if◌then◌else◌, codes,
}
use epoll_proxy.Http.Chars.{starts_with, before, from}

-- What a call returns: an option with `optarg`, or '?'.
pub data Found : Type 0 where
  option : ℕ → List ℕ → Found
  unknown : Found

abbrev pub is_nil {ℓ} : {A : Type ℓ} → List A → Bool
is_nil [] = true
is_nil (c ∷ s) = false

-- `strcmp(s, t) == 0`
unfoldable pub same : List ℕ → List ℕ → Bool
same [] [] = true
same [] (c ∷ t) = false
same (c ∷ s) [] = false
same (c ∷ s) (d ∷ t) = c == d && same s t

-- `struct option`, with the value that is returned.
pub record LongOption : Type 0 where
  pub name : List ℕ
  pub takes_argument : Bool
  pub value : ℕ

abbrev long : List ℕ → Bool → ℕ → LongOption
long name takes_argument value = record {
  name = name;
  takes_argument = takes_argument;
  value = value;
}

abbrev pub long_options : List LongOption
long_options =
    long (codes "listen") true b'l'
    ∷ long (codes "port") true b'p'
    ∷ long (codes "backend") true b'b'
    ∷ long (codes "backend-port") true b'P'
    ∷ long (codes "mode") true b'm'
    ∷ long (codes "help") false b'h'
    ∷ []

-- The short options that take an argument.
abbrev pub takes_argument : ℕ → Bool
takes_argument c = c == b'l' || c == b'p' || c == b'b' || c == b'P' || c == b'm'

find_exact : List LongOption → List ℕ → Option LongOption
find_exact [] name = none
find_exact (o ∷ os) name = if same o.name name then some o else find_exact os name

find_prefix : List LongOption → List ℕ → List LongOption
find_prefix [] name = []
find_prefix (o ∷ os) name =
    let rest = find_prefix os name in if starts_with name o.name then o ∷ rest else rest

abbrev only : List LongOption → Option LongOption
only (o ∷ []) = some o
only _ = none

-- An exact name, or the only one that begins so.
unfoldable pub find_long : List ℕ → Option LongOption
unfolding find_exact find_prefix
find_long name = elim (find_exact long_options name) [
  | some o ↦ some o
  | none ↦ only (find_prefix long_options name)
]

-- What an element of `argv` holds: the options in it, and the option that waits for the next one.
abbrev pub Element : Type 0
Element = List Found × Option ℕ

-- "--name" or "--name=value", from behind the dashes.
unfoldable pub read_long : List ℕ → Element
read_long text =
    let value = from b'=' text in
    elim (find_long (before b'=' text)) [
      | none ↦ (unknown ∷ [], none)
      | some o ↦
          if o.takes_argument
          then elim value [ [] ↦ ([], some o.value) | c ∷ v ↦ (option o.value v ∷ [], none) ]
          else if is_nil value
          then (option o.value [] ∷ [], none)
          else (unknown ∷ [], none)
    ]

-- A cluster of short options, from behind the dash.
unfoldable pub read_short : List ℕ → Element
read_short [] = ([], none)
read_short (c ∷ s) =
    let (found, waits) = read_short s in
    if takes_argument c
    then (if is_nil s then ([], some c) else (option c s ∷ [], none))
    else ((if c == b'h' then option c [] else unknown) ∷ found, waits)

-- The other arguments: a dash alone is an operand.
pub data Kind : Type 0 where
  end_mark operand : Kind
  element : Element → Kind

unfoldable pub kind : List ℕ → Kind
kind [] = operand
kind (c ∷ []) = operand
kind (c ∷ d ∷ s) =
    if not (c == b'-')
    then operand
    else if not (d == b'-')
    then element (read_short (d ∷ s))
    else if is_nil s
    then end_mark
    else element (read_long s)

-- The calls until -1: what they return, and the arguments from `optind` on. An option that takes an
-- argument may wait for it.
unfoldable pub scan : Option ℕ → List (List ℕ) → List Found × List (List ℕ)
scan none [] = ([], [])
scan (some c) [] = (unknown ∷ [], [])
scan (some c) (arg ∷ rest) =
    let (found, operands) = scan none rest in (option c arg ∷ found, operands)
scan none (arg ∷ rest) = elim (kind arg) [
  | end_mark ↦ ([], rest)
  | operand ↦ let (found, operands) = scan none rest in (found, arg ∷ operands)
  | element (found, waits) ↦ let (more, operands) = scan waits rest in (found ++ more, operands)
]

unfoldable pub getopt : List (List ℕ) → List Found × List (List ℕ)
unfolding scan
getopt argv = scan none argv
