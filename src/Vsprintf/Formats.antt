-- ===== src/Vsprintf/Formats.antt =====
-- The loop of `vsprintf` ends.
use learn_linux.Common.{
  ℕ, zero, suc, ◌+◌, ◌%◌, ◌^◌, ◌-◌, ◌*◌, ◌≤◌, ◌≢◌, inl, inr, true, Option, none, some, List, [],
  ◌∷◌, ◌==◌, arith, Bool-cases, length,
}
use learn_linux.Common.Options.{◌>>=◌}
use learn_linux.Vsprintf.Number.{is_digit, is_negative, skip_digits, skip_atoi, Flags, no_flags}
use learn_linux.Vsprintf.Directives.{
  Directive, read_flags, width_at, read_width, take_star_width, precision_at, take_star_precision,
  point_at, read_precision, after_qualifier, read_qualifier, read_directive,
}
use learn_linux.Vsprintf.{
  Run, no_fuel, Turn, goes_on, stops, append, use_argument, letter, follow, turn, convert,
  is_conversion, print_loop, vsprintf,
}

-- The directive's rest is no longer than n, where there is one.
abbrev IsWithin : (n : ℕ) → Option Directive → Type 0
IsWithin n none = Unit {0}
IsWithin n (some d) = length d.rest ≤ n

read_flags-le : (fmt : List ℕ) (flags : Flags) → length (read_flags fmt flags).1 ≤ length fmt
unfolding read_flags
read_flags-le [] flags = omega arith
read_flags-le (c ∷ fmt) flags =
    let left = read_flags-le fmt (record flags { left = true }) in
    let plus = read_flags-le fmt (record flags { plus = true }) in
    let space = read_flags-le fmt (record flags { space = true }) in
    let special = read_flags-le fmt (record flags { special = true }) in
    let zeropad = read_flags-le fmt (record flags { zeropad = true }) in
    ground (arith, left, plus, space, special, zeropad)

skip_digits-le : (i : ℕ) (s : List ℕ) → length (skip_digits i s).1 ≤ length s
unfolding skip_digits
skip_digits-le i [] = omega arith
skip_digits-le i (c ∷ s) =
    let rest = skip_digits-le ((i * 10 + (c - 48)) % 2 ^ 32) s in ground (arith, rest)

skip_atoi-le : (s : List ℕ) → length (skip_atoi s).1 ≤ length s
unfolding skip_atoi
skip_atoi-le s = skip_digits-le 0 s

take_star_width-IsWithin :
    (n : ℕ) (args : List ℕ) (d : Directive)
    → length d.rest ≤ n
    → IsWithin n (take_star_width args d)
take_star_width-IsWithin n [] d low = tt
take_star_width-IsWithin n (w ∷ args) d low = elim (Bool-cases (is_negative w)) [
  | inl negative ↦ rw negative low
  | inr positive ↦ rw positive low
]

width_at-IsWithin :
    (s : List ℕ) (d : Directive) → length d.rest ≤ length s → IsWithin (length s) (width_at s d)
width_at-IsWithin [] d low = low
width_at-IsWithin (c ∷ s) d low = elim (Bool-cases (is_digit c)) [
  | inl number ↦ rw number (skip_atoi-le (c ∷ s))
  | inr other ↦ elim (Bool-cases (c == 42)) [
    | inl star ↦ rw (other, star) (take_star_width-IsWithin (length (c ∷ s)) d.args d low)
    | inr plain ↦ rw (other, plain) low
  ]
]

take_star_precision-IsWithin :
    (n : ℕ) (args : List ℕ) (d : Directive)
    → length d.rest ≤ n
    → IsWithin n (take_star_precision args d)
take_star_precision-IsWithin n [] d low = tt
take_star_precision-IsWithin n (p ∷ args) d low = low

precision_at-IsWithin :
    (n : ℕ) (s : List ℕ) (d : Directive) → length s ≤ n → IsWithin n (precision_at s d)
precision_at-IsWithin n [] d low = omega arith
precision_at-IsWithin n (c ∷ s) d low = elim (Bool-cases (is_digit c)) [
  | inl number ↦ rw number (let le = skip_atoi-le (c ∷ s) in omega arith)
  | inr other ↦ elim (Bool-cases (c == 42)) [
    | inl star ↦
        rw (other, star) (take_star_precision-IsWithin n d.args (record d { rest = c ∷ s }) low)
    | inr plain ↦ rw (other, plain) low
  ]
]

point_at-IsWithin :
    (n : ℕ) (s : List ℕ) (d : Directive)
    → length s ≤ n
    → length d.rest ≤ n
    → IsWithin n (point_at s d)
point_at-IsWithin n [] d low rest = rest
point_at-IsWithin n (c ∷ s) d low rest = elim (Bool-cases (c == 46)) [
  | inl point ↦ rw point (precision_at-IsWithin n s d (omega arith))
  | inr other ↦ rw other rest
]

after_qualifier-le : (s : List ℕ) → length (after_qualifier s) ≤ length s
after_qualifier-le [] = omega arith
after_qualifier-le (c ∷ s) = ground arith

after_precision-IsWithin :
    (n : ℕ) (o : Option Directive) → IsWithin n o → IsWithin n (o >>= λ d. some (read_qualifier d))
after_precision-IsWithin n none low = tt
after_precision-IsWithin n (some d) low = let le = after_qualifier-le d.rest in omega arith

after_width-IsWithin :
    (n : ℕ) (o : Option Directive)
    → IsWithin n o
    → IsWithin n (o >>= λ d. read_precision d >>= λ d'. some (read_qualifier d'))
after_width-IsWithin n none low = tt
after_width-IsWithin n (some d) low =
    after_precision-IsWithin n (read_precision d) (point_at-IsWithin n d.rest d low low)

IsWithin-mono : (m n : ℕ) (o : Option Directive) → m ≤ n → IsWithin m o → IsWithin n o
IsWithin-mono m n none le low = tt
IsWithin-mono m n (some d) le low = omega arith

read_directive-IsWithin : (fmt args : List ℕ) → IsWithin (length fmt) (read_directive fmt args)
unfolding read_directive
read_directive-IsWithin fmt args =
    let r = read_flags fmt no_flags in
    let d : Directive = record {
      flags = r.0;
      width = none;
      precision = none;
      rest = r.1;
      args = args;
    } in
    IsWithin-mono (length r.1) (length fmt) (read_directive fmt args) (read_flags-le fmt no_flags)
      (after_width-IsWithin (length r.1) (read_width d) (width_at-IsWithin r.1 d (omega arith)))

-- A turn leaves at most n characters of the format, or ends as the source does.
abbrev IsShorter : (n : ℕ) → Turn → Type 0
IsShorter n (goes_on run) = length run.fmt ≤ n
IsShorter n (stops end) = end ≢ no_fuel

append-IsShorter :
    (n : ℕ) (o : Option (List ℕ)) (run : Run) → length run.fmt ≤ n → IsShorter n (append o run)
append-IsShorter n none run low = λ e. cc
append-IsShorter n (some out) run low = low

module _ (strings : ℕ → List ℕ) where
  use_argument-IsShorter :
      (n c : ℕ) (args : List ℕ) (d : Directive) (run : Run)
      → length run.fmt ≤ n
      → IsShorter n (use_argument strings c args d run)
  use_argument-IsShorter n c [] d run low = λ e. cc
  use_argument-IsShorter n c (arg ∷ args) d run low = elim (Bool-cases (c == 110)) [
    | inl count ↦ rw count low
    | inr other ↦
        rw other (append-IsShorter n (convert strings c arg d) (record run { args = args }) low)
  ]

  letter-IsShorter :
      (n : ℕ) (s : List ℕ) (d : Directive) (run : Run)
      → length s ≤ n
      → IsShorter n (letter strings s d run)
  letter-IsShorter n [] d run low = omega arith
  letter-IsShorter n (c ∷ s) d run low = elim (Bool-cases (is_conversion c)) [
    | inl used ↦
        rw used (use_argument-IsShorter n c d.args d (record run { fmt = s }) (omega arith))
    | inr other ↦ rw other (omega arith)
  ]

  follow-IsShorter :
      (n : ℕ) (o : Option Directive) (run : Run) → IsWithin n o → IsShorter n (follow strings o run)
  follow-IsShorter n none run low = λ e. cc
  follow-IsShorter n (some d) run low = letter-IsShorter n d.rest d run low

  turn-IsShorter :
      (c : ℕ) (fmt : List ℕ) (run : Run) → IsShorter (length fmt) (turn strings c fmt run)
  turn-IsShorter c fmt run = elim (Bool-cases (c == 37)) [
    | inl percent ↦ rw percent (
        follow-IsShorter (length fmt) (read_directive fmt run.args) run
          (read_directive-IsWithin fmt run.args))
    | inr plain ↦ rw plain (omega arith)
  ]

  after_turn-ne-no_fuel :
      (n fuel : ℕ) (t : Turn)
      → n ≤ fuel
      → ((run : Run) → length run.fmt ≤ fuel → print_loop strings fuel run.fmt run ≢ no_fuel)
      → IsShorter n t
      → (elim t [ stops end ↦ end | goes_on run ↦ print_loop strings fuel run.fmt run ]) ≢ no_fuel
  after_turn-ne-no_fuel n fuel (stops end) low loop short = short
  after_turn-ne-no_fuel n fuel (goes_on run) low loop short = loop run (omega arith)

  print_loop-ne-no_fuel :
      (fuel : ℕ) (fmt : List ℕ) (run : Run)
      → length fmt ≤ fuel
      → print_loop strings fuel fmt run ≢ no_fuel
  unfolding print_loop
  print_loop-ne-no_fuel fuel [] run low = λ e. cc
  print_loop-ne-no_fuel zero (c ∷ fmt) run low = absurd (omega arith)
  print_loop-ne-no_fuel (suc fuel) (c ∷ fmt) run low =
      after_turn-ne-no_fuel (length fmt) fuel (turn strings c fmt run) (omega arith)
        (λ run' low'. print_loop-ne-no_fuel fuel run'.fmt run' low') (turn-IsShorter c fmt run)

-- `vsprintf` ends for any format and arguments: as many turns of its loop as the format has
-- characters are enough.
pub vsprintf-ne-no_fuel :
    (strings : ℕ → List ℕ) (fmt args : List ℕ) → vsprintf strings fmt args ≢ no_fuel
unfolding vsprintf
vsprintf-ne-no_fuel strings fmt args =
    print_loop-ne-no_fuel strings (length fmt) fmt _ (omega arith)
