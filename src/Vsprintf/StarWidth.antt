-- ===== src/Vsprintf/StarWidth.antt =====
-- A width of `*` in a format.
use learn_linux.Common.{
  ℕ, suc, ◌-◌, ◌^◌, ◌≡◌, refl, inl, inr, none, some, List, [], ◌∷◌, ◌++◌, ◌==◌, Bool-cases,
  if◌then◌else◌,
}
use learn_linux.Vsprintf.Number.{is_negative, no_flags}
use learn_linux.Vsprintf.Directives.{Directive, read_flags, read_directive}
use learn_linux.Vsprintf.{print_loop}

star_directive : (w : ℕ) (fmt args : List ℕ) → Directive
star_directive w fmt args =
    let w' = if w == 2 ^ 31 then 0 else 2 ^ 32 - w in
    let negative = is_negative w in
    record {
      flags = record no_flags { left = negative };
      width = some (if negative then w' else w);
      precision = none;
      rest = 42 ∷ fmt;
      args = args;
    }

read_directive_star :
    (w : ℕ) (fmt args : List ℕ)
    → read_directive (42 ∷ fmt) (w ∷ args) ≡ some (star_directive w fmt args)
unfolding read_directive read_flags star_directive
read_directive_star w fmt args = elim (Bool-cases (is_negative w)) [
  | inl negative ↦ rw (negative, read_directive) refl
  | inr positive ↦ rw (positive, read_directive) refl
]

-- Where the format goes on with %*, one argument is taken and %* is put in the buffer: the * is not
-- skipped, so no conversion is made, and the run goes on with what follows the *.
star_is_printed :
    (strings : ℕ → List ℕ) (fuel : ℕ) (fmt : List ℕ) (w : ℕ) (args str : List ℕ)
    (stored : List (ℕ × ℕ))
    → print_loop strings
        (suc fuel)
        (37 ∷ 42 ∷ fmt)
        (record { fmt = 37 ∷ 42 ∷ fmt; args = w ∷ args; str = str; stored = stored })
      ≡ print_loop strings fuel fmt
          (record { fmt = fmt; args = args; str = str ++ (37 ∷ 42 ∷ []); stored = stored })
unfolding print_loop star_directive
star_is_printed strings fuel fmt w args str stored =
    rw (read_directive_star w fmt args, print_loop) refl
