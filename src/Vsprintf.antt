-- ===== src/Vsprintf.antt =====
-- linux-0.11/kernel/vsprintf.c: `vsprintf`. The format is the list of its characters before the NUL;
-- the arguments are words of 32 bits, and a pointer to a string stands for the list that `strings`
-- gives for it. What is stored by %n is a list of pairs of an address and a value.
pub mod Number
pub mod Directives
pub mod Digits
pub mod Formats
pub mod StarWidth
mod Tests
use learn_linux.Common.{
  ℕ, zero, suc, ◌+◌, ◌-◌, ◌%◌, ◌^◌, Bool, false, true, not, ◌&&◌, ◌||◌, Option, none, some, List,
  [], ◌∷◌, ◌++◌, ◌==◌, ltb, if◌then◌else◌, length, replicate, take,
}
use learn_linux.Vsprintf.Directives.{Directive, read_directive}
use learn_linux.Vsprintf.Number.{is_digit, skip_atoi, Flags, no_flags, is_negative, number}

-- What is left of the format and of the arguments, what is in the buffer, and what %n has stored.
pub record Run : Type 0 where
  pub fmt : List ℕ
  pub args : List ℕ
  pub str : List ℕ
  pub stored : List (ℕ × ℕ)

-- The call returns; it reads past the last argument; a number has no place in `tmp` or a base out of
-- range; or, in the loop on fuel, the fuel ran out.
pub data Printed : Type 0 where
  returns : (str : List ℕ) (stored : List (ℕ × ℕ)) → Printed
  no_argument : Printed
  no_number : Printed
  no_fuel : Printed

abbrev pub or_zero : Option ℕ → ℕ
or_zero none = 0
or_zero (some n) = n

-- The int's low byte, and blanks up to the width.
abbrev pub print_char : (arg : ℕ) → Directive → List ℕ
print_char arg d =
    let blanks = replicate (or_zero d.width - 1) 32 in
    if d.flags.left then arg % 256 ∷ blanks else blanks ++ (arg % 256 ∷ [])

abbrev pub cut : Option ℕ → List ℕ → List ℕ
cut none s = s
cut (some n) s = take n s

abbrev pub print_string : List ℕ → Directive → List ℕ
print_string s d =
    let text = cut d.precision s in
    let blanks = replicate (or_zero d.width - length text) 32 in
    if d.flags.left then text ++ blanks else blanks ++ text

-- The flags, width and base of the directive that a letter ends, where it is for a number.
abbrev pub print_number : (arg base : ℕ) → Directive → Option (List ℕ)
print_number arg base d = number arg base (or_zero d.width) (or_zero d.precision) d.flags

abbrev pub pointer_flags : Directive → Directive
pointer_flags d = elim d.width [
  | none ↦ record d { width = some 8; flags = record d.flags { zeropad = true } }
  | some w ↦ d
]

abbrev pub is_conversion : ℕ → Bool
is_conversion c =
    c == 99
    || c == 115
    || c == 111
    || c == 112
    || c == 120
    || c == 88
    || c == 100
    || c == 105
    || c == 117
    || c == 110

-- What the letter c, which is for a conversion but not %n, prints for an argument.
abbrev pub convert : (strings : ℕ → List ℕ) (c arg : ℕ) → Directive → Option (List ℕ)
convert strings c arg d =
    if c == 99
    then some (print_char arg d)
    else if c == 115
    then some (print_string (strings arg) d)
    else if c == 111
    then print_number arg 8 d
    else if c == 112
    then print_number arg 16 (pointer_flags d)
    else if c == 120
    then print_number arg 16 (record d { flags = record d.flags { small = true } })
    else if c == 88
    then print_number arg 16 d
    else if c == 117
    then print_number arg 10 d
    else print_number arg 10 (record d { flags = record d.flags { sign = true } })

-- A letter that is for no conversion is printed, after a % unless it is one.
abbrev pub other_letter : ℕ → List ℕ
other_letter c = if c == 37 then 37 ∷ [] else 37 ∷ c ∷ []

-- One turn of the loop: the rest of the run, or its end.
pub data Turn : Type 0 where
  goes_on : Run → Turn
  stops : Printed → Turn

-- Where a number is printed, or none.
abbrev pub append : Option (List ℕ) → Run → Turn
append none run = stops no_number
append (some out) run = goes_on (record run { str = run.str ++ out })

abbrev pub use_argument : (strings : ℕ → List ℕ) (c : ℕ) → List ℕ → Directive → Run → Turn
use_argument strings c [] d run = stops no_argument
use_argument strings c (arg ∷ args) d run =
    if c == 110
    then goes_on (record run { args = args; stored = run.stored ++ ((arg, length run.str) ∷ []) })
    else append (convert strings c arg d) (record run { args = args })

-- The end of the format is met again by the loop.
abbrev pub letter : (strings : ℕ → List ℕ) → List ℕ → Directive → Run → Turn
letter strings [] d run =
    goes_on (record run { fmt = []; args = d.args; str = run.str ++ (37 ∷ []) })
letter strings (c ∷ s) d run =
    if is_conversion c
    then use_argument strings c d.args d (record run { fmt = s })
    else goes_on (record run { fmt = s; args = d.args; str = run.str ++ other_letter c })

abbrev pub follow : (strings : ℕ → List ℕ) → Option Directive → Run → Turn
follow strings none run = stops no_argument
follow strings (some d) run = letter strings d.rest d run

abbrev pub turn : (strings : ℕ → List ℕ) (c : ℕ) (fmt : List ℕ) → Run → Turn
turn strings c fmt run =
    if c == 37
    then follow strings (read_directive fmt run.args) run
    else goes_on (record run { fmt = fmt; str = run.str ++ (c ∷ []) })

unfoldable pub print_loop : (strings : ℕ → List ℕ) (fuel : ℕ) → List ℕ → Run → Printed
print_loop strings fuel [] run = returns run.str run.stored
print_loop strings zero (c ∷ fmt) run = no_fuel
print_loop strings (suc fuel) (c ∷ fmt) run = elim (turn strings c fmt run) [
  | stops end ↦ end
  | goes_on run' ↦ print_loop strings fuel run'.fmt run'
]

-- The NUL at the end is not part of the list. The number of characters is the list's length.
unfoldable pub vsprintf : (strings : ℕ → List ℕ) (fmt args : List ℕ) → Printed
vsprintf strings fmt args =
    print_loop strings (length fmt) fmt (record { fmt = fmt; args = args; str = []; stored = [] })
