-- ===== src/Vsprintf/Tests.antt =====
-- Runs of `vsprintf`, and the theorems at small formats.
use learn_linux.Common.{ℕ, ◌≡◌, ◌≢◌, refl, true, List, [], ◌∷◌, arith}
use learn_linux.Vsprintf.Number.{
  no_flags, skip_digits, skip_atoi, digits_loop, fill_tmp, backwards, number,
}
use learn_linux.Vsprintf.Directives.{read_flags, read_directive}
use learn_linux.Vsprintf.{returns, no_fuel, print_loop, vsprintf}
use learn_linux.Vsprintf.Digits.{Filled, fill_tmp-Filled, ReadBack, number-ReadBack}
use learn_linux.Vsprintf.Formats.{vsprintf-ne-no_fuel}

abbrev no_strings : ℕ → List ℕ
no_strings = λ _. []

-- The format a%5d and the argument -12.
signed :
    vsprintf no_strings (97 ∷ 37 ∷ 53 ∷ 100 ∷ []) (4294967284 ∷ [])
    ≡ returns (97 ∷ 32 ∷ 32 ∷ 45 ∷ 49 ∷ 50 ∷ []) []
unfolding vsprintf print_loop read_directive read_flags skip_atoi skip_digits number fill_tmp
    digits_loop backwards
signed = refl

-- The format %#06x and the argument 255.
hexadecimal :
    vsprintf no_strings (37 ∷ 35 ∷ 48 ∷ 54 ∷ 120 ∷ []) (255 ∷ [])
    ≡ returns (48 ∷ 120 ∷ 48 ∷ 48 ∷ 102 ∷ 102 ∷ []) []
unfolding vsprintf print_loop read_directive read_flags skip_atoi skip_digits number fill_tmp
    digits_loop backwards
hexadecimal = refl

fill_tmp-Filled_example : Filled 36 16 4294967295 (fill_tmp true 16 4294967295)
fill_tmp-Filled_example =
    fill_tmp-Filled true 16 4294967295 (omega arith) (omega arith) (omega arith)

number-ReadBack_example : ReadBack 2026 (46 ∷ []) (number 2026 10 0 0 no_flags)
number-ReadBack_example = number-ReadBack 2026 (46 ∷ []) (omega arith) refl

vsprintf-ne-no_fuel_example : vsprintf no_strings (97 ∷ 37 ∷ 37 ∷ []) [] ≢ no_fuel
vsprintf-ne-no_fuel_example = vsprintf-ne-no_fuel no_strings (97 ∷ 37 ∷ 37 ∷ []) []
