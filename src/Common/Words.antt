-- ===== src/Common/Words.antt =====
-- A C word that is used as a set of bits, as the function from a bit's number to its value. A
-- shift `1 << n` names bit n; `|` and `& ~` with such a mask set and clear it.
use Prim.Native.Nat.{ℕ, zero, suc}
use mathlib.Core.Bool.{Bool, true, false, ◌||◌}
use learn_linux.Common.Tests.{update}

abbrev pub Word : Type 0
Word = ℕ → Bool

abbrev pub no_bits : Word
no_bits = λ _. false

-- w | (1 << n)
abbrev pub with_bit : Word → ℕ → Word
with_bit w n = update w n true

-- w & ~(1 << n)
abbrev pub without_bit : Word → ℕ → Word
without_bit w n = update w n false

-- (w & ((1 << n) - 1)) != 0
unfoldable pub any_below : ℕ → Word → Bool
any_below zero w = false
any_below (suc n) w = w n || any_below n w
