-- ===== src/Vsprintf/Digits.antt =====
-- The digits that `number` writes, and that `skip_atoi` reads them back.
use native.Mathlib.Nat.{mod-add-div, mod-lt, mul-le-mul_right, pow-suc}
use learn_linux.Common.{
  ℕ, zero, suc, ◌+◌, ◌-◌, ◌*◌, ◌/◌, ◌%◌, ◌^◌, ◌≤◌, ◌<◌, ◌≡◌, refl, ◌∙◌, inl, inr, Bool, true, false,
  Option, some, List, [], ◌∷◌, ◌++◌, ◌==◌, ltb, arith, Bool-cases, if◌then◌else◌, length,
  length-append, length-replicate,
}
use mathlib.Core.List.{append-nil}
use learn_linux.Vsprintf.Number.{
  is_digit, skip_digits, skip_atoi, Flags, no_flags, digit, digits_loop, fill_tmp, backwards,
  lay_out, number,
}

-- The number that a digit stands for.
abbrev pub digit_value : ℕ → ℕ
digit_value c = if ltb c 58 then c - 48 else if ltb c 91 then c - 55 else c - 87

-- The number that digits stand for, the last digit first.
abbrev pub of_digits : (base : ℕ) → List ℕ → ℕ
of_digits base [] = 0
of_digits base (c ∷ tmp) = digit_value c + base * of_digits base tmp

abbrev pub AllDecimal : List ℕ → Type 0
AllDecimal [] = Unit {0}
AllDecimal (c ∷ tmp) = (is_digit c ≡ true) × AllDecimal tmp

-- The digits are filled in: they stand for the number, take at most `room` places, and are decimal
-- if the base is at most 10.
pub data Filled (room base num : ℕ) (r : Option (List ℕ)) : Type 0 where
  filled :
      (tmp : List ℕ)
      → r ≡ some tmp
      → of_digits base tmp ≡ num
      → length tmp ≤ room
      → (base ≤ 10 → AllDecimal tmp)
      → Filled room base num r

digit_value-digit : (small : Bool) (d : ℕ) → d < 36 → digit_value (digit small d) ≡ d
digit_value-digit true d low = ground arith
digit_value-digit false d low = ground arith

digit-is_digit : (small : Bool) (d : ℕ) → d < 10 → is_digit (digit small d) ≡ true
digit-is_digit small d low = ground arith

double_le : (base q : ℕ) → 2 ≤ base → q + q ≤ base * q
double_le base q low = let le = mul-le-mul_right q low in omega arith

digits_loop-Filled :
    (room : ℕ) (small : Bool) (base num : ℕ)
    → 2 ≤ base
    → base ≤ 36
    → num < 2 ^ room
    → Filled room base num (digits_loop room small base num)
unfolding digits_loop
digits_loop-Filled room small base zero low high fits = filled [] refl refl (omega arith) (λ _. tt)
digits_loop-Filled zero small base (suc n) low high fits = absurd (omega arith)
digits_loop-Filled (suc room) small base (suc n) low high fits =
    let q = suc n / base in
    let r = suc n % base in
    let r_lt : r < base = mod-lt (suc n) (omega arith) in
    let split : r + base * q ≡ suc n = mod-add-div (suc n) base in
    let half = double_le base q low in
    let q_lt : q < 2 ^ room = let double = pow-suc 2 room in omega arith in
    elim (digits_loop-Filled room small base q low high q_lt) [
      | filled tmp e value few decimal ↦
          filled (digit small r ∷ tmp) (rw (e, digits_loop) refl)
            (rw (digit_value-digit small r (omega arith), value) split) (omega arith)
            (λ ten. (digit-is_digit small r (omega arith), decimal ten))
    ]

-- In any base from 2 to 36 and for any number of 36 bits, `tmp` is long enough; the digits put in it
-- stand for the number, the last digit first, and are decimal ones if the base is at most 10.
pub fill_tmp-Filled :
    (small : Bool) (base num : ℕ)
    → 2 ≤ base
    → base ≤ 36
    → num < 2 ^ 36
    → Filled 36 base num (fill_tmp small base num)
unfolding fill_tmp
fill_tmp-Filled small base num low high fits = elim (Bool-cases (num == 0)) [
  | inl nothing ↦ rw nothing (filled (48 ∷ []) refl (ground arith) (omega arith) (λ _. (refl, tt)))
  | inr other ↦ rw other (digits_loop-Filled 36 small base num low high fits)
]

-- The digits are read back, whatever follows.
skip_digits-backwards :
    (tmp str : List ℕ)
    → AllDecimal tmp
    → of_digits 10 tmp < 2 ^ 32
    → skip_digits 0 (backwards tmp str) ≡ skip_digits (of_digits 10 tmp) str
unfolding skip_digits backwards
skip_digits-backwards [] str decimal low = refl
skip_digits-backwards (c ∷ tmp) str decimal low =
    let d : is_digit c ≡ true = decimal.0 in
    let v : of_digits 10 tmp * 10 + (c - 48) ≡ digit_value c + 10 * of_digits 10 tmp =
      ground arith in
    let wide : of_digits 10 (c ∷ tmp) ≡ digit_value c + 10 * of_digits 10 tmp = refl in
    let v' : (of_digits 10 tmp * 10 + (c - 48)) % 2 ^ 32 ≡ of_digits 10 (c ∷ tmp) = omega arith in
    skip_digits-backwards tmp (c ∷ str) decimal.1 (omega arith) ∙ rw (d, skip_digits, v') refl

backwards-append : (tmp str rest : List ℕ) → backwards tmp str ++ rest ≡ backwards tmp (str ++ rest)
unfolding backwards
backwards-append [] str rest = refl
backwards-append (c ∷ tmp) str rest = backwards-append tmp (c ∷ str) rest

abbrev pub starts_digit : List ℕ → Bool
starts_digit [] = false
starts_digit (c ∷ s) = is_digit c

skip_digits-stops :
    (i : ℕ) (rest : List ℕ) → starts_digit rest ≡ false → skip_digits i rest ≡ (i, rest)
unfolding skip_digits
skip_digits-stops i [] h = refl
skip_digits-stops i (c ∷ rest) h = rw (h, skip_digits) refl

-- `number` writes a string that `skip_atoi` reads back.
pub data ReadBack (num : ℕ) (rest : List ℕ) (r : Option (List ℕ)) : Type 0 where
  reads : (s : List ℕ) → r ≡ some s → skip_atoi (s ++ rest) ≡ (num, rest) → ReadBack num rest r

-- `number` with base 10 and no flags, width or precision writes any unsigned word of 32 bits so
-- that `skip_atoi` reads it back, and stops at what follows, where that starts with no digit.
pub number-ReadBack :
    (num : ℕ) (rest : List ℕ)
    → num < 2 ^ 32
    → starts_digit rest ≡ false
    → ReadBack num rest (number num 10 0 0 no_flags)
unfolding number skip_atoi
number-ReadBack num rest low stop =
    elim (fill_tmp-Filled false 10 num (omega arith) (omega arith) (omega arith)) [
      | filled tmp e value few decimal ↦
          let none_left : 0 - (if ltb 0 (length tmp) then length tmp else 0) ≡ 0 = omega arith in
          let no_zeros : 0 - length tmp ≡ 0 = omega arith in
          reads (lay_out no_flags 0 0 [] [] tmp) (rw (e, number) refl) (
            rw (none_left, no_zeros, append-nil (backwards tmp []), backwards-append tmp [] rest)
              (skip_digits-backwards tmp rest (decimal (omega arith)) (rw value low)
                ∙ rw value (skip_digits-stops num rest stop)))
    ]

length-backwards : (tmp str : List ℕ) → length (backwards tmp str) ≡ length tmp + length str
unfolding backwards
length-backwards [] str = omega arith
length-backwards (c ∷ tmp) str = length-backwards tmp (c ∷ str) ∙ omega arith

-- The places that sign, prefix and digits take, zeros for the precision counted.
abbrev pub taken : (precision : ℕ) (sign special tmp : List ℕ) → ℕ
taken precision sign special tmp =
    length sign + length special + (if ltb precision (length tmp) then length tmp else precision)

-- What is laid out is as long as the width says, or as sign, prefix, zeros and digits together where
-- they are longer, whatever the flags.
length-lay_out :
    (type : Flags) (size precision : ℕ) (sign special tmp : List ℕ)
    → length (lay_out type size precision sign special tmp)
      ≡ (let n = taken precision sign special tmp in if ltb size n then n else size)
length-lay_out type size precision sign special tmp = elim (Bool-cases type.left) [
  | inl left ↦ simp (left, length-append, length-replicate, length-backwards) (ground arith)
  | inr right ↦ elim (Bool-cases type.zeropad) [
    | inl zeros ↦
        simp (right, zeros, length-append, length-replicate, length-backwards) (ground arith)
    | inr blanks ↦
        simp (right, blanks, length-append, length-replicate, length-backwards) (ground arith)
  ]
]
