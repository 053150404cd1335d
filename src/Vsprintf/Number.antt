-- ===== src/Vsprintf/Number.antt =====
-- linux-0.11/kernel/vsprintf.c: `skip_atoi` and `number`. A character is its code, a string a list of
-- codes; `number` returns what it appends at `str`, or none for the null pointer. An int argument is
-- its word of 32 bits.
use learn_linux.Common.{
  ℕ, zero, suc, ◌+◌, ◌-◌, ◌*◌, ◌/◌, ◌%◌, ◌^◌, Bool, false, not, ◌&&◌, ◌||◌, Option, none, some,
  List, [], ◌∷◌, ◌++◌, ◌==◌, ltb, leb, if◌then◌else◌, length, replicate,
}

abbrev pub is_digit : ℕ → Bool
is_digit c = leb 48 c && leb c 57

-- The value, a word of 32 bits, and the string from the first character on that is no digit
unfoldable pub skip_digits : (i : ℕ) → List ℕ → ℕ × List ℕ
skip_digits i [] = (i, [])
skip_digits i (c ∷ s) =
    let rest = skip_digits ((i * 10 + (c - 48)) % 2 ^ 32) s in
    if is_digit c then rest else (i, c ∷ s)

unfoldable pub skip_atoi : List ℕ → ℕ × List ℕ
skip_atoi s = skip_digits 0 s

pub record Flags : Type 0 where
  pub zeropad : Bool
  pub sign : Bool
  pub plus : Bool
  pub space : Bool
  pub left : Bool
  pub special : Bool
  pub small : Bool

abbrev pub no_flags : Flags
no_flags = record {
  zeropad = false;
  sign = false;
  plus = false;
  space = false;
  left = false;
  special = false;
  small = false;
}

-- digits[d], in capital or small letters
abbrev pub digit : (small : Bool) (d : ℕ) → ℕ
digit small d = if ltb d 10 then 48 + d else if small then 87 + d else 55 + d

-- The loop that fills `tmp`, with the last digit first; none where `tmp` is too short.
unfoldable pub digits_loop : (room : ℕ) (small : Bool) (base num : ℕ) → Option (List ℕ)
digits_loop room small base zero = some []
digits_loop zero small base (suc n) = none
digits_loop (suc room) small base (suc n) = elim (digits_loop room small base (suc n / base)) [
  | none ↦ none
  | some tmp ↦ some (digit small (suc n % base) ∷ tmp)
]

-- tmp is an array of 36 characters.
unfoldable pub fill_tmp : (small : Bool) (base num : ℕ) → Option (List ℕ)
fill_tmp small base num = if num == 0 then some (48 ∷ []) else digits_loop 36 small base num

abbrev pub is_negative : ℕ → Bool
is_negative num = leb (2 ^ 31) num

-- The sign's character, or none for 0.
abbrev pub sign_of : Flags → (num : ℕ) → List ℕ
sign_of type num =
    if type.sign && is_negative num
    then 45 ∷ []
    else if type.plus
    then 43 ∷ []
    else if type.space
    then 32 ∷ []
    else []

-- num = -num, in 32 bits
abbrev pub magnitude : Flags → (num : ℕ) → ℕ
magnitude type num = if type.sign && is_negative num then (2 ^ 32 - num) % 2 ^ 32 else num

abbrev pub prefix : Flags → (base : ℕ) → List ℕ
prefix type base =
    if type.special
    then (if base == 8 then 48 ∷ [] else if base == 16 then 48 ∷ digit type.small 33 ∷ [] else [])
    else []

-- while (i-- > 0) *str++ = tmp[i];
unfoldable pub backwards : (tmp str : List ℕ) → List ℕ
backwards [] str = str
backwards (c ∷ tmp) str = backwards tmp (c ∷ str)

-- Width left over, where a loop `while (size-- > 0)` for a negative size does nothing.
abbrev pub size_left : (size : ℕ) (sign special tmp : List ℕ) (precision : ℕ) → ℕ
size_left size sign special tmp precision =
    size
    - length sign
    - length special
    - (if ltb precision (length tmp) then length tmp else precision)

abbrev pub lay_out :
    Flags → (size precision : ℕ) → (sign special : List ℕ) → (tmp : List ℕ) → List ℕ
lay_out type size precision sign special tmp =
    let blanks = size_left size sign special tmp precision in
    (if type.left || type.zeropad then [] else replicate blanks 32)
    ++ sign
    ++ special
    ++ (if not type.left && type.zeropad then replicate blanks 48 else [])
    ++ replicate (precision - length tmp) 48
    ++ backwards tmp []
    ++ (if type.left then replicate blanks 32 else [])

-- A size of -1 (no width) counts as 0 and a precision of -1 as 0: both are only compared.
unfoldable pub number : (num base size precision : ℕ) → Flags → Option (List ℕ)
number num base size precision type =
    if ltb base 2 || ltb 36 base
    then none
    else elim (fill_tmp type.small base (magnitude type num)) [
      | none ↦ none
      | some tmp ↦ some (lay_out type size precision (sign_of type num) (prefix type base) tmp)
    ]
