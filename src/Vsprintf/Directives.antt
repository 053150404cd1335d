-- ===== src/Vsprintf/Directives.antt =====
-- linux-0.11/kernel/vsprintf.c, vsprintf: the flags, width, precision and qualifier of a directive, on
-- the format after the %.
use learn_linux.Common.{
  ℕ, ◌-◌, ◌^◌, true, ◌||◌, Option, none, some, List, [], ◌∷◌, ◌==◌, if◌then◌else◌,
}
use learn_linux.Common.Options.{◌>>=◌}
use learn_linux.Vsprintf.Number.{is_digit, skip_atoi, Flags, no_flags, is_negative}

-- The characters - + space # 0, up to the first other one.
unfoldable pub read_flags : List ℕ → Flags → Flags × List ℕ
read_flags [] flags = (flags, [])
read_flags (c ∷ fmt) flags =
    let left = read_flags fmt (record flags { left = true }) in
    let plus = read_flags fmt (record flags { plus = true }) in
    let space = read_flags fmt (record flags { space = true }) in
    let special = read_flags fmt (record flags { special = true }) in
    let zeropad = read_flags fmt (record flags { zeropad = true }) in
    if c == 45
    then left
    else if c == 43
    then plus
    else if c == 32
    then space
    else if c == 35
    then special
    else if c == 48
    then zeropad
    else (flags, c ∷ fmt)

-- A directive after its flags: the width or precision is none for -1.
pub record Directive : Type 0 where
  pub flags : Flags
  pub width : Option ℕ
  pub precision : Option ℕ
  pub rest : List ℕ
  pub args : List ℕ

-- The width that an argument gives; a negative one is for the left. The least int stays negative
-- under `-`, which prints as a width of 0.
abbrev pub star_width : ℕ → Directive → Directive
star_width w d =
    if is_negative w
    then record d {
      flags = record d.flags { left = true };
      width = some (if w == 2 ^ 31 then 0 else 2 ^ 32 - w);
    }
    else record d { width = some w }

-- For `*` the format stays at the `*`.
abbrev pub take_star_width : List ℕ → Directive → Option Directive
take_star_width [] d = none
take_star_width (w ∷ args) d = some (star_width w (record d { args = args }))

abbrev pub width_at : List ℕ → Directive → Option Directive
width_at [] d = some d
width_at (c ∷ s) d =
    if is_digit c
    then some (record d { width = some (skip_atoi (c ∷ s)).0; rest = (skip_atoi (c ∷ s)).1 })
    else if c == 42
    then take_star_width d.args d
    else some d

abbrev pub read_width : Directive → Option Directive
read_width d = width_at d.rest d

abbrev pub take_star_precision : List ℕ → Directive → Option Directive
take_star_precision [] d = none
take_star_precision (p ∷ args) d =
    some (record d { precision = some (if is_negative p then 0 else p); args = args })

-- After the point; where no number follows the precision is 0.
abbrev pub precision_at : List ℕ → Directive → Option Directive
precision_at [] d = some (record d { precision = some 0; rest = [] })
precision_at (c ∷ s) d =
    if is_digit c
    then some (record d { precision = some (skip_atoi (c ∷ s)).0; rest = (skip_atoi (c ∷ s)).1 })
    else if c == 42
    then take_star_precision d.args (record d { rest = c ∷ s })
    else some (record d { precision = some 0; rest = c ∷ s })

abbrev pub point_at : List ℕ → Directive → Option Directive
point_at [] d = some d
point_at (c ∷ s) d = if c == 46 then precision_at s d else some d

abbrev pub read_precision : Directive → Option Directive
read_precision d = point_at d.rest d

-- h, l or L is passed over.
abbrev pub after_qualifier : List ℕ → List ℕ
after_qualifier [] = []
after_qualifier (c ∷ s) = if c == 104 || c == 108 || c == 76 then s else c ∷ s

abbrev pub read_qualifier : Directive → Directive
read_qualifier d = record d { rest = after_qualifier d.rest }

unfoldable pub read_directive : (fmt args : List ℕ) → Option Directive
unfolding skip_atoi
read_directive fmt args = do
  let (flags, rest) = read_flags fmt no_flags
  d ←
      read_width
        (record { flags = flags; width = none; precision = none; rest = rest; args = args })
  d' ← read_precision d
  some (read_qualifier d')
