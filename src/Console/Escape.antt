-- ===== src/Console/Escape.antt =====
-- linux-0.11/kernel/chr_drv/console.c, con_write: the characters and escape sequences. `erase` is the
-- terminal's erase character. Characters from 128 on are negative in the source.
use learn_linux.Common.{
  ℕ, zero, suc, ◌+◌, ◌-◌, ◌*◌, ◌%◌, ◌^◌, ◌&&◌, ◌||◌, List, [], ◌∷◌, ◌++◌, ◌==◌, ltb, leb,
  if◌then◌else◌, update,
}
use learn_linux.Console.{
  Video, Console, store_word, gotoxy, lf, ri, cr, back, del, csi_J, csi_K, csi_at, csi_L, csi_P,
  csi_M, save_cur, restore_cur,
}

abbrev pub npar_max : ℕ
npar_max = 16

abbrev pub word : ℕ
word = 2 ^ 32

-- The attribute after one parameter of the sequence m.
abbrev pub set_attr : (par attr : ℕ) → ℕ
set_attr par attr =
    if par == 0 || par == 27
    then 7
    else if par == 1 || par == 4
    then 15
    else if par == 7
    then 112
    else attr

-- The parameters i, i + 1, ..., n of them.
unfoldable pub csi_m : (par : ℕ → ℕ) (n i attr : ℕ) → ℕ
csi_m par zero i attr = attr
csi_m par (suc n) i attr = csi_m par n (suc i) (set_attr (par i) attr)

-- What the terminal answers: ESC [ ? 1 ; 2 c.
abbrev pub response : List ℕ
response = 27 ∷ 91 ∷ 63 ∷ 49 ∷ 59 ∷ 50 ∷ 99 ∷ []

abbrev pub respond : Console → Console
respond c = record c { answers = c.answers ++ response }

-- HZ / 8
abbrev pub sysbeep : Console → Console
sysbeep c = record c { beepcount = 12 }

abbrev pub set_par : (i value : ℕ) → Console → Console
set_par i value c = record c { par = update c.par i value }

-- if (par[i]) par[i]--
unfoldable pub from_one : (i : ℕ) → Console → Console
from_one i c = if c.par i == 0 then c else set_par i (c.par i - 1) c

-- if (!par[0]) par[0]++
unfoldable pub at_least_one : Console → Console
at_least_one c = if c.par 0 == 0 then set_par 0 1 c else c

module _ (v : Video) where
  -- x has passed the end of the row.
  abbrev pub wrap_row : Console → Console
  wrap_row c = lf v (record c { x = c.x - v.num_columns; pos = c.pos - v.size_row })

  abbrev pub wrap_before : Console → Console
  wrap_before c = if leb v.num_columns c.x then wrap_row c else c

  abbrev pub put_char : (ch : ℕ) → Console → Console
  put_char ch c =
      let c' = store_word c.pos (c.attr * 256 + ch) c in record c' { pos = c.pos + 2; x = c.x + 1 }

  abbrev pub tab_stop : Console → Console
  tab_stop c = let n = 8 - c.x % 8 in record c { x = c.x + n; pos = c.pos + n * 2 }

  abbrev pub wrap_after : Console → Console
  wrap_after c = if ltb v.num_columns c.x then wrap_row c else c

  abbrev pub plain_char : (erase ch : ℕ) → Console → Console
  plain_char erase ch c =
      if ltb 31 ch && ltb ch 127
      then put_char ch (wrap_before c)
      else if ch == 27
      then record c { state = 1 }
      else if ch == 10 || ch == 11 || ch == 12
      then lf v c
      else if ch == 13
      then cr c
      else if ltb ch 128 && ch == erase
      then del v c
      else if ch == 8
      then (if c.x == 0 then c else back c)
      else if ch == 9
      then wrap_after (tab_stop c)
      else if ch == 7
      then sysbeep c
      else c

  -- After ESC. The last two tests of the source are on x, not on the character.
  abbrev pub after_escape : (ch : ℕ) → Console → Console
  after_escape ch c0 =
      let c = record c0 { state = 0 } in
      if ch == 91
      then record c { state = 2 }
      else if ch == 69
      then gotoxy v 0 (c.y + 1) c
      else if ch == 77
      then ri v c
      else if ch == 68
      then lf v c
      else if ch == 90
      then respond c
      else if c.x == 55
      then save_cur c
      else if c.x == 56
      then restore_cur v c
      else c

  unfoldable pub to_column : Console → Console
  to_column c = gotoxy v (c.par 0) c.y c

  unfoldable pub to_row : Console → Console
  to_row c = gotoxy v c.x (c.par 0) c

  unfoldable pub to_place : Console → Console
  to_place c = gotoxy v (c.par 1) (c.par 0) c

  -- The coordinates are unsigned words.
  unfoldable pub move_up : Console → Console
  move_up c = gotoxy v c.x ((c.y + word - c.par 0) % word) c

  unfoldable pub move_down : Console → Console
  move_down c = gotoxy v c.x ((c.y + c.par 0) % word) c

  unfoldable pub move_right : Console → Console
  move_right c = gotoxy v ((c.x + c.par 0) % word) c.y c

  unfoldable pub move_left : Console → Console
  move_left c = gotoxy v ((c.x + word - c.par 0) % word) c.y c

  unfoldable pub row_down : Console → Console
  row_down c = gotoxy v 0 ((c.y + c.par 0) % word) c

  unfoldable pub row_up : Console → Console
  row_up c = gotoxy v 0 ((c.y + word - c.par 0) % word) c

  unfoldable pub set_region : Console → Console
  set_region c =
      if ltb (c.par 0) (c.par 1) && leb (c.par 1) v.num_lines
      then record c { top = c.par 0; bottom = c.par 1 }
      else c

  unfoldable pub all_lines : Console → Console
  all_lines c = if c.par 1 == 0 then set_par 1 v.num_lines c else c

  -- The letter that ends a sequence, for a place of the cursor and for the region.
  unfoldable pub finish_place : (ch : ℕ) → Console → Console
  unfolding to_column to_row to_place set_region all_lines from_one
  finish_place ch c =
      if ch == 71 || ch == 96
      then to_column (from_one 0 c)
      else if ch == 100
      then to_row (from_one 0 c)
      else if ch == 72 || ch == 102
      then to_place (from_one 1 (from_one 0 c))
      else if ch == 114
      then set_region (all_lines (from_one 0 c))
      else if ch == 115
      then save_cur c
      else if ch == 117
      then restore_cur v c
      else c

  -- For the moves by a distance.
  unfoldable pub finish_move : (ch : ℕ) → Console → Console
  unfolding move_up move_down move_right move_left row_down row_up at_least_one finish_place
  finish_move ch c =
      if ch == 65
      then move_up (at_least_one c)
      else if ch == 66 || ch == 101
      then move_down (at_least_one c)
      else if ch == 67 || ch == 97
      then move_right (at_least_one c)
      else if ch == 68
      then move_left (at_least_one c)
      else if ch == 69
      then row_down (at_least_one c)
      else if ch == 70
      then row_up (at_least_one c)
      else finish_place ch c

  -- The letters that change the text; the others move the cursor.
  unfoldable pub finish : (ch : ℕ) → Console → Console
  unfolding csi_J csi_K csi_L csi_M csi_P csi_at csi_m finish_move
  finish ch c =
      if ch == 74
      then csi_J v (c.par 0) c
      else if ch == 75
      then csi_K v (c.par 0) c
      else if ch == 76
      then csi_L v (c.par 0) c
      else if ch == 77
      then csi_M v (c.par 0) c
      else if ch == 80
      then csi_P v (c.par 0) c
      else if ch == 64
      then csi_at v (c.par 0) c
      else if ch == 109
      then record c { attr = csi_m c.par (c.npar + 1) 0 c.attr }
      else finish_move ch c

  abbrev pub parameter : (ch : ℕ) → Console → Console
  parameter ch c =
      if ch == 59 && ltb c.npar (npar_max - 1)
      then record c { npar = c.npar + 1 }
      else if leb 48 ch && leb ch 57
      then set_par c.npar ((10 * c.par c.npar + (ch - 48)) % word) c
      else finish ch (record c { state = 0 })

  abbrev pub first_parameter : (ch : ℕ) → Console → Console
  first_parameter ch c0 =
      let c = record c0 { npar = 0; par = λ _. 0; state = 3; ques = ch == 63 } in
      if ch == 63 then c else parameter ch c

  unfoldable pub con_char : (erase ch : ℕ) → Console → Console
  unfolding lf ri finish
  con_char erase ch c =
      if c.state == 0
      then plain_char erase ch c
      else if c.state == 1
      then after_escape ch c
      else if c.state == 2
      then first_parameter ch c
      else if c.state == 3
      then parameter ch c
      else if c.state == 4
      then finish ch (record c { state = 0 })
      else c

  unfoldable pub con_write : (erase : ℕ) → List ℕ → Console → Console
  unfolding con_char
  con_write erase [] c = c
  con_write erase (ch ∷ chars) c = con_write erase chars (con_char erase ch c)
