-- ===== src/Console/Tests.antt =====
-- A colour display of 80 columns and 25 lines.
use learn_linux.Common.{◌+◌, ◌*◌, ◌≡◌, refl, arith, true, false, [], ◌∷◌}
use learn_linux.Console.{Video, Console}
use learn_linux.Console.Escape.{con_char, con_write}
use learn_linux.Console.Bounds.{IsVideo, IsConsole}
use learn_linux.Console.Writes.{con_write-IsConsole}

abbrev ega : Video
ega = record {
  is_ega = true;
  num_columns = 80;
  size_row = 160;
  num_lines = 25;
  mem_start = 753664;
  mem_end = 770048;
  erase_char = 1824;
}

abbrev screen : Console
screen = record {
  mem = λ _. 1824;
  origin = 753664;
  scr_end = 757664;
  pos = 753664 + 24 * 160;
  x = 0;
  y = 24;
  top = 0;
  bottom = 25;
  state = 0;
  npar = 0;
  par = λ _. 0;
  ques = false;
  attr = 7;
  saved_x = 0;
  saved_y = 0;
  beepcount = 0;
  answers = [];
}

ega-IsVideo : IsVideo ega
ega-IsVideo = record { row = refl; columns = omega arith; fits = omega arith }

screen-IsConsole : IsConsole ega screen
screen-IsConsole = record {
  x_le = omega arith;
  y_lt = omega arith;
  pos_at = refl;
  end_at = refl;
  from_start = omega arith;
  to_end = omega arith;
  region = omega arith;
  region_le = omega arith;
}

-- A line feed in the last line scrolls by moving the origin.
feed_scrolls : (con_write ega 127 (10 ∷ []) screen).origin ≡ 753824
unfolding con_write con_char
feed_scrolls = refl

-- ESC [ 3 ; 9 H
cursor_goes : (con_write ega 127 (27 ∷ 91 ∷ 51 ∷ 59 ∷ 57 ∷ 72 ∷ []) screen).x ≡ 8
unfolding con_write con_char
cursor_goes = refl

con_write-IsConsole_example :
    IsConsole ega (con_write ega 127 (97 ∷ 10 ∷ 9 ∷ 27 ∷ 91 ∷ 50 ∷ 74 ∷ []) screen)
con_write-IsConsole_example =
    con_write-IsConsole ega ega-IsVideo 127 (97 ∷ 10 ∷ 9 ∷ 27 ∷ 91 ∷ 50 ∷ 74 ∷ []) screen
      screen-IsConsole
