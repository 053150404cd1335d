-- ===== src/Console/Moves.antt =====
-- The letters that move the cursor or set the region keep the bounds.

use learn_linux.Common.{ℕ, ◌+◌, ◌-◌, ◌%◌, arith, ◌&&◌, ltb, leb, Bool-cases, inl, inr}
use learn_linux.Console.{Video, Console}
use learn_linux.Console.Escape.{
  finish_place, word, from_one, at_least_one, finish_move, set_region, all_lines, to_column, to_row,
  to_place, move_up, move_down, move_left, move_right, row_up, row_down,
}
use learn_linux.Console.Bounds.{IsVideo, IsConsole, gotoxy-IsConsole}

module _ (v : Video) (iv : IsVideo v) where
  set_region-IsConsole : (c : Console) → IsConsole v c → IsConsole v (set_region v c)
  unfolding set_region
  set_region-IsConsole c i =
      elim (Bool-cases (ltb (c.par 0) (c.par 1) && leb (c.par 1) v.num_lines)) [
        | inr out ↦ rw out i
        | inl inside ↦ rw inside (record {
          x_le = i.x_le;
          y_lt = i.y_lt;
          pos_at = i.pos_at;
          end_at = i.end_at;
          from_start = i.from_start;
          to_end = i.to_end;
          region = ground arith;
          region_le = ground arith;
        })
      ]

  from_one-IsConsole : (n : ℕ) (c : Console) → IsConsole v c → IsConsole v (from_one n c)
  unfolding from_one
  from_one-IsConsole n c i = ground arith

  at_least_one-IsConsole : (c : Console) → IsConsole v c → IsConsole v (at_least_one c)
  unfolding at_least_one
  at_least_one-IsConsole c i = ground arith

  all_lines-IsConsole : (c : Console) → IsConsole v c → IsConsole v (all_lines v c)
  unfolding all_lines
  all_lines-IsConsole c i = ground arith

  to_column-IsConsole : (c : Console) → IsConsole v c → IsConsole v (to_column v c)
  unfolding to_column
  to_column-IsConsole c i = gotoxy-IsConsole v iv (c.par 0) c.y c i

  to_row-IsConsole : (c : Console) → IsConsole v c → IsConsole v (to_row v c)
  unfolding to_row
  to_row-IsConsole c i = gotoxy-IsConsole v iv c.x (c.par 0) c i

  to_place-IsConsole : (c : Console) → IsConsole v c → IsConsole v (to_place v c)
  unfolding to_place
  to_place-IsConsole c i = gotoxy-IsConsole v iv (c.par 1) (c.par 0) c i

  move_up-IsConsole : (c : Console) → IsConsole v c → IsConsole v (move_up v c)
  unfolding move_up
  move_up-IsConsole c i = gotoxy-IsConsole v iv c.x ((c.y + word - c.par 0) % word) c i

  move_down-IsConsole : (c : Console) → IsConsole v c → IsConsole v (move_down v c)
  unfolding move_down
  move_down-IsConsole c i = gotoxy-IsConsole v iv c.x ((c.y + c.par 0) % word) c i

  move_right-IsConsole : (c : Console) → IsConsole v c → IsConsole v (move_right v c)
  unfolding move_right
  move_right-IsConsole c i = gotoxy-IsConsole v iv ((c.x + c.par 0) % word) c.y c i

  move_left-IsConsole : (c : Console) → IsConsole v c → IsConsole v (move_left v c)
  unfolding move_left
  move_left-IsConsole c i = gotoxy-IsConsole v iv ((c.x + word - c.par 0) % word) c.y c i

  row_down-IsConsole : (c : Console) → IsConsole v c → IsConsole v (row_down v c)
  unfolding row_down
  row_down-IsConsole c i = gotoxy-IsConsole v iv 0 ((c.y + c.par 0) % word) c i

  row_up-IsConsole : (c : Console) → IsConsole v c → IsConsole v (row_up v c)
  unfolding row_up
  row_up-IsConsole c i = gotoxy-IsConsole v iv 0 ((c.y + word - c.par 0) % word) c i

  finish_place-IsConsole :
      (ch : ℕ) (c : Console) → IsConsole v c → IsConsole v (finish_place v ch c)
  unfolding finish_place
  finish_place-IsConsole ch c i =
      let o = from_one 0 c in
      let oi = from_one-IsConsole 0 c i in
      let column = to_column-IsConsole o oi in
      let row = to_row-IsConsole o oi in
      let place = to_place-IsConsole (from_one 1 o) (from_one-IsConsole 1 o oi) in
      let region = set_region-IsConsole (all_lines v o) (all_lines-IsConsole o oi) in
      let restored = gotoxy-IsConsole v iv c.saved_x c.saved_y c i in ground arith

  pub finish_move-IsConsole :
      (ch : ℕ) (c : Console) → IsConsole v c → IsConsole v (finish_move v ch c)
  unfolding finish_move
  finish_move-IsConsole ch c i =
      let a = at_least_one c in
      let ai = at_least_one-IsConsole c i in
      let up = move_up-IsConsole a ai in
      let down = move_down-IsConsole a ai in
      let right = move_right-IsConsole a ai in
      let left = move_left-IsConsole a ai in
      let next = row_down-IsConsole a ai in
      let previous = row_up-IsConsole a ai in
      let place = finish_place-IsConsole ch c i in ground arith
