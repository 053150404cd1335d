-- ===== src/Console/Chars.antt =====
-- Plain characters and the characters after ESC keep the cursor in its bounds.

use learn_linux.Common.{
  ℕ, ◌+◌, ◌-◌, ◌*◌, ◌%◌, ◌≤◌, ◌<◌, ◌≡◌, arith, ◌==◌, ltb, leb, if◌then◌else◌, Bool-cases, inl, inr,
}
use learn_linux.Console.{Video, Console, back}
use learn_linux.Console.Escape.{
  put_char, tab_stop, wrap_after, wrap_before, wrap_row, plain_char, after_escape,
}
use learn_linux.Console.Bounds.{
  IsVideo, IsConsole, gotoxy-IsConsole, moved, lf-IsConsole, lf-x, ri-IsConsole, cr-IsConsole,
  back-IsConsole, del-IsConsole,
}

module _ (v : Video) (iv : IsVideo v) where
  -- A cursor that has passed the end of the row, by at most one row.
  wrap_row-IsConsole :
      (c : Console) (x pos : ℕ)
      → v.num_columns ≤ x
      → x ≤ v.num_columns + v.num_columns
      → pos ≡ c.origin + c.y * v.size_row + x * 2
      → IsConsole v c
      → IsConsole v (wrap_row v (record c { x = x; pos = pos }))
  wrap_row-IsConsole c x pos past low at i =
      let r = iv.row in
      lf-IsConsole v iv _ (
        moved v iv c (x - v.num_columns) c.y (pos - v.size_row) (omega arith) i.y_lt (omega arith)
          i)

  wrap_before-IsConsole :
      (c : Console)
      → IsConsole v c
      → IsConsole v (wrap_before v c) × ((wrap_before v c).x < v.num_columns)
  wrap_before-IsConsole c i = elim (Bool-cases (leb v.num_columns c.x)) [
    | inl past ↦ rw past (
      wrap_row-IsConsole c c.x c.pos (ground arith) (omega (arith, i.x_le)) i.pos_at i,
      (let e = lf-x v iv (record c { x = c.x - v.num_columns; pos = c.pos - v.size_row }) in
          rw e (let l = i.x_le in let w = iv.columns in omega arith)),
    )
    | inr inside ↦ rw inside (i, ground arith)
  ]

  put_char-IsConsole :
      (ch : ℕ) (c : Console) → c.x < v.num_columns → IsConsole v c → IsConsole v (put_char v ch c)
  put_char-IsConsole ch c low i =
      let p = i.pos_at in
      moved v iv c (c.x + 1) c.y (c.pos + 2) (omega arith) i.y_lt (omega arith) i

  tab-IsConsole : (c : Console) → IsConsole v c → IsConsole v (wrap_after v (tab_stop v c))
  tab-IsConsole c i = elim (Bool-cases (ltb v.num_columns (c.x + (8 - c.x % 8)))) [
    | inl past ↦ rw past (
        wrap_row-IsConsole c (c.x + (8 - c.x % 8)) (c.pos + (8 - c.x % 8) * 2) (ground arith)
          (let l = i.x_le in let w = iv.columns in omega arith) (let p = i.pos_at in omega arith) i)
    | inr inside ↦ rw inside (
        moved v iv c (c.x + (8 - c.x % 8)) c.y (c.pos + (8 - c.x % 8) * 2) (ground arith) i.y_lt
          (let p = i.pos_at in omega arith) i)
  ]

  back_one-IsConsole : (c : Console) → IsConsole v c → IsConsole v (if c.x == 0 then c else back c)
  back_one-IsConsole c i = elim (Bool-cases (c.x == 0)) [
    | inl start ↦ rw start i
    | inr some_x ↦ rw some_x (back-IsConsole v iv c some_x i)
  ]

  pub plain_char-IsConsole :
      (erase ch : ℕ) (c : Console) → IsConsole v c → IsConsole v (plain_char v erase ch c)
  plain_char-IsConsole erase ch c i =
      let w = wrap_before-IsConsole c i in
      let printed = put_char-IsConsole ch (wrap_before v c) w.1 w.0 in
      let feed = lf-IsConsole v iv c i in
      let return = cr-IsConsole v iv c i in
      let deleted = del-IsConsole v iv c i in
      let one_back = back_one-IsConsole c i in let tab = tab-IsConsole c i in ground arith

  pub after_escape-IsConsole :
      (ch : ℕ) (c : Console) → IsConsole v c → IsConsole v (after_escape v ch c)
  after_escape-IsConsole ch c i =
      let down = gotoxy-IsConsole v iv 0 (c.y + 1) (record c { state = 0 }) i in
      let rev = ri-IsConsole v iv (record c { state = 0 }) i in
      let feed = lf-IsConsole v iv (record c { state = 0 }) i in
      let back_to = gotoxy-IsConsole v iv c.saved_x c.saved_y (record c { state = 0 }) i in
      ground arith
