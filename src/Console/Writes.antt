-- ===== src/Console/Writes.antt =====
-- No character takes the cursor or the screen out of bounds.

use learn_linux.Common.{ℕ, ◌≡◌, ◌≢◌, refl, arith, false, List, [], ◌∷◌, ◌==◌, Bool-cases, inl, inr}
use learn_linux.Console.{
  Video, Console, csi_J, csi_K, csi_at, csi_L, csi_P, csi_M, insert_char, delete_char, insert_line,
  delete_line, count,
}
use learn_linux.Console.Escape.{finish, parameter, first_parameter, con_char, con_write}
use learn_linux.Console.Bounds.{
  IsVideo, IsConsole, insert_line-IsConsole, delete_line-IsConsole, repeat-IsConsole,
}
use learn_linux.Console.Chars.{plain_char-IsConsole, after_escape-IsConsole}
use learn_linux.Console.Moves.{finish_move-IsConsole}

module _ (v : Video) (iv : IsVideo v) where
  csi_J-IsConsole : (par : ℕ) (c : Console) → IsConsole v c → IsConsole v (csi_J v par c)
  unfolding csi_J
  csi_J-IsConsole par c i = ground arith

  csi_K-IsConsole : (par : ℕ) (c : Console) → IsConsole v c → IsConsole v (csi_K v par c)
  unfolding csi_K
  csi_K-IsConsole par c i = ground arith

  insert_char-IsConsole : (c : Console) → IsConsole v c → IsConsole v (insert_char v c)
  unfolding insert_char
  insert_char-IsConsole c i = i

  delete_char-IsConsole : (c : Console) → IsConsole v c → IsConsole v (delete_char v c)
  unfolding delete_char
  delete_char-IsConsole c i = ground arith

  csi_at-IsConsole : (nr : ℕ) (c : Console) → IsConsole v c → IsConsole v (csi_at v nr c)
  unfolding csi_at
  csi_at-IsConsole nr =
      repeat-IsConsole v iv (insert_char v) insert_char-IsConsole (count v.num_columns nr)

  csi_P-IsConsole : (nr : ℕ) (c : Console) → IsConsole v c → IsConsole v (csi_P v nr c)
  unfolding csi_P
  csi_P-IsConsole nr =
      repeat-IsConsole v iv (delete_char v) delete_char-IsConsole (count v.num_columns nr)

  csi_L-IsConsole : (nr : ℕ) (c : Console) → IsConsole v c → IsConsole v (csi_L v nr c)
  unfolding csi_L
  csi_L-IsConsole nr =
      repeat-IsConsole v iv (insert_line v) (insert_line-IsConsole v iv) (count v.num_lines nr)

  csi_M-IsConsole : (nr : ℕ) (c : Console) → IsConsole v c → IsConsole v (csi_M v nr c)
  unfolding csi_M
  csi_M-IsConsole nr =
      repeat-IsConsole v iv (delete_line v) (delete_line-IsConsole v iv) (count v.num_lines nr)

  finish-IsConsole : (ch : ℕ) (c : Console) → IsConsole v c → IsConsole v (finish v ch c)
  unfolding finish
  finish-IsConsole ch c i =
      let j = csi_J-IsConsole (c.par 0) c i in
      let k = csi_K-IsConsole (c.par 0) c i in
      let at = csi_at-IsConsole (c.par 0) c i in
      let p = csi_P-IsConsole (c.par 0) c i in
      let l = csi_L-IsConsole (c.par 0) c i in
      let m = csi_M-IsConsole (c.par 0) c i in
      let moves = finish_move-IsConsole v iv ch c i in ground arith

  parameter-IsConsole : (ch : ℕ) (c : Console) → IsConsole v c → IsConsole v (parameter v ch c)
  parameter-IsConsole ch c i =
      let done = finish-IsConsole ch (record c { state = 0 }) i in ground arith

  first_parameter-IsConsole :
      (ch : ℕ) (c : Console) → IsConsole v c → IsConsole v (first_parameter v ch c)
  first_parameter-IsConsole ch c i =
      let d = record c { npar = 0; par = λ _. 0; state = 3; ques = ch == 63 } in
      elim (Bool-cases (ch == 63)) [
        | inl question ↦ rw question i
        | inr other ↦ rw other (parameter-IsConsole ch (record d { ques = false }) i)
      ]

  con_char-IsConsole :
      (erase ch : ℕ) (c : Console) → IsConsole v c → IsConsole v (con_char v erase ch c)
  unfolding con_char
  con_char-IsConsole erase ch c i = elim (Bool-cases (c.state == 0)) [
    | inl plain ↦ rw plain (plain_char-IsConsole v iv erase ch c i)
    | inr e0 ↦ elim (Bool-cases (c.state == 1)) [
      | inl escape ↦ rw (e0, escape) (after_escape-IsConsole v iv ch c i)
      | inr e1 ↦ elim (Bool-cases (c.state == 2)) [
        | inl bracket ↦ rw (e0, e1, bracket) (first_parameter-IsConsole ch c i)
        | inr e2 ↦ elim (Bool-cases (c.state == 3)) [
          | inl number ↦ rw (e0, e1, e2, number) (parameter-IsConsole ch c i)
          | inr e3 ↦ elim (Bool-cases (c.state == 4)) [
            | inl last ↦ rw (e0, e1, e2, e3, last) (finish-IsConsole ch (record c { state = 0 }) i)
            | inr none ↦ rw (e0, e1, e2, e3, none) i
          ]
        ]
      ]
    ]
  ]

  -- Whatever characters are written to the console, printed ones, control characters and escape
  -- sequences with any parameters: the cursor stays on a line of the screen and in a column or just
  -- past the last one, `pos` stays its address, the screen stays within video memory as it scrolls,
  -- and the scrolling region stays a region of lines, on a display with at least eight columns whose
  -- screen fits video memory.
  pub con_write-IsConsole :
      (erase : ℕ) (chars : List ℕ) (c : Console)
      → IsConsole v c
      → IsConsole v (con_write v erase chars c)
  unfolding con_write
  con_write-IsConsole erase [] c i = i
  con_write-IsConsole erase (ch ∷ chars) c i =
      con_write-IsConsole erase chars (con_char v erase ch c) (con_char-IsConsole erase ch c i)

-- ESC 7 should save the cursor; the source tests the column for the character. Outside of the columns
-- 55 and 56 it only ends the sequence.
escape_seven :
    (v : Video) (erase : ℕ) (c : Console)
    → c.state ≡ 0
    → c.x ≢ 55
    → c.x ≢ 56
    → con_write v erase (27 ∷ 55 ∷ []) c ≡ record c { state = 0 }
unfolding con_write con_char
escape_seven v erase c plain not7 not8 =
    let a : (c.x == 55) ≡ false = ground arith in
    let b : (c.x == 56) ≡ false = ground arith in simp (plain, a, b) refl
