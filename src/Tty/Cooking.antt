-- ===== src/Tty/Cooking.antt =====
-- copy_to_cooked and tty_intr of linux-0.11/kernel/chr_drv/tty_io.c.
use learn_linux.Common.{
  ℕ, zero, suc, ◌+◌, ◌%◌, ◌^◌, Bool, true, false, not, ◌&&◌, ◌||◌, Option, none, some, ◌==◌, ltb,
  leb, if◌then◌else◌,
}
use learn_linux.Common.Int.{ℤ, is_pos, eq_ℤ}
use learn_linux.Common.Words.{with_bit}
use learn_linux.Task.{Task, Table, nr_tasks}
use learn_linux.Tty.{
  Termios, Tty, empty, full, last, putch, drop_first, drop_last, is_char, is_control, ends_line,
}

abbrev pub interrupted : (pgrp : ℤ) (bit : ℕ) → Option Task → Option Task
interrupted pgrp bit none = none
interrupted pgrp bit (some t) =
    some (if eq_ℤ t.pgrp pgrp then record t { signal = with_bit t.signal bit } else t)

-- The mask has the one bit. Each slot is looked at by itself.
abbrev pub tty_intr : (bit : ℕ) → Tty → Table → Table
tty_intr bit tty table =
    λ i. if is_pos tty.pgrp && ltb i nr_tasks then interrupted tty.pgrp bit (table i) else table i

-- SIGINT - 1 and SIGQUIT - 1
abbrev pub int_bit : ℕ
int_bit = 1

abbrev pub quit_bit : ℕ
quit_bit = 2

-- The character after the changes of line ends, or none where it is left out
unfoldable pub line_end : Termios → (c : ℕ) → Option ℕ
line_end t c =
    if c == 13
    then (if t.icrnl then some 10 else if t.igncr then none else some 13)
    else if c == 10 && t.inlcr
    then some 13
    else some c

-- tolower, for IUCLC; a byte from 128 on is taken as no letter.
abbrev pub lower : Termios → (c : ℕ) → ℕ
lower t c = if t.iuclc && (leb 65 c && leb c 90) then c + 32 else c

abbrev pub put_out : (c : ℕ) → Tty → Tty
put_out c tty = record tty { write_q = putch c tty.write_q }

abbrev pub write_out : Tty → Tty
write_out tty = record tty { write_q = tty.write tty.write_q }

-- The echo of an erased character
abbrev pub echo_erased : (c : ℕ) → Tty → Tty
echo_erased c tty =
    if tty.termios.echo
    then write_out (put_out 127 (if is_control c then put_out 127 tty else tty))
    else tty

abbrev pub at_line_start : Tty → Bool
at_line_start tty = empty tty.secondary || ends_line tty.termios (last tty.secondary)

-- The last character is erased, with its echo.
unfoldable pub erase_last : Tty → Tty
erase_last tty =
    let echoed = echo_erased (last tty.secondary) tty in
    record echoed { secondary = drop_last echoed.secondary }

unfoldable pub kill_line : (fuel : ℕ) → Tty → Tty
kill_line zero tty = tty
kill_line (suc fuel) tty =
    let rest = kill_line fuel (erase_last tty) in if at_line_start tty then tty else rest

-- The characters that edit a line, or stop or start the output; none for any other
unfoldable pub edit : (c : ℕ) → Tty → Option Tty
edit c tty =
    let t = tty.termios in
    if not t.icanon
    then none
    else if is_char c t.kill_char
    then some (kill_line 1024 tty)
    else if is_char c t.erase_char
    then some (if at_line_start tty then tty else erase_last tty)
    else if is_char c t.stop_char
    then some (record tty { stopped = true })
    else if is_char c t.start_char
    then some (record tty { stopped = false })
    else none

-- The signal that a character sends
abbrev pub signal_of : Termios → (c : ℕ) → Option ℕ
signal_of t c =
    if not t.isig
    then none
    else if is_char c t.intr_char
    then some int_bit
    else if is_char c t.quit_char
    then some quit_bit
    else none

abbrev pub echo_plain : (c : ℕ) → Tty → Tty
echo_plain c tty =
    let t = tty.termios in
    if not t.echo
    then tty
    else write_out (
        if c == 10
        then put_out 13 (put_out 10 tty)
        else if is_control c
        then (if t.echoctl then put_out ((c + 64) % 256) (put_out 94 tty) else tty)
        else put_out c tty)

-- A character that is kept goes to the line, and one that ends it is counted.
unfoldable pub keep_char : (c : ℕ) → Tty → Tty
keep_char c tty =
    let s = tty.secondary in
    let lines = if ends_line tty.termios c then (s.lines + 1) % 2 ^ 32 else s.lines in
    let echoed = echo_plain c (record tty { secondary = record s { lines = lines } }) in
    record echoed { secondary = putch c echoed.secondary }

pub record State : Type 0 where
  pub tty : Tty
  pub table : Table

abbrev pub plain : (c : ℕ) → State → Option ℕ → State
plain c s none = record s { tty = keep_char c s.tty }
plain c s (some bit) = record s { table = tty_intr bit s.tty s.table }

abbrev pub edited : (c : ℕ) → State → Option Tty → State
edited c s none = plain c s (signal_of s.tty.termios c)
edited c s (some tty) = record s { tty = tty }

abbrev pub converted : State → Option ℕ → State
converted s none = s
converted s (some c0) = let c = lower s.tty.termios c0 in edited c s (edit c s.tty)

-- One round of the loop
unfoldable pub cook_char : State → State
cook_char s =
    let q = s.tty.read_q in
    let got = record s { tty = record s.tty { read_q = drop_first q } } in
    converted got (line_end s.tty.termios (q.buf q.tail))

unfoldable pub cook : (fuel : ℕ) → State → State
cook zero s = s
cook (suc fuel) s =
    let rest = cook fuel (cook_char s) in
    if empty s.tty.read_q || full s.tty.secondary then s else rest

-- The loop, and wake_up of the readers. A round takes a character of the queue, which has 1023 at most.
unfoldable pub copy_to_cooked : State → State
copy_to_cooked s =
    let done = cook 1024 s in
    record done {
      tty = record done.tty { secondary = record done.tty.secondary { proc_list = false } };
    }
