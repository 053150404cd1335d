-- ===== src/Tty.antt =====
-- linux-0.11/include/linux/tty.h and copy_to_cooked of linux-0.11/kernel/chr_drv/tty_io.c: the characters
-- that were typed are edited into lines. A character is a byte; as a signed char it is negative from 128
-- on. `tty->write` is a function of the queue that it empties, and the table is that of the tasks.
pub mod Cooking
pub mod Queues
pub mod Lines
pub mod Editing
pub mod Edits
pub mod Loop
pub mod Reading
pub mod Reads
mod Tests
use learn_linux.Common.{
  ℕ, zero, suc, ◌+◌, ◌-◌, ◌*◌, ◌%◌, ◌^◌, Bool, true, false, not, ◌&&◌, ◌||◌, Option, none, some,
  ◌==◌, ltb, leb, if◌then◌else◌, update,
}
use learn_linux.Common.Int.{ℤ, is_pos, eq_ℤ}
use learn_linux.Common.Words.{with_bit}
use learn_linux.Task.{Task, Table, nr_tasks}

-- lines: the field `data`. proc_list: does a task sleep on the queue?
pub record Queue : Type 0 where
  pub lines : ℕ
  pub head : ℕ
  pub tail : ℕ
  pub proc_list : Bool
  pub buf : ℕ → ℕ

-- The flags of c_iflag and c_lflag, and the characters of c_cc
pub record Termios : Type 0 where
  pub icrnl : Bool
  pub igncr : Bool
  pub inlcr : Bool
  pub iuclc : Bool
  pub icanon : Bool
  pub isig : Bool
  pub echo : Bool
  pub echoctl : Bool
  pub intr_char : ℕ
  pub quit_char : ℕ
  pub erase_char : ℕ
  pub kill_char : ℕ
  pub eof_char : ℕ
  pub start_char : ℕ
  pub stop_char : ℕ

pub record Tty : Type 0 where
  pub termios : Termios
  pub pgrp : ℤ
  pub stopped : Bool
  pub write : Queue → Queue
  pub read_q : Queue
  pub write_q : Queue
  pub secondary : Queue

abbrev pub tty_buf_size : ℕ
tty_buf_size = 1024

abbrev pub inc : (a : ℕ) → ℕ
inc a = (a + 1) % tty_buf_size

-- (a - 1) & (TTY_BUF_SIZE - 1) on an unsigned long
abbrev pub dec : (a : ℕ) → ℕ
dec a = (a + 2 ^ 32 - 1) % tty_buf_size

abbrev pub empty : Queue → Bool
empty q = q.head == q.tail

abbrev pub left : Queue → ℕ
left q = (q.tail + 2 ^ 32 - q.head - 1) % tty_buf_size

abbrev pub full : Queue → Bool
full q = left q == 0

abbrev pub last : Queue → ℕ
last q = q.buf (dec q.head)

abbrev pub chars : Queue → ℕ
chars q = (q.head + 2 ^ 32 - q.tail) % tty_buf_size

abbrev pub putch : (c : ℕ) → Queue → Queue
putch c q = record q { buf = update q.buf q.head c; head = inc q.head }

abbrev pub drop_first : Queue → Queue
drop_first q = record q { tail = inc q.tail }

abbrev pub drop_last : Queue → Queue
drop_last q = record q { head = dec q.head }

-- A signed char is compared with an unsigned one of c_cc.
abbrev pub is_char : (c cc : ℕ) → Bool
is_char c cc = c == cc && ltb c 128

-- c < 32 for a signed char
abbrev pub is_control : (c : ℕ) → Bool
is_control c = ltb c 32 || leb 128 c

-- Does the character end a line?
abbrev pub ends_line : Termios → (c : ℕ) → Bool
ends_line t c = c == 10 || is_char c t.eof_char
