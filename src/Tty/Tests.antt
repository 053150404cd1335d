-- ===== src/Tty/Tests.antt =====
-- Runs of copy_to_cooked.
use learn_linux.Common.{◌≡◌, refl, true, false, none, [], ◌∷◌, arith, ◌==◌, if◌then◌else◌}
use learn_linux.Common.Int.{pos}
use learn_linux.Tty.{Tty, Queue, Termios}
use learn_linux.Tty.Queues.{passing}
use learn_linux.Tty.Cooking.{
  line_end, erase_last, kill_line, edit, keep_char, State, cook_char, cook, copy_to_cooked,
}
use learn_linux.Common.Words.{no_bits}
use learn_linux.Tty.Reading.{tty_read}
use learn_linux.Tty.Reads.{ReadTty, tty_read-ReadTty}

abbrev no_chars : Queue
no_chars = record { lines = 0; head = 1020; tail = 1020; proc_list = true; buf = λ i. 0 }

-- The flags and characters of the first terminal
abbrev console_termios : Termios
console_termios = record {
  icrnl = true;
  igncr = false;
  inlcr = false;
  iuclc = false;
  icanon = true;
  isig = true;
  echo = true;
  echoctl = true;
  intr_char = 3;
  quit_char = 28;
  erase_char = 127;
  kill_char = 21;
  eof_char = 4;
  start_char = 17;
  stop_char = 19;
}

-- Typed: a, b, the erase character, c, carriage return, d
abbrev typed_line : Queue
typed_line = record no_chars {
  head = 2;
  buf = λ i.
      if i == 1020
      then 97
      else if i == 1021
      then 98
      else if i == 1022
      then 127
      else if i == 1023
      then 99
      else if i == 0
      then 13
      else 100;
}

abbrev typed : State
typed = record {
  tty = record {
    termios = console_termios;
    pgrp = pos 1;
    stopped = false;
    write = λ q. record q { tail = q.head };
    read_q = typed_line;
    write_q = no_chars;
    secondary = no_chars;
  };
  table = λ i. none;
}

-- The line is a, c, newline, and d of the next one; one line is counted.
line_is_cooked :
    (let q = (copy_to_cooked typed).tty.secondary in
      q.lines ∷ q.buf 1020 ∷ q.buf 1021 ∷ q.buf 1022 ∷ q.buf 1023 ∷ q.head ∷ []
      ≡ 1 ∷ 97 ∷ 99 ∷ 10 ∷ 100 ∷ 0 ∷ [])
unfolding copy_to_cooked cook cook_char line_end edit erase_last kill_line keep_char
line_is_cooked = refl

-- A terminal with the line a, c, newline, and d of the next one
abbrev with_line : Tty
with_line = record typed.tty {
  secondary = record no_chars {
    lines = 1;
    head = 0;
    buf = λ i. if i == 1020 then 97 else if i == 1021 then 99 else if i == 1022 then 10 else 100;
  };
}

tty_read-ReadTty_example : ReadTty 3 (tty_read with_line 0 1 3 100 0 no_bits)
unfolding passing
tty_read-ReadTty_example =
    tty_read-ReadTty with_line 0 1 3 100 0 no_bits
      (record { queue = record { head_lt = omega arith; tail_lt = omega arith }; counts = refl })
