-- ===== src/Tty/Loop.antt =====
-- The loop of copy_to_cooked of linux-0.11/kernel/chr_drv/tty_io.c.
use learn_linux.Common.{List, ℕ, Bool, ◌||◌}
use learn_linux.Tty.{Tty, empty, full}
use learn_linux.Tty.Queues.{IsQueue}
use learn_linux.Tty.Editing.{line_of, typed_of}
use learn_linux.Tty.Lines.{IsLine}

-- The typed characters are all taken, or the line has no room.
abbrev pub is_done : Tty → Bool
is_done tty = empty tty.read_q || full tty.secondary

-- The state of a terminal between calls
pub record IsTty (tty : Tty) : Type 0 where
  pub typed : IsQueue tty.read_q
  pub line : IsLine tty.termios tty.secondary

-- The typed characters and the line
abbrev pub shown : Tty → List ℕ × List ℕ
shown tty = (typed_of tty.read_q, line_of tty.secondary)
