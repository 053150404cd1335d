-- ===== src/Tty/Reading.antt =====
-- tty_read of linux-0.11/kernel/chr_drv/tty_io.c. `vtime` and `vmin` are the characters VTIME and VMIN of
-- c_cc. A call that waits for characters ends there; what goes to user space is a list of bytes.
use learn_linux.Common.{
  ℕ, zero, suc, ◌+◌, ◌-◌, ◌*◌, ◌%◌, ◌^◌, Bool, not, ◌&&◌, ◌||◌, List, [], ◌∷◌, ◌++◌, length, ◌==◌,
  ltb, leb, if◌then◌else◌,
}
use learn_linux.Common.Int.{ℤ, pos}
use learn_linux.Common.Words.{Word, without_bit, any_below}
use learn_linux.Task.{eintr, sigalrm_bit}
use learn_linux.Tty.{Tty, empty, left, drop_first, is_char, ends_line}

-- The state of a call: the terminal, the caller's alarm and signals, the bytes read and how many are
-- still asked for.
pub record Reader : Type 0 where
  pub tty : Tty
  pub alarm : ℕ
  pub signal : Word
  pub bytes : List ℕ
  pub nr : ℕ
  pub flag : Bool

-- What a round of the loop over the characters comes to: `return` at the end of a file, or the rest of
-- the function.
pub data Taken : Type 0 where
  end_of_file : Reader → Taken
  goes_on : Reader → Taken

-- GETCH, and data-- on an unsigned long where the character ends a line
abbrev pub take_first : Tty → Tty
take_first tty =
    let s = tty.secondary in
    let c = s.buf s.tail in
    let rest = drop_first s in
    record tty {
      secondary = record rest {
        lines = if ends_line tty.termios c then (s.lines + 2 ^ 32 - 1) % 2 ^ 32 else s.lines;
      };
    }

abbrev pub take_char : Reader → Reader
take_char r =
    let s = r.tty.secondary in
    record r { tty = take_first r.tty; bytes = r.bytes ++ (s.buf s.tail ∷ []); nr = r.nr - 1 }

-- The loop over the characters that are there
unfoldable pub take_chars : (fuel : ℕ) → Reader → Taken
take_chars zero r = goes_on r
take_chars (suc fuel) r =
    let s = r.tty.secondary in
    let after = take_char r in
    let rest = take_chars fuel after in
    if is_char (s.buf s.tail) r.tty.termios.eof_char && r.tty.termios.icanon
    then end_of_file (record r { tty = take_first r.tty })
    else if after.nr == 0 || empty after.tty.secondary
    then goes_on after
    else rest

pub data TtyRead : Type 0 where
  returned : ℤ → Reader → TtyRead
  waits : Reader → TtyRead
  no_fuel : TtyRead

-- The end of the function
abbrev pub leave : (oldalarm : ℕ) → Reader → TtyRead
leave oldalarm r0 =
    let r = record r0 { alarm = oldalarm } in
    let n = length r.bytes in returned (if any_below 32 r.signal && n == 0 then eintr else pos n) r

-- Is the alarm of VTIME the first?
abbrev pub is_first : (oldalarm time jiffies : ℕ) → Bool
is_first oldalarm time jiffies = oldalarm == 0 || ltb (time + jiffies) oldalarm

abbrev pub set_alarm : (oldalarm time jiffies : ℕ) → Reader → Reader
set_alarm oldalarm time jiffies r =
    if not (time == 0) && not r.tty.termios.icanon
    then record r {
      flag = is_first oldalarm time jiffies;
      alarm = if is_first oldalarm time jiffies then time + jiffies else oldalarm;
    }
    else r

-- Has the call what it asked for?
abbrev pub has_enough : (minimum : ℕ) → Reader → Bool
has_enough minimum r =
    let n = length r.bytes in if r.tty.termios.icanon then not (n == 0) else leb minimum n

-- Is there nothing to take: no character, or no line on a queue that still has room?
abbrev pub nothing_there : Tty → Bool
nothing_there tty =
    let s = tty.secondary in empty s || (tty.termios.icanon && s.lines == 0 && ltb 20 (left s))

abbrev pub after_chars :
    (oldalarm time jiffies minimum : ℕ) (again : Reader → TtyRead) → Taken → TtyRead
after_chars oldalarm time jiffies minimum again (end_of_file r) = returned (pos (length r.bytes)) r
after_chars oldalarm time jiffies minimum again (goes_on r0) =
    let r = set_alarm oldalarm time jiffies r0 in
    if has_enough minimum r then leave oldalarm r else again r

-- The main loop
unfoldable pub read_rounds : (oldalarm time jiffies minimum fuel : ℕ) → Reader → TtyRead
read_rounds oldalarm time jiffies minimum zero r = no_fuel
read_rounds oldalarm time jiffies minimum (suc fuel) r =
    let again = read_rounds oldalarm time jiffies minimum fuel in
    let more = after_chars oldalarm time jiffies minimum again (take_chars r.nr r) in
    if r.nr == 0
    then leave oldalarm r
    else if r.flag && r.signal sigalrm_bit
    then leave oldalarm (record r { signal = without_bit r.signal sigalrm_bit })
    else if any_below 32 r.signal
    then leave oldalarm r
    else if nothing_there r.tty
    then waits r
    else more

abbrev pub lesser : (m n : ℕ) → ℕ
lesser m n = if ltb n m then n else m

-- `nr` is not negative. Each round takes a character, or is the last one.
unfoldable pub tty_read : (tty : Tty) (vtime vmin nr jiffies oldalarm : ℕ) → Word → TtyRead
tty_read tty vtime vmin nr jiffies oldalarm signal =
    let time = 10 * vtime in
    let timed = not (time == 0) && vmin == 0 in
    let minimum = if timed then 1 else vmin in
    let first = timed && is_first oldalarm time jiffies in
    let r : Reader = record {
      tty = tty;
      alarm = if first then time + jiffies else oldalarm;
      signal = signal;
      bytes = [];
      nr = nr;
      flag = first;
    } in
    read_rounds oldalarm time jiffies (lesser minimum nr) (nr + 1) r
