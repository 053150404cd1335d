-- ===== src/Descriptors.antt =====
-- linux-0.11/fs/fcntl.c: `dupfd`, `sys_dup` and `sys_fcntl`, on the descriptors of the current task and the
-- use counts and flags of the open files. A file is named by its place in the file table.
pub mod Dup
pub mod Opening
pub mod Counts
pub mod Pipes
mod Tests
use learn_linux.Common.{
  ℕ, zero, suc, ◌+◌, ◌-◌, ◌%◌, ◌^◌, Bool, true, false, not, ◌&&◌, ◌||◌, Option, none, some, ◌==◌,
  ltb, leb, if◌then◌else◌, update, is_some,
}
use learn_linux.Common.Int.{ℤ, pos, neg}
use learn_linux.Common.Words.{Word, with_bit, without_bit}
use learn_linux.Task.{ebadf, einval, emfile}

abbrev pub nr_open : ℕ
nr_open = 20

pub record Files : Type 0 where
  pub filp : ℕ → Option ℕ
  pub close_on_exec : Word
  pub f_count : ℕ → ℕ
  pub f_flags : ℕ → Word
  pub f_mode : ℕ → ℕ
  pub f_inode : ℕ → Option ℕ
  pub f_pos : ℕ → ℕ

-- The first place that is not used, of the n from arg on; none at the end.
unfoldable pub first_free : (used : ℕ → Bool) (n arg : ℕ) → Option ℕ
first_free used zero arg = none
first_free used (suc n) arg =
    let further = first_free used n (suc arg) in if used arg then further else some arg

-- Is the descriptor open?
abbrev pub is_open : Files → ℕ → Bool
is_open s fd = is_some (s.filp fd)

abbrev pub use_descriptor : (file : ℕ) → Option ℕ → Files → Files × ℤ
use_descriptor file none s = (s, emfile)
use_descriptor file (some arg) s = (
  record s {
    close_on_exec = without_bit s.close_on_exec arg;
    filp = update s.filp arg (some file);
    f_count = update s.f_count file ((s.f_count file + 1) % 2 ^ 16);
  },
  pos arg,
)

abbrev pub dup_file : (arg : ℕ) → Option ℕ → Files → Files × ℤ
dup_file arg none s = (s, ebadf)
dup_file arg (some file) s =
    if leb nr_open arg
    then (s, einval)
    else use_descriptor file (first_free (is_open s) (nr_open - arg) arg) s

unfoldable pub dupfd : (fd arg : ℕ) → Files → Files × ℤ
dupfd fd arg s = dup_file arg (if leb nr_open fd then none else s.filp fd) s

unfoldable pub sys_dup : (fildes : ℕ) → Files → Files × ℤ
unfolding dupfd
sys_dup fildes s = dupfd fildes 0 s

-- The commands of `sys_fcntl` with what each reads of its argument: for F_SETFD the lowest bit, for
-- F_SETFL the word. The commands on locks and all others give -1.
pub data Command : Type 0 where
  f_dupfd : (arg : ℕ) → Command
  f_getfd : Command
  f_setfd : (bit : Bool) → Command
  f_getfl : Command
  f_setfl : (arg : Word) → Command
  others : Command

-- The result: a number, or the flags of F_GETFL.
pub data Answer : Type 0 where
  number : ℤ → Answer
  flags : Word → Answer

-- O_APPEND and O_NONBLOCK
abbrev pub settable_flag : ℕ → Bool
settable_flag i = i == 10 || i == 11

abbrev pub control : (fd file : ℕ) → Command → Files → Files × Answer
control fd file (f_dupfd arg) s = let r = dupfd fd arg s in (r.0, number r.1)
control fd file f_getfd s = (s, number (pos (if s.close_on_exec fd then 1 else 0)))
control fd file (f_setfd bit) s =
    (record s { close_on_exec = update s.close_on_exec fd bit }, number (pos 0))
control fd file f_getfl s = (s, flags (s.f_flags file))
control fd file (f_setfl arg) s = (
  record s {
    f_flags = update s.f_flags file λ i. if settable_flag i then arg i else s.f_flags file i;
  },
  number (pos 0),
)
control fd file others s = (s, number (neg 1))

abbrev pub control_file : (fd : ℕ) → Option ℕ → Command → Files → Files × Answer
control_file fd none cmd s = (s, number ebadf)
control_file fd (some file) cmd s = control fd file cmd s

unfoldable pub sys_fcntl : (fd : ℕ) → Command → Files → Files × Answer
unfolding dupfd
sys_fcntl fd cmd s = control_file fd (if leb nr_open fd then none else s.filp fd) cmd s
