-- ===== src/Descriptors/Tests.antt =====
-- A task with two open descriptors.
use learn_linux.Common.{ℕ, ◌≡◌, refl, true, none, some, ◌==◌, if◌then◌else◌, arith}
use learn_linux.Common.Int.{pos}
use learn_linux.Common.Words.{no_bits}
use learn_linux.Descriptors.{Files, number, first_free, dupfd, f_setfd, f_getfd, sys_fcntl}
use learn_linux.Descriptors.Opening.{sys_close, sys_dup2, sys_pipe}
use learn_linux.Descriptors.Counts.{uses, IsCounted, Kept, descriptors-Kept}
use learn_linux.Descriptors.Pipes.{Piped, sys_pipe-Piped}

abbrev two_open : Files
two_open = record {
  filp = λ i. if i == 0 then some 7 else if i == 2 then some 8 else none;
  close_on_exec = no_bits;
  f_count = λ _. 1;
  f_flags = λ _. no_bits;
  f_mode = λ _. 1;
  f_inode = λ _. some 3;
  f_pos = λ _. 0;
}

lowest_is_taken : (dupfd 2 0 two_open).1 ≡ pos 1
unfolding dupfd first_free
lowest_is_taken = refl

bit_is_read : (sys_fcntl 2 f_getfd (sys_fcntl 2 (f_setfd true) two_open).0).1 ≡ number (pos 1)
unfolding sys_fcntl
bit_is_read = refl

-- One use of the file 7 and one of the file 8 are this task's.
abbrev no_others : ℕ → ℕ
no_others file = if file == 7 then 0 else if file == 8 then 0 else 1

two_open-IsCounted : IsCounted no_others two_open
unfolding uses
two_open-IsCounted = record { counted = λ file. ground arith; few = λ file. ground arith }

descriptors-Kept_example :
    Kept no_others (sys_close 2 two_open)
    × Kept no_others (sys_dup2 2 0 two_open)
    × IsCounted no_others (dupfd 2 0 two_open).0
descriptors-Kept_example = descriptors-Kept no_others two_open 2 0 two_open-IsCounted

abbrev unused_files : Files
unused_files = record two_open {
  f_count = λ file. if file == 7 then 1 else if file == 8 then 1 else 0;
}

pipe_opens : (sys_pipe (some 5) unused_files).1 ≡ some (1, 3)
unfolding sys_pipe first_free
pipe_opens = refl

sys_pipe-Piped_example : Piped unused_files (some 5) (sys_pipe (some 5) unused_files)
sys_pipe-Piped_example = sys_pipe-Piped unused_files (some 5)
