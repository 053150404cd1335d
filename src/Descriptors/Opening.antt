-- ===== src/Descriptors/Opening.antt =====
-- linux-0.11/fs/open.c, `sys_close`; fs/fcntl.c, `sys_dup2`; fs/pipe.c, `sys_pipe`. An inode that the call
-- gives to `iput` is part of the result, and the inode that `get_pipe_inode` finds is an argument.
use learn_linux.Common.{
  ℕ, suc, ◌+◌, ◌-◌, Bool, not, Option, none, some, ◌==◌, leb, if◌then◌else◌, update,
}
use learn_linux.Common.Int.{ℤ, pos}
use learn_linux.Common.Words.{without_bit}
use learn_linux.Task.{einval}
use learn_linux.Descriptors.{nr_open, Files, is_open, first_free, dupfd}

-- The end of a call: a result, with the inode that is put where the last use of a file ended; or a
-- panic.
pub data Closed : Type 0 where
  done : Files → (result : ℤ) → (put : Option ℕ) → Closed
  panics : Closed

abbrev pub clear_close : (fd : ℕ) → Files → Files
clear_close fd s = record s { close_on_exec = without_bit s.close_on_exec fd }

-- The descriptor is free; the file loses a use.
abbrev pub drop_use : (fd file : ℕ) → Files → Closed
drop_use fd file s =
    let s' = record s {
      filp = update s.filp fd none;
      f_count = update s.f_count file (s.f_count file - 1);
    } in
    if s.f_count file == 0
    then panics
    else if s.f_count file == 1
    then done s' (pos 0) (s.f_inode file)
    else done s' (pos 0) none

abbrev pub close_file : (fd : ℕ) → Option ℕ → Files → Closed
close_file fd none s = done s einval none
close_file fd (some file) s = drop_use fd file s

unfoldable pub sys_close : (fd : ℕ) → Files → Closed
sys_close fd s =
    if leb nr_open fd then done s einval none else close_file fd (s.filp fd) (clear_close fd s)

abbrev pub dup_after : (oldfd newfd : ℕ) → Closed → Closed
dup_after oldfd newfd panics = panics
dup_after oldfd newfd (done s result put) = done (dupfd oldfd newfd s).0 (dupfd oldfd newfd s).1 put

-- The result of the close is not looked at.
unfoldable pub sys_dup2 : (oldfd newfd : ℕ) → Files → Closed
unfolding sys_close dupfd
sys_dup2 oldfd newfd s = dup_after oldfd newfd (sys_close newfd s)

abbrev pub nr_file : ℕ
nr_file = 64

abbrev pub in_use : Files → ℕ → Bool
in_use s file = not (s.f_count file == 0)

abbrev pub set_count : (file n : ℕ) → Files → Files
set_count file n s = record s { f_count = update s.f_count file n }

abbrev pub set_filp : (fd : ℕ) → Option ℕ → Files → Files
set_filp fd o s = record s { filp = update s.filp fd o }

-- f[0]->f_count = f[1]->f_count = 0
abbrev pub free_files : (a b : ℕ) → Files → Files
free_files a b s = set_count a 0 (set_count b 0 s)

-- The files a and b become the ends of the pipe; a null inode undoes all.
abbrev pub join_inode : (a b c d : ℕ) → Option ℕ → Files → Files × Option (ℕ × ℕ)
join_inode a b c d none s = (free_files a b (set_filp c none (set_filp d none s)), none)
join_inode a b c d (some inode) s = (
  record s {
    f_inode = update (update s.f_inode b (some inode)) a (some inode);
    f_pos = update (update s.f_pos b 0) a 0;
    f_mode = update (update s.f_mode a 1) b 2;
  },
  some (c, d),
)

abbrev pub second_descriptor : (a b c : ℕ) → Option ℕ → Option ℕ → Files → Files × Option (ℕ × ℕ)
second_descriptor a b c inode none s = (free_files a b (set_filp c none s), none)
second_descriptor a b c inode (some d) s = join_inode a b c d inode (set_filp d (some b) s)

abbrev pub first_descriptor : (a b : ℕ) → Option ℕ → Option ℕ → Files → Files × Option (ℕ × ℕ)
first_descriptor a b inode none s = (free_files a b s, none)
first_descriptor a b inode (some c) s =
    let s' = set_filp c (some a) s in
    second_descriptor a b c inode (first_free (is_open s') (nr_open - suc c) (suc c)) s'

abbrev pub second_file : (a : ℕ) → Option ℕ → Option ℕ → Files → Files × Option (ℕ × ℕ)
second_file a inode none s = (set_count a 0 s, none)
second_file a inode (some b) s =
    let s' = set_count b (s.f_count b + 1) s in
    first_descriptor a b inode (first_free (is_open s') nr_open 0) s'

abbrev pub first_file : Option ℕ → Option ℕ → Files → Files × Option (ℕ × ℕ)
first_file inode none s = (s, none)
first_file inode (some a) s =
    let s' = set_count a (s.f_count a + 1) s in
    second_file a inode (first_free (in_use s') (nr_file - suc a) (suc a)) s'

-- The two descriptors, or none for the result -1.
unfoldable pub sys_pipe : (inode : Option ℕ) → Files → Files × Option (ℕ × ℕ)
sys_pipe inode s = first_file inode (first_free (in_use s) nr_file 0) s
