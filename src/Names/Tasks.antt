-- ===== src/Names/Tasks.antt =====
-- Histories of the calls of linux-0.11/fs/namei.c, fs/open.c and fs/stat.c by one task, with sys_close.
use learn_linux.Common.{
  length, ltb, Bool, ◌&&◌, if◌then◌else◌, ℕ, zero, suc, ◌+◌, ◌≡◌, Option, none, some, List, [], ◌∷◌,
}
use learn_linux.Inodes.{
  Fs, Outcome, done, no_inodes, bad_put, stops, never_ends, no_fuel, FsRun, pure, ◌>>=◌, ◌>>◌,
}
use learn_linux.Inodes.Table.{iput}
use learn_linux.Inodes.Held.{times_in, uses}
use learn_linux.Names.{Caller}
use learn_linux.Names.Calls.{sys_unlink, sys_link}
use learn_linux.Names.Making.{sys_mknod, OpenFlag, Opened, open_namei}
use learn_linux.Names.Dirs.{sys_mkdir, sys_rmdir}
use learn_linux.Names.Files.{
  sys_utime, sys_access, sys_chdir, sys_chroot, sys_chmod, sys_chown, sys_stat,
}

-- The inodes that a task refers to: its root, its working directory and those of its open files
pub record NameTask : Type 0 where
  pub task_root : ℕ
  pub task_pwd : ℕ
  pub files : List ℕ

pub data NameCall : Type 0 where
  unlink : (path : List ℕ) → NameCall
  link : (oldname newname : List ℕ) → NameCall
  mknod : (path : List ℕ) → (mode dev : ℕ) → NameCall
  open_file : (has_file : Bool) → (path : List ℕ) → OpenFlag → (mode : ℕ) → NameCall
  close_file : (k : ℕ) → NameCall
  mkdir : (path : List ℕ) → (mode : ℕ) → NameCall
  rmdir : (path : List ℕ) → NameCall
  utime : (path : List ℕ) → (times : Option (ℕ × ℕ)) → NameCall
  access : (uid gid : ℕ) → (path : List ℕ) → (mode : ℕ) → NameCall
  chdir : (path : List ℕ) → NameCall
  chroot : (path : List ℕ) → NameCall
  chmod : (path : List ℕ) → (mode : ℕ) → NameCall
  chown : (path : List ℕ) → (uid gid : ℕ) → NameCall
  stat : (path : List ℕ) → NameCall

-- The k-th of the open files is taken from the list.
abbrev pub take_file : (k : ℕ) → List ℕ → Option (ℕ × List ℕ)
take_file k [] = none
take_file zero (p ∷ l) = some (p, l)
take_file (suc k) (p ∷ l) = elim (take_file k l) [
  | none ↦ none
  | some (q, rest) ↦ some (q, p ∷ rest)
]

abbrev pub opened_file : NameTask → Opened → NameTask
opened_file t (e, none) = t
opened_file t (e, some p) = record t { files = p ∷ t.files }

-- The last descriptor of the file is closed.
abbrev pub close_taken : (now : ℕ) → NameTask → Option (ℕ × List ℕ) → FsRun NameTask
close_taken now t none = pure t
close_taken now t (some (p, rest)) = iput now p >> pure (record t { files = rest })

abbrev pub and_keep : {A : Type 0} → NameTask → FsRun A → FsRun NameTask
and_keep t m = m >>= λ _. pure t

abbrev pub nr_open : ℕ
nr_open = 20

-- A call by the task, with the user, group, umask and time of `user`. sys_open fails with no free
-- descriptor, or with no free place of the table of files (`has_file` is false); a character device that
-- it turns away is put again, which is open_file and close_file here.
abbrev pub run_call : (user : Caller) → NameCall → NameTask → FsRun NameTask
run_call user call t =
    let who : Caller = record user { root = t.task_root; pwd = t.task_pwd } in
    elim call [
      | unlink path ↦ and_keep t (sys_unlink who path)
      | link oldname newname ↦ and_keep t (sys_link who oldname newname)
      | mknod path mode dev ↦ and_keep t (sys_mknod who path mode dev)
      | open_file has_file path flag mode ↦
          if has_file && ltb (length t.files) nr_open
          then (open_namei who path flag mode >>= (λ r. pure (opened_file t r)))
          else pure t
      | close_file k ↦ close_taken user.now t (take_file k t.files)
      | mkdir path mode ↦ and_keep t (sys_mkdir who path mode)
      | rmdir path ↦ and_keep t (sys_rmdir who path)
      | utime path times ↦ and_keep t (sys_utime who path times)
      | access uid gid path mode ↦ and_keep t (sys_access who uid gid path mode)
      | chdir path ↦ sys_chdir who path >>= (λ r. pure (record t { task_pwd = r.1 }))
      | chroot path ↦ sys_chroot who path >>= (λ r. pure (record t { task_root = r.1 }))
      | chmod path mode ↦ and_keep t (sys_chmod who path mode)
      | chown path uid gid ↦ and_keep t (sys_chown who path uid gid)
      | stat path ↦ and_keep t (sys_stat who path)
    ]

unfoldable pub run_calls : List (Caller × NameCall) → NameTask → FsRun NameTask
run_calls [] t = pure t
run_calls ((user, call) ∷ calls) t = do t' ← run_call user call t; run_calls calls t'

abbrev pub refers_to : NameTask → List ℕ
refers_to t = t.task_root ∷ t.task_pwd ∷ t.files

-- Each use count is the number of the references of the task and of those elsewhere.
abbrev pub Counted : (elsewhere : ℕ → ℕ) → NameTask → Fs → Type 0
Counted elsewhere t s = (j : ℕ) → uses s j ≡ elsewhere j + times_in j (refers_to t)

-- The end of a history: the calls are done and the counts are right, or the kernel has stopped with a
-- panic, but not with that of iput on a free inode, or goes on for ever.
abbrev pub CountedEnd : (elsewhere : ℕ → ℕ) → Outcome NameTask → Type 0
CountedEnd elsewhere (done t s) = Counted elsewhere t s
CountedEnd elsewhere no_inodes = Unit
CountedEnd elsewhere bad_put = ⊥
CountedEnd elsewhere stops = Unit
CountedEnd elsewhere never_ends = Unit
CountedEnd elsewhere no_fuel = ⊥
