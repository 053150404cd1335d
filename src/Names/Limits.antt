-- ===== src/Names/Limits.antt =====
-- A task of linux-0.11/fs/open.c has NR_OPEN files at most, so that use counts stay unsigned shorts.
use learn_linux.Common.{
  length, ltb, Bool, true, false, ◌&&◌, if◌then◌else◌, ◌≤◌, ◌<◌, ◌+◌, ◌==◌, by_test, ℕ, zero, suc,
  Option, none, some, List, [], ◌∷◌, arith,
}
use learn_linux.Inodes.{
  Fs, Outcome, done, no_inodes, bad_put, stops, never_ends, no_fuel, FsRun, ◌>>=◌, pure,
}
use learn_linux.Inodes.Table.{iput}
use learn_linux.Inodes.Held.{times_in, uses, Room}
use learn_linux.Names.{Caller}
use learn_linux.Names.Calls.{sys_unlink, sys_link}
use learn_linux.Names.Dirs.{sys_mkdir, sys_rmdir}
use learn_linux.Names.Making.{Opened, open_namei, sys_mknod}
use learn_linux.Names.Files.{
  sys_chdir, sys_chroot, sys_utime, sys_access, sys_chmod, sys_chown, sys_stat,
}
use learn_linux.Names.Tasks.{
  NameTask, NameCall, unlink, link, mknod, open_file, close_file, mkdir, rmdir, utime, access,
  chdir, chroot, chmod, chown, stat, take_file, opened_file, close_taken, and_keep, run_call,
  nr_open, refers_to,
}

abbrev Shorter : (n : ℕ) → Option (ℕ × List ℕ) → Type 0
Shorter n none = Unit
Shorter n (some (q, rest)) = length rest ≤ n

longer :
    (p n : ℕ) (o : Option (ℕ × List ℕ))
    → Shorter n o
    → Shorter (suc n) (elim o [ none ↦ none | some (q, rest) ↦ some (q, p ∷ rest) ])
longer p n none h = tt
longer p n (some (q, rest)) h = omega arith

take_file-length : (k : ℕ) (l : List ℕ) → Shorter (length l) (take_file k l)
take_file-length k [] = tt
take_file-length zero (p ∷ l) = omega arith
take_file-length (suc k) (p ∷ l) = longer p (length l) (take_file k l) (take_file-length k l)

-- A task has NR_OPEN files at most.
abbrev pub IsLimited : NameTask → Type 0
IsLimited t = length t.files ≤ nr_open

abbrev pub LimitedEnd : Outcome NameTask → Type 0
LimitedEnd (done t s) = IsLimited t
LimitedEnd no_inodes = Unit
LimitedEnd bad_put = Unit
LimitedEnd stops = Unit
LimitedEnd never_ends = Unit
LimitedEnd no_fuel = Unit

bind-LimitedEnd :
    {A : Type 0} (o : Outcome A) (f : A → FsRun NameTask) (s0 : Fs)
    → ((a : A) (s : Fs) → LimitedEnd (f a s))
    → LimitedEnd (((λ _. o) >>= f) s0)
bind-LimitedEnd (done a s) f s0 goes = goes a s
bind-LimitedEnd no_inodes f s0 goes = tt
bind-LimitedEnd bad_put f s0 goes = tt
bind-LimitedEnd stops f s0 goes = tt
bind-LimitedEnd never_ends f s0 goes = tt
bind-LimitedEnd no_fuel f s0 goes = tt

opened_file-IsLimited :
    (t : NameTask) (r : Opened) → length t.files < nr_open → IsLimited (opened_file t r)
opened_file-IsLimited t (e, none) few = omega arith
opened_file-IsLimited t (e, some p) few = omega arith

close_taken-LimitedEnd :
    (now : ℕ) (t : NameTask) (o : Option (ℕ × List ℕ)) (s : Fs)
    → IsLimited t
    → Shorter (length t.files) o
    → LimitedEnd (close_taken now t o s)
close_taken-LimitedEnd now t none s few le = few
close_taken-LimitedEnd now t (some (p, rest)) s few le =
    bind-LimitedEnd (iput now p s) (λ _. pure (record t { files = rest })) s λ _ _. omega arith

abbrev pub as_caller : Caller → NameTask → Caller
as_caller user t = record user { root = t.task_root; pwd = t.task_pwd }

module _ (user : Caller) (t : NameTask) (s : Fs) (few : IsLimited t) where
  and_keep-LimitedEnd : {A : Type 0} (m : FsRun A) → LimitedEnd (and_keep t m s)
  and_keep-LimitedEnd m = bind-LimitedEnd (m s) (λ _. pure t) s λ _ _. few

  pub run_call-LimitedEnd : (call : NameCall) → LimitedEnd (run_call user call t s)
  run_call-LimitedEnd (unlink path) = and_keep-LimitedEnd (sys_unlink (as_caller user t) path)
  run_call-LimitedEnd (link oldname newname) =
      and_keep-LimitedEnd (sys_link (as_caller user t) oldname newname)
  run_call-LimitedEnd (mknod path mode dev) =
      and_keep-LimitedEnd (sys_mknod (as_caller user t) path mode dev)
  run_call-LimitedEnd (open_file has_file path flag mode) =
      by_test (λ (m : FsRun NameTask). LimitedEnd (m s)) (has_file && ltb (length t.files) nr_open)
        _ _
        (λ e.
          bind-LimitedEnd (open_namei (as_caller user t) path flag mode s) _ s
            λ r _. opened_file-IsLimited t r (ground arith))
        λ e. few
  run_call-LimitedEnd (close_file k) =
      close_taken-LimitedEnd user.now t _ s few (take_file-length k t.files)
  run_call-LimitedEnd (mkdir path mode) =
      and_keep-LimitedEnd (sys_mkdir (as_caller user t) path mode)
  run_call-LimitedEnd (rmdir path) = and_keep-LimitedEnd (sys_rmdir (as_caller user t) path)
  run_call-LimitedEnd (utime path times) =
      and_keep-LimitedEnd (sys_utime (as_caller user t) path times)
  run_call-LimitedEnd (access uid gid path mode) =
      and_keep-LimitedEnd (sys_access (as_caller user t) uid gid path mode)
  run_call-LimitedEnd (chdir path) =
      bind-LimitedEnd (sys_chdir (as_caller user t) path s) _ s λ _ _. few
  run_call-LimitedEnd (chroot path) =
      bind-LimitedEnd (sys_chroot (as_caller user t) path s) _ s λ _ _. few
  run_call-LimitedEnd (chmod path mode) =
      and_keep-LimitedEnd (sys_chmod (as_caller user t) path mode)
  run_call-LimitedEnd (chown path uid gid) =
      and_keep-LimitedEnd (sys_chown (as_caller user t) path uid gid)
  run_call-LimitedEnd (stat path) = and_keep-LimitedEnd (sys_stat (as_caller user t) path)

is_at_most_one : (b : Bool) → (if b then 1 else 0) ≤ 1
is_at_most_one true = omega arith
is_at_most_one false = omega arith

times_in-length : (j : ℕ) (l : List ℕ) → times_in j l ≤ length l
times_in-length j [] = omega arith
times_in-length j (p ∷ l) =
    let one = is_at_most_one (p == j) in let rest = times_in-length j l in omega arith

-- References elsewhere leave room for those of a task, and for three more.
abbrev pub IsRoomy : Fs → Type 0
IsRoomy s0 = (j : ℕ) → uses s0 j + 25 ≤ 65535

pub spare_for : (s0 : Fs) (t : NameTask) → IsRoomy s0 → IsLimited t → Room 3 (refers_to t) s0
spare_for s0 t roomy few j =
    let r = roomy j in let times = times_in-length j (refers_to t) in omega arith
