-- ===== src/Names/History.antt =====
-- The use counts of the inodes in histories of the calls.
use learn_linux.Common.{
  length, ltb, Bool, ◌&&◌, ◌≤◌, ◌+◌, by_test, ℕ, zero, suc, ◌≡◌, refl, Option, none, some, List, [],
  ◌∷◌, arith,
}
use learn_linux.Inodes.{
  no_inode, Fs, Outcome, done, no_inodes, bad_put, stops, never_ends, no_fuel, FsRun, ◌>>=◌, pure,
}
use learn_linux.Inodes.Table.{iput}
use learn_linux.Inodes.Held.{times_in, uses, Held, Ends, bind-Ends, Room}
use learn_linux.Inodes.Balance.{iput-Held}
use learn_linux.Inodes.Gets.{swap-Held}
use learn_linux.Names.{Caller}
use learn_linux.Names.Making.{OpenFlag, Opened, open_namei}
use learn_linux.Names.Files.{sys_chdir, sys_chroot}
use learn_linux.Names.Unlinking.{sys_unlink-Held, sys_link-Held}
use learn_linux.Names.Creating.{sys_mknod-Held}
use learn_linux.Names.Opening.{opened, open_namei-Held}
use learn_linux.Names.Removing.{sys_mkdir-Held, sys_rmdir-Held}
use learn_linux.Names.Owning.{
  sys_utime-Held, sys_access-Held, moved, sys_chdir-Held, sys_chroot-Held, sys_chmod-Held,
  sys_chown-Held, sys_stat-Held,
}
use learn_linux.Names.Tasks.{
  NameTask, NameCall, unlink, link, mknod, open_file, close_file, mkdir, rmdir, utime, access,
  chdir, chroot, chmod, chown, stat, take_file, opened_file, close_taken, and_keep, run_call,
  run_calls, nr_open, refers_to, Counted, CountedEnd,
}
use learn_linux.Names.Limits.{
  IsLimited, LimitedEnd, as_caller, run_call-LimitedEnd, IsRoomy, spare_for,
}

abbrev Taken : (l : List ℕ) → Option (ℕ × List ℕ) → Type 0
Taken l none = Unit
Taken l (some (q, rest)) = (j : ℕ) → times_in j l ≡ times_in j (q ∷ rest)

under_first :
    (p : ℕ) (l : List ℕ) (o : Option (ℕ × List ℕ))
    → Taken l o
    → Taken (p ∷ l) (elim o [ none ↦ none | some (q, rest) ↦ some (q, p ∷ rest) ])
under_first p l none h = tt
under_first p l (some (q, rest)) h = λ j. let now = h j in omega arith

take_file-Taken : (k : ℕ) (l : List ℕ) → Taken l (take_file k l)
take_file-Taken k [] = tt
take_file-Taken zero (p ∷ l) = λ j. refl
take_file-Taken (suc k) (p ∷ l) = under_first p l (take_file k l) (take_file-Taken k l)

module _ (s0 : Fs) (user : Caller) (t : NameTask) (spare : Room 3 (refers_to t) s0) where
  abbrev root_dir : ℕ
  root_dir = t.task_root

  abbrev work_dir : ℕ
  work_dir = t.task_pwd

  keep-Held :
      {A : Type 0} (o : Outcome A)
      → Ends (λ (_ : A). refers_to t) s0 o
      → Ends refers_to s0 (and_keep t (λ _. o) s0)
  keep-Held o h = bind-Ends (λ _. refers_to t) refers_to s0 o (λ _. pure t) h λ a s' h'. h'

  close_taken-Held :
      (o : Option (ℕ × List ℕ)) (s : Fs)
      → Taken t.files o
      → Held (refers_to t) s0 s
      → Ends refers_to s0 (close_taken user.now t o s)
  close_taken-Held none s taken h = h
  close_taken-Held (some (p, rest)) s taken h =
      let l = root_dir ∷ work_dir ∷ rest in
      bind-Ends (λ (_ : Unit {0}). l) refers_to s0 (iput user.now p s)
        (λ _. pure (record t { files = rest }))
        (iput-Held l s0 s user.now p λ j. let here = h j in let same = taken j in omega arith)
        λ _ s' h'. h'

  opened_file-Held :
      (r : Opened) (s : Fs)
      → Held (opened (as_caller user t) (refers_to t) s0 r) s0 s
      → Held (refers_to (opened_file t r)) s0 s
  opened_file-Held (e, none) s h = h
  opened_file-Held (e, some p) s h = λ j. let here = h j in omega arith

  open_file-Held :
      (has_file : Bool) (path : List ℕ) (flag : OpenFlag) (mode : ℕ) (s : Fs)
      → Held (refers_to t) s0 s
      → Ends refers_to s0 (run_call user (open_file has_file path flag mode) t s)
  open_file-Held has_file path flag mode s h =
      by_test (λ (m : FsRun NameTask). Ends refers_to s0 (m s))
        (has_file && ltb (length t.files) nr_open) _ _
        (λ e.
          bind-Ends (opened (as_caller user t) (refers_to t) s0) refers_to s0
            (open_namei (as_caller user t) path flag mode s) (λ r. pure (opened_file t r))
            (open_namei-Held (as_caller user t) (refers_to t) s0 spare path flag mode s h)
            λ r s' h'. opened_file-Held r s' h')
        λ e. h

  chdir-Held :
      (path : List ℕ) (s : Fs)
      → Held (refers_to t) s0 s
      → Ends refers_to s0 (run_call user (chdir path) t s)
  chdir-Held path s h =
      let l = root_dir ∷ t.files in
      let spare' : Room 3 l s0 = λ j. let r = spare j in omega arith in
      bind-Ends (moved (as_caller user t) l s0 spare') refers_to s0
        (sys_chdir (as_caller user t) path s) (λ r. pure (record t { task_pwd = r.1 }))
        (sys_chdir-Held (as_caller user t) l s0 spare' path s
          (swap-Held root_dir work_dir t.files s0 s h))
        λ r s' h'. swap-Held r.1 root_dir t.files s0 s' h'

  chroot-Held :
      (path : List ℕ) (s : Fs)
      → Held (refers_to t) s0 s
      → Ends refers_to s0 (run_call user (chroot path) t s)
  chroot-Held path s h =
      let l = work_dir ∷ t.files in
      let spare' : Room 3 l s0 = λ j. let r = spare j in omega arith in
      bind-Ends (moved (as_caller user t) l s0 spare') refers_to s0
        (sys_chroot (as_caller user t) path s) (λ r. pure (record t { task_root = r.1 }))
        (sys_chroot-Held (as_caller user t) l s0 spare' path s h) λ r s' h'. h'

  run_call-Held :
      (call : NameCall) (s : Fs)
      → Held (refers_to t) s0 s
      → Ends refers_to s0 (run_call user call t s)
  run_call-Held (unlink path) s h =
      keep-Held _ (sys_unlink-Held (as_caller user t) (refers_to t) s0 spare path s h)
  run_call-Held (link oldname newname) s h =
      keep-Held _ (sys_link-Held (as_caller user t) (refers_to t) s0 spare oldname newname s h)
  run_call-Held (mknod path mode dev) s h =
      keep-Held _ (sys_mknod-Held (as_caller user t) (refers_to t) s0 spare path mode dev s h)
  run_call-Held (open_file has_file path flag mode) s h = open_file-Held has_file path flag mode s h
  run_call-Held (close_file k) s h =
      close_taken-Held (take_file k t.files) s (take_file-Taken k t.files) h
  run_call-Held (mkdir path mode) s h =
      keep-Held _ (sys_mkdir-Held (as_caller user t) (refers_to t) s0 spare path mode s h)
  run_call-Held (rmdir path) s h =
      keep-Held _ (sys_rmdir-Held (as_caller user t) (refers_to t) s0 spare path s h)
  run_call-Held (utime path times) s h =
      keep-Held _ (sys_utime-Held (as_caller user t) (refers_to t) s0 spare path times s h)
  run_call-Held (access uid gid path mode) s h =
      keep-Held _ (sys_access-Held (as_caller user t) (refers_to t) s0 spare uid gid path mode s h)
  run_call-Held (chdir path) s h = chdir-Held path s h
  run_call-Held (chroot path) s h = chroot-Held path s h
  run_call-Held (chmod path mode) s h =
      keep-Held _ (sys_chmod-Held (as_caller user t) (refers_to t) s0 spare path mode s h)
  run_call-Held (chown path uid gid) s h =
      keep-Held _ (sys_chown-Held (as_caller user t) (refers_to t) s0 spare path uid gid s h)
  run_call-Held (stat path) s h =
      keep-Held _ (sys_stat-Held (as_caller user t) (refers_to t) s0 spare path s h)

history_step :
    (s0 : Fs) (o : Outcome NameTask) (calls : List (Caller × NameCall)) (s : Fs)
    → ((t : NameTask) (s' : Fs)
        → IsLimited t
        → Held (refers_to t) s0 s'
        → Ends refers_to s0 (run_calls calls t s'))
    → LimitedEnd o
    → Ends refers_to s0 o
    → Ends refers_to s0 (((λ _. o) >>= run_calls calls) s)
history_step s0 (done t s') calls s goes few h = goes t s' few h
history_step s0 no_inodes calls s goes few h = tt
history_step s0 bad_put calls s goes few h = h
history_step s0 stops calls s goes few h = tt
history_step s0 never_ends calls s goes few h = tt
history_step s0 no_fuel calls s goes few h = h

run_calls-Held :
    (s0 : Fs) (roomy : IsRoomy s0) (calls : List (Caller × NameCall)) (t : NameTask) (s : Fs)
    → IsLimited t
    → Held (refers_to t) s0 s
    → Ends refers_to s0 (run_calls calls t s)
unfolding run_calls
run_calls-Held s0 roomy [] t s few h = h
run_calls-Held s0 roomy ((user, call) ∷ calls) t s few h =
    history_step s0 (run_call user call t s) calls s
      (λ t' s' few' h'. run_calls-Held s0 roomy calls t' s' few' h')
      (run_call-LimitedEnd user t s few call)
      (run_call-Held s0 user t (spare_for s0 t roomy few) call s h)

counted :
    (elsewhere : ℕ → ℕ) (s0 : Fs) (o : Outcome NameTask)
    → ((j : ℕ) → uses s0 j ≡ elsewhere j)
    → Ends refers_to s0 o
    → CountedEnd elsewhere o
counted elsewhere s0 (done t s) e h = λ j. let here = h j in let same = e j in omega arith
counted elsewhere s0 no_inodes e h = tt
counted elsewhere s0 bad_put e h = h
counted elsewhere s0 stops e h = tt
counted elsewhere s0 never_ends e h = tt
counted elsewhere s0 no_fuel e h = h

-- For any table of inodes in which each use count is the number of references, those of a task by
-- its root, its working directory and its open files, of which it has 20 at most, and those
-- elsewhere, which are 65510 at most for each inode, and for any history of calls of the task, which
-- opens, makes, links, unlinks and removes files and directories, changes its root and working
-- directory, reads and sets what inodes say, and closes its files, whether the calls fail or not:
-- the history never puts an inode that is free, no loop runs out of its fuel, and each use count at
-- the end, an unsigned short, is again the number of references, unless the kernel stops with
-- another panic or never returns, in iget because devices are mounted on one another's roots in a
-- circle, or in get_empty_inode because write_inode leaves a free inode dirty.
pub run_calls-CountedEnd :
    (elsewhere : ℕ → ℕ) (calls : List (Caller × NameCall)) (t : NameTask) (s : Fs)
    → ((j : ℕ) → elsewhere j + 25 ≤ 65535)
    → length t.files ≤ 20
    → Counted elsewhere t s
    → CountedEnd elsewhere (run_calls calls t s)
run_calls-CountedEnd elsewhere calls t s roomy few h =
    let s0 : Fs = record s { inode_table = λ j. record no_inode { i_count = elsewhere j } } in
    counted elsewhere s0 _ (λ j. refl) (run_calls-Held s0 roomy calls t s few h)
