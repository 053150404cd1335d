-- ===== src/Names/Owning.antt =====
-- The use counts of the inodes under the calls of linux-0.11/fs/open.c and fs/stat.c.
use learn_linux.Common.{ℕ, not, ◌&&◌, Option, none, some, List, [], ◌∷◌, ◌==◌, by_test}
use learn_linux.Common.Int.{ℤ, pos}
use learn_linux.Inodes.{Inode, Fs, FsRun, pure}
use learn_linux.Inodes.Table.{is_dir}
use learn_linux.Inodes.Held.{Held, Ends, bind-Ends, Room, spare_cons, spare_two}
use learn_linux.Inodes.Gets.{swap-Held, made}
use learn_linux.Names.{Caller, is_suser}
use learn_linux.Names.Walk.{namei}
use learn_linux.Names.Calls.{enoent, eacces, enotdir, put_all}
use learn_linux.Names.Files.{
  on_name, with_name, change_and_put, times_or_now, sys_utime, access_of, access_inode, sys_access,
  replace_dir, sys_chdir, sys_chroot, set_mode, chmod_inode, sys_chmod, set_owner, chown_inode,
  sys_chown, stat_inode, sys_stat,
}
use learn_linux.Names.Paths.{namei-Held}
use learn_linux.Names.Kept.{put_all-Held}
use learn_linux.Names.Unlinking.{kept, leave_one}
use learn_linux.Names.Creating.{change_then, put_then}

module _ (who : Caller) (l : List ℕ) (s0 : Fs) (spare : Room 3 l s0) where
  on_name-Held :
      {A : Type 0} (post : A → List ℕ) (m : List ℕ) (r : A) (next : ℕ → FsRun A) (o : Option ℕ)
      (s : Fs)
      → ((s' : Fs) → Held m s0 s' → Held (post r) s0 s')
      → ((p : ℕ) (s' : Fs) → Held (p ∷ m) s0 s' → Ends post s0 (next p s'))
      → Held (made m o) s0 s
      → Ends post s0 (on_name r next o s)
  on_name-Held post m r next none s missing goes h = missing s h
  on_name-Held post m r next (some p) s missing goes h = goes p s h

  with_name-Held :
      {A : Type 0} (post : A → List ℕ) (m : List ℕ) (fits : Room 2 m s0) (path : List ℕ) (r : A)
      (next : ℕ → FsRun A) (s : Fs)
      → ((s' : Fs) → Held m s0 s' → Held (post r) s0 s')
      → ((p : ℕ) (s' : Fs) → Held (p ∷ m) s0 s' → Ends post s0 (next p s'))
      → Held m s0 s
      → Ends post s0 (with_name who path r next s)
  with_name-Held post m fits path r next s missing goes h =
      bind-Ends (made m) post s0 (namei who path s) (on_name r next)
        (namei-Held who m s0 fits path s h)
        λ o s' h'. on_name-Held post m r next o s' missing goes h'

  with_kept :
      {A : Type 0} (path : List ℕ) (r : A) (next : ℕ → FsRun A) (s : Fs)
      → ((p : ℕ) (s' : Fs) → Held (p ∷ l) s0 s' → Ends (kept who l s0) s0 (next p s'))
      → Held l s0 s
      → Ends (kept who l s0) s0 (with_name who path r next s)
  with_kept path r next s goes h =
      with_name-Held (kept who l s0) l (spare_two l s0 spare) path r next s (λ s' h'. h') goes h

  change_and_put-Held :
      (f : Inode → Inode) (p : ℕ) (s : Fs)
      → Held (p ∷ l) s0 s
      → Ends (kept who l s0) s0 (change_and_put who f p s)
  change_and_put-Held f p s h =
      change_then who l s0 (kept who l s0) (p ∷ l) p f (put_all who (p ∷ []) (pos 0)) s
        (λ s1 h1. leave_one who l s0 p (pos 0) s1 h1) h

  pub sys_utime-Held :
      (path : List ℕ) (times : Option (ℕ × ℕ)) (s : Fs)
      → Held l s0 s
      → Ends (kept who l s0) s0 (sys_utime who path times s)
  unfolding sys_utime
  sys_utime-Held path times s h =
      with_kept path enoent _ s (change_and_put-Held (times_or_now who times)) h

  access_inode-Held :
      (uid gid mode p : ℕ) (s : Fs)
      → Held (p ∷ l) s0 s
      → Ends (kept who l s0) s0 (access_inode who uid gid mode p s)
  access_inode-Held uid gid mode p s h =
      let next : FsRun ℤ = λ s'. pure (access_of uid gid mode _ (s'.inode_table p)) s' in
      put_then who l s0 (kept who l s0) l p next s (λ s1 h1. h1) h

  pub sys_access-Held :
      (uid gid : ℕ) (path : List ℕ) (mode : ℕ) (s : Fs)
      → Held l s0 s
      → Ends (kept who l s0) s0 (sys_access who uid gid path mode s)
  unfolding sys_access
  sys_access-Held uid gid path mode s h = with_kept path eacces _ s (access_inode-Held uid gid _) h

  chmod_inode-Held :
      (mode p : ℕ) (s : Fs) → Held (p ∷ l) s0 s → Ends (kept who l s0) s0 (chmod_inode who mode p s)
  chmod_inode-Held mode p s h =
      by_test (λ (m : FsRun ℤ). Ends (kept who l s0) s0 (m s))
        (not (who.euid == (s.inode_table p).d.i_uid) && not (is_suser who)) _ _
        (λ e. leave_one who l s0 p eacces s h) (λ e. change_and_put-Held (set_mode mode) p s h)

  pub sys_chmod-Held :
      (path : List ℕ) (mode : ℕ) (s : Fs)
      → Held l s0 s
      → Ends (kept who l s0) s0 (sys_chmod who path mode s)
  unfolding sys_chmod
  sys_chmod-Held path mode s h = with_kept path enoent _ s (chmod_inode-Held mode) h

  chown_inode-Held :
      (uid gid p : ℕ) (s : Fs)
      → Held (p ∷ l) s0 s
      → Ends (kept who l s0) s0 (chown_inode who uid gid p s)
  chown_inode-Held uid gid p s h =
      by_test (λ (m : FsRun ℤ). Ends (kept who l s0) s0 (m s)) (not (is_suser who)) _ _
        (λ e. leave_one who l s0 p eacces s h) (λ e. change_and_put-Held (set_owner uid gid) p s h)

  pub sys_chown-Held :
      (path : List ℕ) (uid gid : ℕ) (s : Fs)
      → Held l s0 s
      → Ends (kept who l s0) s0 (sys_chown who path uid gid s)
  unfolding sys_chown
  sys_chown-Held path uid gid s h = with_kept path enoent _ s (chown_inode-Held uid gid) h

  pub sys_stat-Held :
      (path : List ℕ) (s : Fs) → Held l s0 s → Ends (kept who l s0) s0 (sys_stat who path s)
  unfolding sys_stat
  sys_stat-Held path s h =
      with_kept path _ (stat_inode who) s (λ p s' h'. leave_one who l s0 p _ s' h') h

  -- The directory of a task is held for it.
  abbrev pub moved : ℤ × ℕ → List ℕ
  moved (e, dir) = dir ∷ l

  replace_dir-Held :
      (old p : ℕ) (s : Fs) → Held (p ∷ old ∷ l) s0 s → Ends moved s0 (replace_dir who old p s)
  replace_dir-Held old p s h =
      by_test (λ (m : FsRun (ℤ × ℕ)). Ends moved s0 (m s)) (not (is_dir (s.inode_table p).d.i_mode))
        _ _ (λ e. put_all-Held who s0 moved (p ∷ []) (enotdir, old) s h)
        (λ e. put_all-Held who s0 moved (old ∷ []) (pos 0, p) s (swap-Held p old l s0 s h))

  pub sys_chdir-Held :
      (path : List ℕ) (s : Fs) → Held (who.pwd ∷ l) s0 s → Ends moved s0 (sys_chdir who path s)
  unfolding sys_chdir
  sys_chdir-Held path s h =
      with_name-Held moved (who.pwd ∷ l) (spare_cons 2 who.pwd l s0 spare) path _ _ s (λ s' h'. h')
        (replace_dir-Held who.pwd) h

  pub sys_chroot-Held :
      (path : List ℕ) (s : Fs) → Held (who.root ∷ l) s0 s → Ends moved s0 (sys_chroot who path s)
  unfolding sys_chroot
  sys_chroot-Held path s h =
      with_name-Held moved (who.root ∷ l) (spare_cons 2 who.root l s0 spare) path _ _ s
        (λ s' h'. h') (replace_dir-Held who.root) h
