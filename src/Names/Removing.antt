-- ===== src/Names/Removing.antt =====
-- The use counts of the inodes under sys_mkdir and sys_rmdir of linux-0.11/fs/namei.c.
use learn_linux.Common.{
  ℕ, Bool, true, false, not, ◌&&◌, ◌||◌, Option, none, some, List, [], ◌∷◌, ◌==◌, ltb, by_test,
}
use learn_linux.Common.Int.{ℤ, pos}
use learn_linux.Inodes.{DirEntry, Fs, FsRun, pure, ◌>>=◌, ◌>>◌, halt, change}
use learn_linux.Inodes.Table.{is_dir}
use learn_linux.Inodes.Held.{Held, Ends, bind-Ends, Room, spare_cons}
use learn_linux.Inodes.Gets.{swap-Held, made}
use learn_linux.Names.{Caller}
use learn_linux.Names.Walk.{basename}
use learn_linux.Names.Adding.{zero_block, set_block, write_entry, add_entry}
use learn_linux.Names.Calls.{enoent, eexist, enotdir, eperm, enospc, put_all, get_at, is_sticky}
use learn_linux.Names.Making.{one_link_less, masked}
use learn_linux.Names.Dirs.{
  enotempty, init_dir, first_zone_block, dot, dotdot, is_made, one_link_more, mkdir_added, fill_dir,
  mkdir_made, mkdir_found, sys_mkdir, empty_dir, lose_dir, gone, remove_dir, rmdir_inode,
  rmdir_found, sys_rmdir,
}
use learn_linux.Names.Kept.{get_at-Held}
use learn_linux.Names.Unlinking.{kept, leave_both, leave_one}
use learn_linux.Names.Creating.{
  change_then, number_then, put_then, with_added, with_new, super_call-Held,
}

module _ (who : Caller) (l : List ℕ) (s0 : Fs) (spare : Room 3 l s0) where
  mkdir_added-Held :
      (dir p : ℕ) (o : Option ℕ) (s : Fs)
      → Held (p ∷ dir ∷ l) s0 s
      → Ends (kept who l s0) s0 (mkdir_added who dir p o s)
  mkdir_added-Held dir p none s h =
      put_then who l s0 (kept who l s0) (p ∷ l) dir halt s (λ s1 h1. tt) (swap-Held p dir l s0 s h)
  mkdir_added-Held dir p (some i) s h =
      number_then who l s0 (kept who l s0) (p ∷ dir ∷ l) dir i _
        (change dir one_link_more >> put_all who (dir ∷ p ∷ []) (pos 0)) s
        (λ s1.
          change_then who l s0 (kept who l s0) (p ∷ dir ∷ l) dir one_link_more
            (put_all who (dir ∷ p ∷ []) (pos 0)) s1
            λ s2 h2. leave_both who l s0 dir p (pos 0) s2 (swap-Held p dir l s0 s2 h2))
        h

  fill_dir-Held :
      (mode dir p : ℕ) (base : List ℕ) (room : Bool) (s : Fs)
      → Held (p ∷ dir ∷ l) s0 s
      → Ends (kept who l s0) s0 (fill_dir who mode dir p base room s)
  fill_dir-Held mode dir p base false s h =
      put_then who l s0 (kept who l s0) (p ∷ l) dir
        (change p one_link_less >> put_all who (p ∷ []) enospc) s
        (λ s1.
          change_then who l s0 (kept who l s0) (p ∷ l) p one_link_less _ s1
            λ s2. leave_one who l s0 p enospc s2)
        (swap-Held p dir l s0 s h)
  fill_dir-Held mode dir p base true s h =
      let m = p ∷ dir ∷ l in
      let first = dot (s.inode_table p).i_num in
      let second = dotdot (s.inode_table dir).i_num in
      let rest = add_entry who dir base >>= mkdir_added who dir p in
      bind-Ends (λ (_ : Unit {0}). m) (kept who l s0) s0 (write_entry p 0 first s)
        (λ _. write_entry p 1 second >> (change p (is_made (masked who mode)) >> rest)) h
        λ _ s1 h1.
          bind-Ends (λ (_ : Unit {0}). m) (kept who l s0) s0 (write_entry p 1 second s1)
            (λ _. change p (is_made (masked who mode)) >> rest) h1
            λ _ s2 h2.
              change_then who l s0 (kept who l s0) m p (is_made (masked who mode)) rest s2
                (λ s3.
                  with_added who l s0 (kept who l s0) m dir base (mkdir_added who dir p) s3
                    (mkdir_added-Held dir p))
                h2

  with_first_block :
      (p : ℕ) (next : Bool → FsRun ℤ) (s : Fs)
      → ((room : Bool) (b : ℕ → ℕ → ℕ → Option (ℕ → DirEntry))
          → Ends (kept who l s0) s0 (next room (record s { block = b })))
      → Ends (kept who l s0) s0 ((first_zone_block p >>= next) s)
  with_first_block p next s goes =
      let i = s.inode_table p in
      by_test (λ (m : FsRun Bool). Ends (kept who l s0) s0 ((m >>= next) s))
        (s.room i.i_dev i.i_num 0) (set_block p 0 zero_block >> pure true) _ (λ e. goes true _)
        (λ e. goes false s.block)

  mkdir_made-Held :
      (mode dir : ℕ) (base : List ℕ) (o : Option ℕ) (s : Fs)
      → Held (made (dir ∷ l) o) s0 s
      → Ends (kept who l s0) s0 (mkdir_made who mode dir base o s)
  mkdir_made-Held mode dir base none s h = leave_one who l s0 dir enospc s h
  mkdir_made-Held mode dir base (some p) s h =
      change_then who l s0 (kept who l s0) (p ∷ dir ∷ l) p (init_dir who.now)
        (first_zone_block p >>= fill_dir who mode dir p base) s
        (λ s1 h1.
          with_first_block p (fill_dir who mode dir p base) s1
            λ room b. fill_dir-Held mode dir p base room (record s1 { block = b }) h1)
        h

  mkdir_found-Held :
      (mode : ℕ) (base : List ℕ) (found : ℕ × Option ℕ) (s : Fs)
      → Held (found.0 ∷ l) s0 s
      → Ends (kept who l s0) s0 (mkdir_found who mode base found s)
  mkdir_found-Held mode base (dir, some i) s h = leave_one who l s0 dir eexist s h
  mkdir_found-Held mode base (dir, none) s h =
      with_new who l s0 (kept who l s0) dir (mkdir_made who mode dir base) s
        (mkdir_made-Held mode dir base) h

  pub sys_mkdir-Held :
      (path : List ℕ) (mode : ℕ) (s : Fs)
      → Held l s0 s
      → Ends (kept who l s0) s0 (sys_mkdir who path mode s)
  unfolding sys_mkdir
  sys_mkdir-Held path mode s h =
      super_call-Held who l s0 spare path (mkdir_found who mode (basename path path)) s
        (mkdir_found-Held mode (basename path path)) h

  remove_dir-Held :
      (dir i p : ℕ) (s : Fs)
      → Held (p ∷ dir ∷ l) s0 s
      → Ends (kept who l s0) s0 (remove_dir who dir i p s)
  remove_dir-Held dir i p s h =
      let m = p ∷ dir ∷ l in
      number_then who l s0 (kept who l s0) m dir i 0
        (change p gone >> (change dir (lose_dir who.now) >> put_all who (dir ∷ p ∷ []) (pos 0))) s
        (λ s1.
          change_then who l s0 (kept who l s0) m p gone
            (change dir (lose_dir who.now) >> put_all who (dir ∷ p ∷ []) (pos 0)) s1
            λ s2.
              change_then who l s0 (kept who l s0) m dir (lose_dir who.now)
                (put_all who (dir ∷ p ∷ []) (pos 0)) s2
                λ s3 h3. leave_both who l s0 dir p (pos 0) s3 (swap-Held p dir l s0 s3 h3))
        h

  rmdir_inode-Held :
      (dir i p : ℕ) (s : Fs)
      → Held (p ∷ dir ∷ l) s0 s
      → Ends (kept who l s0) s0 (rmdir_inode who dir i p s)
  rmdir_inode-Held dir i p s h =
      let d = s.inode_table dir in
      let n = s.inode_table p in
      let Ok : FsRun ℤ → Type 0 = λ m. Ends (kept who l s0) s0 (m s) in
      let not_allowed = leave_both who l s0 dir p eperm s (swap-Held p dir l s0 s h) in
      by_test Ok (is_sticky d && not (who.euid == 0) && not (n.d.i_uid == who.euid)) _ _
        (λ e. not_allowed)
        λ e.
          by_test Ok (not (n.i_dev == d.i_dev) || ltb 1 n.i_count) _ _ (λ e1. not_allowed)
            λ e1.
              by_test Ok (p == dir) _ _ (λ e2. leave_both who l s0 p dir eperm s h)
                λ e2.
                  by_test Ok (not (is_dir n.d.i_mode)) _ _
                    (λ e3. leave_both who l s0 p dir enotdir s h)
                    λ e3.
                      by_test Ok (not (empty_dir p s)) _ _
                        (λ e4. leave_both who l s0 p dir enotempty s h)
                        λ e4. remove_dir-Held dir i p s h

  rmdir_found-Held :
      (found : ℕ × Option ℕ) (s : Fs)
      → Held (found.0 ∷ l) s0 s
      → Ends (kept who l s0) s0 (rmdir_found who found s)
  rmdir_found-Held (dir, none) s h = leave_one who l s0 dir enoent s h
  rmdir_found-Held (dir, some i) s h =
      bind-Ends (λ p. p ∷ dir ∷ l) (kept who l s0) s0 (get_at who dir i s) (rmdir_inode who dir i)
        (get_at-Held who (dir ∷ l) s0 (spare_cons 2 dir l s0 spare) dir i s h)
        λ p s' h'. rmdir_inode-Held dir i p s' h'

  pub sys_rmdir-Held :
      (path : List ℕ) (s : Fs) → Held l s0 s → Ends (kept who l s0) s0 (sys_rmdir who path s)
  unfolding sys_rmdir
  sys_rmdir-Held path s h =
      super_call-Held who l s0 spare path (rmdir_found who) s rmdir_found-Held h
