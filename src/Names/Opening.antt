-- ===== src/Names/Opening.antt =====
-- The use counts of the inodes under open_namei of linux-0.11/fs/namei.c.
use learn_linux.Common.{
  ℕ, ◌+◌, not, ◌&&◌, ◌||◌, Option, none, some, List, [], ◌∷◌, length, ◌==◌, by_test, if◌then◌else◌,
}
use learn_linux.Inodes.{Fs, FsRun, pure, ◌>>=◌, ◌>>◌}
use learn_linux.Inodes.Table.{is_dir, iget, truncate}
use learn_linux.Inodes.Held.{Held, Ends, bind-Ends, Room, spare_two}
use learn_linux.Inodes.Balance.{truncate-Held}
use learn_linux.Inodes.Gets.{swap-Held, made, iget-Held}
use learn_linux.Names.{Caller}
use learn_linux.Names.Walk.{basename, get_dir, number_at}
use learn_linux.Names.Adding.{add_entry}
use learn_linux.Names.Calls.{enoent, eacces, eexist, eisdir, eperm, enospc, put_all, may_change}
use learn_linux.Names.Making.{
  OpenFlag, with_trunc, is_allowed, Opened, opens, fails, init_file, one_link_less, create_added,
  create_made, create_file, touch, open_inode, open_found, open_in, masked, open_namei,
}
use learn_linux.Names.Paths.{get_dir-Held}
use learn_linux.Names.Kept.{put_all-Held, with_entry-Held}
use learn_linux.Names.Creating.{change_then, number_then, put_then, with_added, with_new}

module _ (who : Caller) (l : List ℕ) (s0 : Fs) where
  -- The inode that open_namei gives is held for the caller.
  abbrev pub opened : Opened → List ℕ
  opened (e, o) = made l o

  leave_with :
      (p : ℕ) (r : Opened) (s : Fs)
      → Held (p ∷ opened r) s0 s
      → Ends opened s0 (put_all who (p ∷ []) r s)
  leave_with p r s h = put_all-Held who s0 opened (p ∷ []) r s h

  create_added-Held :
      (dir p : ℕ) (o : Option ℕ) (s : Fs)
      → Held (p ∷ dir ∷ l) s0 s
      → Ends opened s0 (create_added who dir p o s)
  create_added-Held dir p none s h =
      change_then who l s0 opened (p ∷ dir ∷ l) p one_link_less
        (put_all who (p ∷ dir ∷ []) (fails enospc)) s
        (λ s1 h1. put_all-Held who s0 opened (p ∷ dir ∷ []) (fails enospc) s1 h1) h
  create_added-Held dir p (some i) s h =
      number_then who l s0 opened (p ∷ dir ∷ l) dir i _ (put_all who (dir ∷ []) (opens p)) s
        (λ s1 h1. leave_with dir (opens p) s1 (swap-Held p dir l s0 s1 h1)) h

  create_made-Held :
      (mode dir : ℕ) (base : List ℕ) (o : Option ℕ) (s : Fs)
      → Held (made (dir ∷ l) o) s0 s
      → Ends opened s0 (create_made who mode dir base o s)
  create_made-Held mode dir base none s h = leave_with dir (fails enospc) s h
  create_made-Held mode dir base (some p) s h =
      change_then who l s0 opened (p ∷ dir ∷ l) p (init_file who.euid mode)
        (add_entry who dir base >>= create_added who dir p) s
        (λ s1.
          with_added who l s0 opened (p ∷ dir ∷ l) dir base (create_added who dir p) s1
            (create_added-Held dir p))
        h

  create_file-Held :
      (flag : OpenFlag) (mode dir : ℕ) (base : List ℕ) (s : Fs)
      → Held (dir ∷ l) s0 s
      → Ends opened s0 (create_file who flag mode dir base s)
  create_file-Held flag mode dir base s h =
      let Ok : FsRun Opened → Type 0 = λ m. Ends opened s0 (m s) in
      by_test Ok (not flag.creat) _ _ (λ e. leave_with dir (fails enoent) s h)
        λ e.
          by_test Ok (not (may_change who dir s)) _ _ (λ e'. leave_with dir (fails eacces) s h)
            λ e'.
              with_new who l s0 opened dir (create_made who mode dir base) s
                (create_made-Held mode dir base) h

  cut-Held :
      (flag : OpenFlag) (p : ℕ) (s : Fs)
      → Held (p ∷ l) s0 s
      → Ends (λ (_ : Unit {0}). p ∷ l) s0 ((if flag.trunc then truncate who.now p else pure tt) s)
  cut-Held flag p s h =
      by_test (λ (m : FsRun (Unit {0})). Ends (λ (_ : Unit {0}). p ∷ l) s0 (m s)) flag.trunc _ _
        (λ e. truncate-Held (p ∷ l) s0 s who.now p h) (λ e. h)

  open_inode-Held :
      (flag : OpenFlag) (p : ℕ) (s : Fs)
      → Held (p ∷ l) s0 s
      → Ends opened s0 (open_inode who flag p s)
  open_inode-Held flag p s h =
      let i = s.inode_table p in
      by_test (λ (m : FsRun Opened). Ends opened s0 (m s))
        ((is_dir i.d.i_mode && not (flag.accmode == 0)) || not (is_allowed who i flag.accmode)) _ _
        (λ e. leave_with p (fails eperm) s h)
        λ e.
          change_then who l s0 opened (p ∷ l) p (touch who.now)
            ((if flag.trunc then truncate who.now p else pure tt) >> pure (opens p)) s
            (λ s1 h1.
              bind-Ends (λ (_ : Unit {0}). p ∷ l) opened s0
                ((if flag.trunc then truncate who.now p else pure tt) s1) (λ _. pure (opens p))
                (cut-Held flag p s1 h1) λ _ s2 h2. h2)
            h

  module _ (spare : Room 3 l s0) where
    open_found-Held :
        (flag : OpenFlag) (mode : ℕ) (base : List ℕ) (found : ℕ × Option ℕ) (s : Fs)
        → Held (found.0 ∷ l) s0 s
        → Ends opened s0 (open_found who flag mode base found s)
    open_found-Held flag mode base (dir, none) s h = create_file-Held flag mode dir base s h
    open_found-Held flag mode base (dir, some i) s h =
        let inr' = number_at s dir i in
        let dev = (s.inode_table dir).i_dev in
        put_then who l s0 opened l dir
          (if flag.excl
            then pure (fails eexist)
            else (iget who.now dev inr' >>= open_inode who flag))
          s
          (λ s1 h1.
            by_test (λ (m : FsRun Opened). Ends opened s0 (m s1)) flag.excl _ _ (λ e. h1)
              λ e.
                bind-Ends (λ p. p ∷ l) opened s0 (iget who.now dev inr' s1) (open_inode who flag)
                  (iget-Held l s0 who.now (spare_two l s0 spare) dev inr' s1 h1)
                  λ p s2 h2. open_inode-Held flag p s2 h2)
          h

    open_in-Held :
        (flag : OpenFlag) (mode : ℕ) (base : List ℕ) (o : Option ℕ) (s : Fs)
        → Held (made l o) s0 s
        → Ends opened s0 (open_in who flag mode base o s)
    open_in-Held flag mode base none s h = h
    open_in-Held flag mode base (some dir) s h =
        let Ok : FsRun Opened → Type 0 = λ m. Ends opened s0 (m s) in
        by_test Ok (length base == 0) _ _
          (λ e.
            by_test Ok (flag.accmode == 0 && not flag.creat && not flag.trunc) _ _ (λ e'. h)
              (λ e'. leave_with dir (fails eisdir) s h))
          λ e.
            with_entry-Held who l s0 (spare_two l s0 spare) opened dir base
              (open_found who flag mode base) s (open_found-Held flag mode base) h

    pub open_namei-Held :
        (path : List ℕ) (flag : OpenFlag) (mode : ℕ) (s : Fs)
        → Held l s0 s
        → Ends opened s0 (open_namei who path flag mode s)
    unfolding open_namei
    open_namei-Held path flag mode s h =
        let f = with_trunc flag in
        let m = 32768 + masked who mode in
        bind-Ends (made l) opened s0 (get_dir who path s) (open_in who f m (basename path path))
          (get_dir-Held who l s0 (spare_two l s0 spare) path s h)
          λ o s' h'. open_in-Held f m (basename path path) o s' h'
