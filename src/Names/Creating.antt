-- ===== src/Names/Creating.antt =====
-- The use counts of the inodes under sys_mknod and open_namei of linux-0.11/fs/namei.c.
use learn_linux.Common.{ℕ, not, Option, none, some, List, [], ◌∷◌, length, ◌==◌, by_test}
use learn_linux.Common.Int.{ℤ, pos}
use learn_linux.Inodes.{Inode, Fs, FsRun, ◌>>=◌, ◌>>◌, change}
use learn_linux.Inodes.Table.{iput}
use learn_linux.Inodes.Held.{Held, Ends, bind-Ends, change-Held, Room, spare_two}
use learn_linux.Inodes.Balance.{iput-Held}
use learn_linux.Inodes.Gets.{swap-Held, made, new_inode-Held}
use learn_linux.Names.{Caller, is_suser}
use learn_linux.Names.Walk.{basename, get_dir}
use learn_linux.Names.Adding.{add_entry, number_entry}
use learn_linux.Names.Calls.{enoent, eexist, eperm, enospc, put_all, may_change}
use learn_linux.Names.Making.{
  init_node, no_links, mknod_added, mknod_made, new_beside, mknod_found, in_dir, super_call,
  sys_mknod,
}
use learn_linux.Names.Paths.{get_dir-Held}
use learn_linux.Names.Kept.{number_entry-Held, with_entry-Held, add_entry-Held}
use learn_linux.Names.Unlinking.{kept, leave_both, leave_one}

module _ (who : Caller) (l : List ℕ) (s0 : Fs) where
  -- A change of an inode, or the number of an entry, comes before the rest of a call.
  pub change_then :
      {A : Type 0} (post : A → List ℕ) (m : List ℕ) (p : ℕ) (f : Inode → Inode) (next : FsRun A)
      (s : Fs)
      → ((s' : Fs) → Held m s0 s' → Ends post s0 (next s'))
      → Held m s0 s
      → Ends post s0 ((change p f >> next) s)
  change_then post m p f next s goes h =
      bind-Ends (λ (_ : Unit {0}). m) post s0 (change p f s) (λ _. next) (change-Held m s0 s p f h)
        λ _ s' h'. goes s' h'

  pub number_then :
      {A : Type 0} (post : A → List ℕ) (m : List ℕ) (p i nr : ℕ) (next : FsRun A) (s : Fs)
      → ((s' : Fs) → Held m s0 s' → Ends post s0 (next s'))
      → Held m s0 s
      → Ends post s0 ((number_entry p i nr >> next) s)
  number_then post m p i nr next s goes h =
      bind-Ends (λ (_ : Unit {0}). m) post s0 (number_entry p i nr s) (λ _. next)
        (number_entry-Held m s0 s p i nr h) λ _ s' h'. goes s' h'

  pub put_then :
      {A : Type 0} (post : A → List ℕ) (m : List ℕ) (p : ℕ) (next : FsRun A) (s : Fs)
      → ((s' : Fs) → Held m s0 s' → Ends post s0 (next s'))
      → Held (p ∷ m) s0 s
      → Ends post s0 ((iput who.now p >> next) s)
  put_then post m p next s goes h =
      bind-Ends (λ (_ : Unit {0}). m) post s0 (iput who.now p s) (λ _. next)
        (iput-Held m s0 s who.now p h) λ _ s' h'. goes s' h'

  -- The new inode and the directory are held when the entry is there or could not be made.
  pub with_added :
      {A : Type 0} (post : A → List ℕ) (m : List ℕ) (dir : ℕ) (base : List ℕ)
      (next : Option ℕ → FsRun A) (s : Fs)
      → ((o : Option ℕ) (s' : Fs) → Held m s0 s' → Ends post s0 (next o s'))
      → Held m s0 s
      → Ends post s0 ((add_entry who dir base >>= next) s)
  with_added post m dir base next s goes h =
      bind-Ends (λ (_ : Option ℕ). m) post s0 (add_entry who dir base s) next
        (add_entry-Held who m s0 dir base s h) λ o s' h'. goes o s' h'

  pub with_new :
      {A : Type 0} (post : A → List ℕ) (dir : ℕ) (next : Option ℕ → FsRun A) (s : Fs)
      → ((o : Option ℕ) (s' : Fs) → Held (made (dir ∷ l) o) s0 s' → Ends post s0 (next o s'))
      → Held (dir ∷ l) s0 s
      → Ends post s0 ((new_beside who dir >>= next) s)
  with_new post dir next s goes h =
      bind-Ends (made (dir ∷ l)) post s0 (new_beside who dir s) next
        (new_inode-Held (dir ∷ l) s0 who.now who.euid who.egid _ s h) λ o s' h'. goes o s' h'

  module _ (spare : Room 3 l s0) where
    -- sys_mknod, sys_mkdir and sys_rmdir begin in the same way.
    in_dir-Held :
        (base : List ℕ) (next : ℕ × Option ℕ → FsRun ℤ) (o : Option ℕ) (s : Fs)
        → ((found : ℕ × Option ℕ) (s : Fs)
            → Held (found.0 ∷ l) s0 s
            → Ends (kept who l s0) s0 (next found s))
        → Held (made l o) s0 s
        → Ends (kept who l s0) s0 (in_dir who base next o s)
    in_dir-Held base next none s goes h = h
    in_dir-Held base next (some dir) s goes h =
        let Ok : FsRun ℤ → Type 0 = λ m. Ends (kept who l s0) s0 (m s) in
        by_test Ok (length base == 0) _ _ (λ e. leave_one who l s0 dir enoent s h)
          λ e.
            by_test Ok (not (may_change who dir s)) _ _ (λ e'. leave_one who l s0 dir eperm s h)
              λ e'.
                with_entry-Held who l s0 (spare_two l s0 spare) (kept who l s0) dir base next s goes
                  h

    pub super_call-Held :
        (path : List ℕ) (next : ℕ × Option ℕ → FsRun ℤ) (s : Fs)
        → ((found : ℕ × Option ℕ) (s : Fs)
            → Held (found.0 ∷ l) s0 s
            → Ends (kept who l s0) s0 (next found s))
        → Held l s0 s
        → Ends (kept who l s0) s0 (super_call who path next s)
    super_call-Held path next s goes h =
        by_test (λ (m : FsRun ℤ). Ends (kept who l s0) s0 (m s)) (not (is_suser who)) _ _ (λ e. h)
          λ e.
            bind-Ends (made l) (kept who l s0) s0 (get_dir who path s)
              (in_dir who (basename path path) next)
              (get_dir-Held who l s0 (spare_two l s0 spare) path s h)
              λ o s' h'. in_dir-Held (basename path path) next o s' goes h'

    mknod_added-Held :
        (dir p : ℕ) (o : Option ℕ) (s : Fs)
        → Held (p ∷ dir ∷ l) s0 s
        → Ends (kept who l s0) s0 (mknod_added who dir p o s)
    mknod_added-Held dir p none s h =
        put_then (kept who l s0) (p ∷ l) dir (change p no_links >> put_all who (p ∷ []) enospc) s
          (λ s1.
            change_then (kept who l s0) (p ∷ l) p no_links _ s1
              λ s2. leave_one who l s0 p enospc s2)
          (swap-Held p dir l s0 s h)
    mknod_added-Held dir p (some i) s h =
        number_then (kept who l s0) (p ∷ dir ∷ l) dir i _ (put_all who (dir ∷ p ∷ []) (pos 0)) s
          (λ s1 h1. leave_both who l s0 dir p (pos 0) s1 (swap-Held p dir l s0 s1 h1)) h

    mknod_made-Held :
        (mode dev dir : ℕ) (base : List ℕ) (o : Option ℕ) (s : Fs)
        → Held (made (dir ∷ l) o) s0 s
        → Ends (kept who l s0) s0 (mknod_made who mode dev dir base o s)
    mknod_made-Held mode dev dir base none s h = leave_one who l s0 dir enospc s h
    mknod_made-Held mode dev dir base (some p) s h =
        change_then (kept who l s0) (p ∷ dir ∷ l) p (init_node who.now mode dev)
          (add_entry who dir base >>= mknod_added who dir p) s
          (λ s1.
            with_added (kept who l s0) (p ∷ dir ∷ l) dir base (mknod_added who dir p) s1
              (mknod_added-Held dir p))
          h

    mknod_found-Held :
        (mode dev : ℕ) (base : List ℕ) (found : ℕ × Option ℕ) (s : Fs)
        → Held (found.0 ∷ l) s0 s
        → Ends (kept who l s0) s0 (mknod_found who mode dev base found s)
    mknod_found-Held mode dev base (dir, some i) s h = leave_one who l s0 dir eexist s h
    mknod_found-Held mode dev base (dir, none) s h =
        with_new (kept who l s0) dir (mknod_made who mode dev dir base) s
          (mknod_made-Held mode dev dir base) h

    pub sys_mknod-Held :
        (path : List ℕ) (mode dev : ℕ) (s : Fs)
        → Held l s0 s
        → Ends (kept who l s0) s0 (sys_mknod who path mode dev s)
    unfolding sys_mknod
    sys_mknod-Held path mode dev s h =
        super_call-Held path (mknod_found who mode dev (basename path path)) s
          (mknod_found-Held mode dev (basename path path)) h
