-- ===== src/Names/Unlinking.antt =====
-- The use counts of the inodes under sys_unlink and sys_link of linux-0.11/fs/namei.c.
use learn_linux.Common.{ℕ, not, Option, none, some, List, [], ◌∷◌, length, ◌==◌, by_test}
use learn_linux.Common.Int.{ℤ, pos}
use learn_linux.Inodes.{Fs, FsRun, ◌>>◌, change}
use learn_linux.Inodes.Table.{is_dir, iput}
use learn_linux.Inodes.Held.{Held, Ends, bind-Ends, change-Held, Room, spare_cons, spare_two}
use learn_linux.Inodes.Balance.{iput-Held}
use learn_linux.Inodes.Gets.{swap-Held, made}
use learn_linux.Names.{Caller}
use learn_linux.Names.Walk.{basename, get_dir, namei}
use learn_linux.Names.Adding.{add_entry, number_entry}
use learn_linux.Names.Calls.{
  enoent, eacces, eexist, exdev, eperm, enospc, put_all, may_not_unlink, link_less, link_more,
  drop_link, unlink_inode, get_at, unlink_found, may_change, unlink_in, sys_unlink, number_new,
  link_added, link_found, link_in, link_to, link_old, sys_link,
}
use learn_linux.Names.Paths.{get_dir-Held, namei-Held}
use learn_linux.Names.Kept.{
  number_entry-Held, put_all-Held, get_at-Held, with_entry-Held, add_entry-Held,
}

module _ (who : Caller) (l : List ℕ) (s0 : Fs) where
  abbrev pub kept : {A : Type 0} → A → List ℕ
  kept a = l

  -- Both inodes are put.
  pub leave_both :
      {A : Type 0} (p q : ℕ) (r : A) (s : Fs)
      → Held (p ∷ q ∷ l) s0 s
      → Ends kept s0 (put_all who (p ∷ q ∷ []) r s)
  leave_both p q r s h = put_all-Held who s0 kept (p ∷ q ∷ []) r s h

  pub leave_one :
      {A : Type 0} (p : ℕ) (r : A) (s : Fs)
      → Held (p ∷ l) s0 s
      → Ends kept s0 (put_all who (p ∷ []) r s)
  leave_one p r s h = put_all-Held who s0 kept (p ∷ []) r s h

  module _ (spare : Room 3 l s0) where
    drop_link-Held :
        (dir i p : ℕ) (s : Fs) → Held (p ∷ dir ∷ l) s0 s → Ends kept s0 (drop_link who dir i p s)
    drop_link-Held dir i p s h =
        let m = p ∷ dir ∷ l in
        bind-Ends (λ (_ : Unit {0}). m) kept s0 (number_entry dir i 0 s)
          (λ _. change p (link_less who.now) >> put_all who (p ∷ dir ∷ []) (pos 0))
          (number_entry-Held m s0 s dir i 0 h)
          λ _ s' h'.
            bind-Ends (λ (_ : Unit {0}). m) kept s0 (change p (link_less who.now) s')
              (λ _. put_all who (p ∷ dir ∷ []) (pos 0))
              (change-Held m s0 s' p (link_less who.now) h')
              λ _ s'' h''. leave_both p dir (pos 0) s'' h''

    unlink_inode-Held :
        (dir i p : ℕ) (s : Fs) → Held (p ∷ dir ∷ l) s0 s → Ends kept s0 (unlink_inode who dir i p s)
    unlink_inode-Held dir i p s h =
        let d = s.inode_table dir in
        let n = s.inode_table p in
        let Ok : FsRun ℤ → Type 0 = λ m. Ends kept s0 (m s) in
        by_test Ok (may_not_unlink who d n) _ _
          (λ e. leave_both dir p eperm s (swap-Held p dir l s0 s h))
          λ e.
            by_test Ok (is_dir n.d.i_mode) _ _ (λ e'. leave_both p dir eperm s h)
              (λ e'. drop_link-Held dir i p s h)

    unlink_found-Held :
        (found : ℕ × Option ℕ) (s : Fs)
        → Held (found.0 ∷ l) s0 s
        → Ends kept s0 (unlink_found who found s)
    unlink_found-Held (dir, none) s h = leave_one dir enoent s h
    unlink_found-Held (dir, some i) s h =
        bind-Ends (λ p. p ∷ dir ∷ l) kept s0 (get_at who dir i s) (unlink_inode who dir i)
          (get_at-Held who (dir ∷ l) s0 (spare_cons 2 dir l s0 spare) dir i s h)
          λ p s' h'. unlink_inode-Held dir i p s' h'

    unlink_in-Held :
        (base : List ℕ) (o : Option ℕ) (s : Fs)
        → Held (made l o) s0 s
        → Ends kept s0 (unlink_in who base o s)
    unlink_in-Held base none s h = h
    unlink_in-Held base (some dir) s h =
        let Ok : FsRun ℤ → Type 0 = λ m. Ends kept s0 (m s) in
        by_test Ok (length base == 0) _ _ (λ e. leave_one dir enoent s h)
          λ e.
            by_test Ok (not (may_change who dir s)) _ _ (λ e'. leave_one dir eperm s h)
              λ e'.
                with_entry-Held who l s0 (spare_two l s0 spare) kept dir base (unlink_found who) s
                  unlink_found-Held h

    pub sys_unlink-Held :
        (path : List ℕ) (s : Fs) → Held l s0 s → Ends kept s0 (sys_unlink who path s)
    unfolding sys_unlink
    sys_unlink-Held path s h =
        bind-Ends (made l) kept s0 (get_dir who path s) (unlink_in who (basename path path))
          (get_dir-Held who l s0 (spare_two l s0 spare) path s h)
          λ o s' h'. unlink_in-Held (basename path path) o s' h'

    link_added-Held :
        (old dir : ℕ) (o : Option ℕ) (s : Fs)
        → Held (dir ∷ old ∷ l) s0 s
        → Ends kept s0 (link_added who old dir o s)
    link_added-Held old dir none s h = leave_both dir old enospc s h
    link_added-Held old dir (some i) s h =
        bind-Ends (λ (_ : Unit {0}). dir ∷ old ∷ l) kept s0 (number_new dir i old s)
          (λ _.
            iput who.now dir >> (change old (link_more who.now) >> put_all who (old ∷ []) (pos 0)))
          (number_entry-Held (dir ∷ old ∷ l) s0 s dir i _ h)
          λ _ s' h'.
            bind-Ends (λ (_ : Unit {0}). old ∷ l) kept s0 (iput who.now dir s')
              (λ _. change old (link_more who.now) >> put_all who (old ∷ []) (pos 0))
              (iput-Held (old ∷ l) s0 s' who.now dir h')
              λ _ s2 h2.
                bind-Ends (λ (_ : Unit {0}). old ∷ l) kept s0 (change old (link_more who.now) s2)
                  (λ _. put_all who (old ∷ []) (pos 0))
                  (change-Held (old ∷ l) s0 s2 old (link_more who.now) h2)
                  λ _ s3 h3. leave_one old (pos 0) s3 h3

    link_found-Held :
        (old : ℕ) (base : List ℕ) (found : ℕ × Option ℕ) (s : Fs)
        → Held (found.0 ∷ old ∷ l) s0 s
        → Ends kept s0 (link_found who old base found s)
    link_found-Held old base (dir, some i) s h = leave_both dir old eexist s h
    link_found-Held old base (dir, none) s h =
        bind-Ends (λ (_ : Option ℕ). dir ∷ old ∷ l) kept s0 (add_entry who dir base s)
          (link_added who old dir) (add_entry-Held who (dir ∷ old ∷ l) s0 dir base s h)
          λ o s' h'. link_added-Held old dir o s' h'

    link_in-Held :
        (old : ℕ) (base : List ℕ) (o : Option ℕ) (s : Fs)
        → Held (made (old ∷ l) o) s0 s
        → Ends kept s0 (link_in who old base o s)
    link_in-Held old base none s h = leave_one old eacces s h
    link_in-Held old base (some dir) s h =
        let Ok : FsRun ℤ → Type 0 = λ m. Ends kept s0 (m s) in
        by_test Ok (length base == 0) _ _
          (λ e. leave_both old dir eperm s (swap-Held dir old l s0 s h))
          λ e.
            by_test Ok (not ((s.inode_table dir).i_dev == (s.inode_table old).i_dev)) _ _
              (λ e'. leave_both dir old exdev s h)
              λ e'.
                by_test Ok (not (may_change who dir s)) _ _ (λ f. leave_both dir old eacces s h)
                  λ f.
                    with_entry-Held who (old ∷ l) s0 (spare_cons 2 old l s0 spare) kept dir base
                      (link_found who old base) s (link_found-Held old base) h

    link_to-Held :
        (path : List ℕ) (old : ℕ) (s : Fs)
        → Held (old ∷ l) s0 s
        → Ends kept s0 (link_to who path old s)
    link_to-Held path old s h =
        bind-Ends (made (old ∷ l)) kept s0 (get_dir who path s)
          (link_in who old (basename path path))
          (get_dir-Held who (old ∷ l) s0 (spare_cons 2 old l s0 spare) path s h)
          λ o s' h'. link_in-Held old (basename path path) o s' h'

    link_old-Held :
        (path : List ℕ) (o : Option ℕ) (s : Fs)
        → Held (made l o) s0 s
        → Ends kept s0 (link_old who path o s)
    link_old-Held path none s h = h
    link_old-Held path (some old) s h =
        by_test (λ (m : FsRun ℤ). Ends kept s0 (m s)) (is_dir (s.inode_table old).d.i_mode) _ _
          (λ e. leave_one old eperm s h) (λ e. link_to-Held path old s h)

    pub sys_link-Held :
        (oldname newname : List ℕ) (s : Fs)
        → Held l s0 s
        → Ends kept s0 (sys_link who oldname newname s)
    unfolding sys_link
    sys_link-Held oldname newname s h =
        bind-Ends (made l) kept s0 (namei who oldname s) (link_old who newname)
          (namei-Held who l s0 (spare_two l s0 spare) oldname s h)
          λ o s' h'. link_old-Held newname o s' h'
