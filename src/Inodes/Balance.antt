-- ===== src/Inodes/Balance.antt =====
-- The use counts of the inodes under the calls of linux-0.11/fs/inode.c.
use learn_linux.Common.{
  by_test, ℕ, zero, suc, ◌+◌, ◌-◌, ◌/◌, ◌≡◌, refl, inl, inr, false, not, ◌&&◌, ◌||◌, Option, none,
  some, List, ◌∷◌, arith, ◌==◌, ==_refl, ltb, if◌then◌else◌, Bool-cases, Option-cases, update,
}
use learn_linux.Inodes.{Inode, no_inode, Volume, Fs, FsRun, pure, change, set_uses}
use learn_linux.Inodes.Table.{
  nr_inode, search_empty, write_inode, take_empty, get_empty_inode, truncate, free_on, free_inode,
  put_linked, put_unlinked, put_last, put_pipe, end_pipe, put_counted, iput, clean_inode, sync_from,
  sync_dev, put_more, is_type, is_reg, is_dir, after_inode,
}
use learn_linux.Inodes.Held.{
  times_in, uses, Held, Ends, bind-Ends, change-Held, same_count, one_more, one_less,
}

write_inode-Held :
    (l : List ℕ) (s0 s : Fs) (p : ℕ) → Held l s0 s → Ends (λ (_ : Unit {0}). l) s0 (write_inode p s)
unfolding write_inode
write_inode-Held l s0 s p h =
    elim (Bool-cases ((s.inode_table p).i_dirt && not ((s.inode_table p).i_dev == 0))) [
      | inl write ↦ elim (Option-cases (s.super (s.inode_table p).i_dev)) [
        | inl missing ↦ rw (write, missing) tt
        | inr (v, here) ↦ rw (write, here) (same_count l s0 s p _ refl h)
      ]
      | inr clean ↦ rw clean h
    ]

clean_inode-Held :
    (l : List ℕ) (s0 s : Fs) (p : ℕ) → Held l s0 s → Ends (λ (_ : Unit {0}). l) s0 (clean_inode p s)
clean_inode-Held l s0 s p h =
    bind-Ends (λ (_ : Unit {0}). l) (λ (_ : Unit {0}). l) s0 (write_inode p s) _
      (write_inode-Held l s0 s p h)
      λ _ s' h'.
        by_test (λ (m : FsRun (Unit {0})). Ends (λ _. l) s0 (m s')) (s'.inode_table p).i_dirt _ _
          (λ e. tt) (λ e. h')

sync_from-Held :
    (l : List ℕ) (s0 s : Fs) (n p : ℕ)
    → Held l s0 s
    → Ends (λ (_ : Unit {0}). l) s0 (sync_from n p s)
unfolding sync_from
sync_from-Held l s0 s zero p h = h
sync_from-Held l s0 s (suc n) p h =
    let i = s.inode_table p in
    let Synced : FsRun (Unit {0}) → Type 0 = λ m. Ends (λ (_ : Unit {0}). l) s0 (m s) in
    bind-Ends (λ (_ : Unit {0}). l) (λ (_ : Unit {0}). l) s0
      ((if i.i_dirt && not i.i_pipe then write_inode p else pure tt) s) (λ _. sync_from n (p + 1))
      (by_test Synced (i.i_dirt && not i.i_pipe) _ _ (λ e. write_inode-Held l s0 s p h) (λ e. h))
      λ _ s' h'. sync_from-Held l s0 s' n (p + 1) h'

abbrev IsFree : Fs → Option ℕ → Type 0
IsFree s none = Unit
IsFree s (some p) = uses s p ≡ 0

search_empty-IsFree :
    (s : Fs) (n last : ℕ) (found : Option ℕ)
    → IsFree s found
    → IsFree s (search_empty s.inode_table n last found).0
unfolding search_empty
search_empty-IsFree s zero last found h = h
search_empty-IsFree s (suc n) last found h =
    let p = after_inode last in
    elim (Bool-cases ((s.inode_table p).i_count == 0)) [
      | inr used ↦ rw used (search_empty-IsFree s n p found h)
      | inl free ↦
          let is_free : uses s p ≡ 0 = ground arith in
          elim (Bool-cases (s.inode_table p).i_dirt) [
            | inl dirty ↦ rw (free, dirty) (search_empty-IsFree s n p (some p) is_free)
            | inr clean ↦ rw (free, clean) is_free
          ]
    ]

clear_inode-taken :
    (l : List ℕ) (s0 s : Fs) (p : ℕ)
    → uses s0 p + times_in p l ≡ 0
    → Held l s0 s
    → Held
        (p ∷ l)
        s0
        (record s { inode_table = update s.inode_table p (record no_inode { i_count = 1 }) })
clear_inode-taken l s0 s p free h = let now = h p in one_more l s0 s p _ (omega arith) h

take_empty-Held :
    (l : List ℕ) (s0 s : Fs) (o : Option ℕ)
    → IsFree s o
    → Held l s0 s
    → Ends (λ p. p ∷ l) s0 (take_empty o s)
take_empty-Held l s0 s none free h = tt
take_empty-Held l s0 s (some p) free h =
    let now = h p in
    let none_yet : uses s0 p + times_in p l ≡ 0 = omega arith in
    bind-Ends (λ (_ : Unit {0}). l) (λ q. q ∷ l) s0 (clean_inode p s) _
      (clean_inode-Held l s0 s p h) λ _ s' h'. clear_inode-taken l s0 s' p none_yet h'

pub get_empty_inode-Held :
    (l : List ℕ) (s0 s : Fs) → Held l s0 s → Ends (λ p. p ∷ l) s0 (get_empty_inode s)
unfolding get_empty_inode
get_empty_inode-Held l s0 s h =
    take_empty-Held l s0 _ _ (search_empty-IsFree s nr_inode s.last_inode none tt) h

-- The last use of an inode ends.
last_use :
    (l : List ℕ) (s0 s : Fs) (p : ℕ) (new : Inode)
    → new.i_count ≡ 0
    → uses s0 p + times_in p (p ∷ l) ≡ 1
    → Held (p ∷ l) s0 s
    → (j : ℕ) → (update s.inode_table p new j).i_count ≡ uses s0 j + times_in j l
last_use l s0 s p new e once h = let now = h p in one_less l s0 s p new (omega arith) h

pub truncate-Held :
    (l : List ℕ) (s0 s : Fs) (now p : ℕ)
    → Held l s0 s
    → Ends (λ (_ : Unit {0}). l) s0 (truncate now p s)
unfolding truncate
truncate-Held l s0 s now p h =
    let mode = (s.inode_table p).d.i_mode in
    elim (Bool-cases (is_reg mode || is_dir mode)) [
      | inl has_blocks ↦ rw has_blocks (same_count l s0 s p _ refl h)
      | inr others ↦ rw others h
    ]

module _ (l : List ℕ) (s0 : Fs) (now p : ℕ) (once : uses s0 p + times_in p (p ∷ l) ≡ 1) where
  free_on-Held :
      (s : Fs) (i : Inode) (v : Option Volume)
      → Held (p ∷ l) s0 s
      → Ends (λ (_ : Unit {0}). l) s0 (free_on p i v s)
  free_on-Held s i none h = tt
  free_on-Held s i (some v) h = elim (Bool-cases (ltb i.i_num 1 || ltb v.s_ninodes i.i_num)) [
    | inl bad ↦ rw bad tt
    | inr good ↦ elim (Option-cases (v.s_imap (i.i_num / 8192))) [
      | inl missing ↦ rw (good, missing) tt
      | inr (m, here) ↦ rw (good, here) (last_use l s0 s p _ refl once h)
    ]
  ]

  free_inode-Held : (s : Fs) → Held (p ∷ l) s0 s → Ends (λ (_ : Unit {0}). l) s0 (free_inode p s)
  unfolding free_inode
  free_inode-Held s h =
      let i = s.inode_table p in
      elim (Bool-cases (i.i_dev == 0)) [
        | inl no_dev ↦ rw no_dev (last_use l s0 s p _ refl once h)
        | inr on_dev ↦ elim (Bool-cases (ltb 1 i.i_count)) [
          | inl more ↦ rw (on_dev, more) tt
          | inr one ↦ elim (Bool-cases (i.d.i_nlinks == 0)) [
            | inl no_links ↦ rw (on_dev, one, no_links) (free_on-Held s i (s.super i.i_dev) h)
            | inr links ↦ rw (on_dev, one, links) tt
          ]
        ]
      ]

  put_unlinked-Held :
      (s : Fs) → Held (p ∷ l) s0 s → Ends (λ (_ : Unit {0}). l) s0 (put_unlinked now p s)
  put_unlinked-Held s h =
      bind-Ends (λ (_ : Unit {0}). p ∷ l) (λ (_ : Unit {0}). l) s0 (truncate now p s)
        (λ _. free_inode p) (truncate-Held (p ∷ l) s0 s now p h) λ _ s' h'. free_inode-Held s' h'

  put_linked-Held :
      (s : Fs) (i : Inode) → Held (p ∷ l) s0 s → Ends (λ (_ : Unit {0}). l) s0 (put_linked p i s)
  put_linked-Held s i h = elim (Bool-cases i.i_dirt) [
    | inl dirty ↦ rw dirty (
        bind-Ends (λ (_ : Unit {0}). p ∷ l) (λ (_ : Unit {0}). l) s0 (write_inode p s)
          (λ _. set_uses p 0) (write_inode-Held (p ∷ l) s0 s p h)
          λ _ s' h'. last_use l s0 s' p _ refl once h')
    | inr clean ↦ rw clean (last_use l s0 s p _ refl once h)
  ]

  put_last-Held :
      (s : Fs) (i : Inode) → Held (p ∷ l) s0 s → Ends (λ (_ : Unit {0}). l) s0 (put_last now p i s)
  put_last-Held s i h = elim (Bool-cases (i.d.i_nlinks == 0)) [
    | inl no_links ↦ rw no_links (put_unlinked-Held s h)
    | inr links ↦ rw links (put_linked-Held s i h)
  ]

module _ (l : List ℕ) (s0 s : Fs) (now p : ℕ) (h : Held (p ∷ l) s0 s) where
  abbrev i : Inode
  i = s.inode_table p

  some_use : uses s p ≡ uses s0 p + (1 + times_in p l)
  some_use = let now' = h p in rw (==_refl p) at now'

  down : Ends (λ (_ : Unit {0}). l) s0 (set_uses p (i.i_count - 1) s)
  down = let some' = some_use in one_less l s0 s p _ (omega arith) h

  put_pipe-Held : Ends (λ (_ : Unit {0}). l) s0 (put_pipe p i s)
  put_pipe-Held = elim (Bool-cases (ltb 1 i.i_count)) [
    | inl more ↦ rw more down
    | inr one ↦
        let some' = some_use in
        let once : uses s0 p + times_in p (p ∷ l) ≡ 1 = let z = h p in ground arith in
        rw one (
          bind-Ends (λ (_ : Unit {0}). p ∷ l) (λ (_ : Unit {0}). l) s0 (change p end_pipe s)
            (λ _. set_uses p 0) (change-Held (p ∷ l) s0 s p end_pipe h)
            λ _ s' h'. last_use l s0 s' p _ refl once h')
  ]

  put_more-Held : Ends (λ (_ : Unit {0}). l) s0 (put_more now p i s)
  put_more-Held =
      by_test (λ (m : FsRun (Unit {0})). Ends (λ _. l) s0 (m s)) (ltb 1 i.i_count) _ _ (λ e. down)
        λ one.
          let some' = some_use in
          let once : uses s0 p + times_in p (p ∷ l) ≡ 1 = let z = h p in ground arith in
          put_last-Held l s0 now p once s i h

module _ (l : List ℕ) (s0 s : Fs) (now p : ℕ) (h : Held (p ∷ l) s0 s) where
  abbrev found : Inode
  found = s.inode_table p

  put_counted-Held : Ends (λ (_ : Unit {0}). l) s0 (put_counted now p found s)
  put_counted-Held =
      let Put : FsRun (Unit {0}) → Type 0 = λ m. Ends (λ (_ : Unit {0}). l) s0 (m s) in
      by_test Put found.i_pipe _ _ (λ e. put_pipe-Held l s0 s now p h)
        λ e.
          by_test Put (found.i_dev == 0) _ _ (λ e. down l s0 s now p h)
            λ e.
              by_test Put (is_type 24576 found.d.i_mode) _ _
                (λ e.
                  bind-Ends (λ (_ : Unit {0}). p ∷ l) (λ (_ : Unit {0}). l) s0 (sync_dev s) _
                    (sync_from-Held (p ∷ l) s0 s nr_inode 0 h)
                    λ _ s' h'. put_more-Held l s0 s' now p h')
                λ e. put_more-Held l s0 s now p h

  -- An inode that is held can be put.
  pub iput-Held : Ends (λ (_ : Unit {0}). l) s0 (iput now p s)
  unfolding iput
  iput-Held =
      let some' = some_use l s0 s now p h in
      let counted : (found.i_count == 0) ≡ false = ground arith in rw counted put_counted-Held
