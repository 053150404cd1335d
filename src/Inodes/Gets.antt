-- ===== src/Inodes/Gets.antt =====
-- The use counts of the inodes under iget and new_inode of linux-0.11/fs.
use learn_linux.Common.{
  ℕ, zero, suc, ◌+◌, ◌*◌, Option, none, some, List, ◌∷◌, arith, ◌==◌, ltb, by_test, if◌then◌else◌,
}
use learn_linux.Bitmap.{Map, Spot}
use learn_linux.Inodes.{Volume, Inode, Fs, FsRun, pure, ◌>>◌, hold, change}
use learn_linux.Inodes.Table.{
  get_empty_inode, iput, found_inode, read_on, use_inode, iget_loop, iget,
}
use learn_linux.Inodes.Making.{
  init_inode, give_up, make_inode, take_number, number_on, number_inode, new_inode,
}
use learn_linux.Inodes.Held.{Held, Ends, bind-Ends, change-Held, hold-Held, Room, spare_cons}
use learn_linux.Inodes.Balance.{get_empty_inode-Held, iput-Held}

-- The order of the list does not matter.
pub swap-Held : (a b : ℕ) (l : List ℕ) (s0 s : Fs) → Held (a ∷ b ∷ l) s0 s → Held (b ∷ a ∷ l) s0 s
swap-Held a b l s0 s h j = let now = h j in omega arith

-- An inode that may have been got is held as well.
abbrev pub made : List ℕ → Option ℕ → List ℕ
made l none = l
made l (some p) = p ∷ l

module _ (l : List ℕ) (s0 : Fs) (now : ℕ) where
  -- An inode is put, and another one is the result.
  pub put_and-Held :
      {A : Type 0} (post : A → List ℕ) (p : ℕ) (a : A) (s : Fs)
      → Held (p ∷ post a) s0 s
      → Ends post s0 ((iput now p >> pure a) s)
  put_and-Held post p a s h =
      bind-Ends (λ (_ : Unit {0}). post a) post s0 (iput now p s) (λ _. pure a)
        (iput-Held (post a) s0 s now p h) λ _ s' h'. h'

  Gives : (empty : ℕ) → FsRun ℕ → Type 0
  Gives empty m = (s : Fs) → Held (empty ∷ l) s0 s → Ends (λ q. q ∷ l) s0 (m s)

  found_inode-Held :
      (empty p : ℕ) (again : (dev : ℕ) → FsRun ℕ) (o : Option ℕ) (s : Fs)
      → ((dev : ℕ) (s : Fs) → Held (empty ∷ l) s0 s → Ends (λ q. q ∷ l) s0 (again dev s))
      → Held (p ∷ empty ∷ l) s0 s
      → Ends (λ q. q ∷ l) s0 (found_inode now empty p again o s)
  found_inode-Held empty p again none s next h =
      put_and-Held (λ q. q ∷ l) empty p s (swap-Held p empty l s0 s h)
  found_inode-Held empty p again (some dev) s next h =
      bind-Ends (λ (_ : Unit {0}). empty ∷ l) (λ q. q ∷ l) s0 (iput now p s) (λ _. again dev)
        (iput-Held (empty ∷ l) s0 s now p h) λ _ s' h'. next dev s' h'

  read_on-Held :
      (empty dev nr : ℕ) (o : Option Volume) (s : Fs)
      → Held (empty ∷ l) s0 s
      → Ends (λ q. q ∷ l) s0 (read_on empty dev nr o s)
  read_on-Held empty dev nr none s h = tt
  read_on-Held empty dev nr (some v) s h =
      let read : Inode → Inode = λ x. record x { i_dev = dev; i_num = nr; d = s.d_inode dev nr } in
      bind-Ends (λ (_ : Unit {0}). empty ∷ l) (λ q. q ∷ l) s0 (change empty read s)
        (λ _. pure empty) (change-Held (empty ∷ l) s0 s empty read h) λ _ s' h'. h'

  use_inode-Held :
      (room : Room 2 l s0) (empty : ℕ) (again : (dev : ℕ) → FsRun ℕ) (dev nr : ℕ) (o : Option ℕ)
      (s : Fs)
      → ((dev : ℕ) (s : Fs) → Held (empty ∷ l) s0 s → Ends (λ q. q ∷ l) s0 (again dev s))
      → Held (empty ∷ l) s0 s
      → Ends (λ q. q ∷ l) s0 (use_inode now empty again dev nr o s)
  use_inode-Held room empty again dev nr none s next h = read_on-Held empty dev nr (s.super dev) s h
  use_inode-Held room empty again dev nr (some p) s next h =
      let o = if (s.inode_table p).i_mount then s.mounted p else none in
      bind-Ends (λ (_ : Unit {0}). p ∷ empty ∷ l) (λ q. q ∷ l) s0 (hold p s)
        (λ _. found_inode now empty p again o)
        (hold-Held (empty ∷ l) s0 s p (spare_cons 1 empty l s0 room) h)
        λ _ s' h'. found_inode-Held empty p again o s' next h'

  iget_loop-Held :
      (room : Room 2 l s0) (empty fuel nr dev : ℕ) (s : Fs)
      → Held (empty ∷ l) s0 s
      → Ends (λ q. q ∷ l) s0 (iget_loop now empty fuel nr dev s)
  unfolding iget_loop
  iget_loop-Held room empty zero nr dev s h = tt
  iget_loop-Held room empty (suc fuel) nr dev s h =
      use_inode-Held room empty (iget_loop now empty fuel 1) dev nr _ s
        (λ dev' s' h'. iget_loop-Held room empty fuel 1 dev' s' h') h

  pub iget-Held :
      (room : Room 2 l s0) (dev nr : ℕ) (s : Fs)
      → Held l s0 s
      → Ends (λ q. q ∷ l) s0 (iget now dev nr s)
  unfolding iget
  iget-Held room dev nr s h =
      by_test (λ (m : FsRun ℕ). Ends (λ q. q ∷ l) s0 (m s)) (dev == 0) _ _ (λ e. tt)
        λ e.
          bind-Ends (λ q. q ∷ l) (λ q. q ∷ l) s0 (get_empty_inode s) _
            (get_empty_inode-Held l s0 s h) λ empty s' h'. iget_loop-Held room empty 9 nr dev s' h'

  give_up-Held : (p : ℕ) (s : Fs) → Held (p ∷ l) s0 s → Ends (made l) s0 (give_up now p s)
  give_up-Held p s h = put_and-Held (made l) p none s h

  module _ (euid egid dev p : ℕ) where
    make_inode-Held :
        (num : ℕ) (v : Volume) (m : Map) (s : Fs)
        → Held (p ∷ l) s0 s
        → Ends (made l) s0 (make_inode now euid egid dev p num v m s)
    make_inode-Held num v m s h = change-Held (p ∷ l) s0 s p (init_inode now euid egid dev num) h

    take_number-Held :
        (v : Volume) (o : Option Spot) (s : Fs)
        → Held (p ∷ l) s0 s
        → Ends (made l) s0 (take_number now euid egid dev p v o s)
    take_number-Held v none s h = give_up-Held p s h
    take_number-Held v (some t) s h =
        let Made : FsRun (Option ℕ) → Type 0 = λ m. Ends (made l) s0 (m s) in
        by_test Made (ltb v.s_ninodes (t.j + t.i * 8192)) _ _ (λ e. give_up-Held p s h)
          λ e. by_test Made (t.map.bits t.j) _ _ (λ e'. tt) (λ e'. make_inode-Held _ v t.map s h)

    number_on-Held :
        (o : Option Volume) (s : Fs)
        → Held (p ∷ l) s0 s
        → Ends (made l) s0 (number_on now euid egid dev p o s)
    number_on-Held none s h = tt
    number_on-Held (some v) s h = take_number-Held v _ s h

  pub new_inode-Held :
      (euid egid dev : ℕ) (s : Fs) → Held l s0 s → Ends (made l) s0 (new_inode now euid egid dev s)
  unfolding new_inode
  new_inode-Held euid egid dev s h =
      bind-Ends (λ q. q ∷ l) (made l) s0 (get_empty_inode s) (number_inode now euid egid dev)
        (get_empty_inode-Held l s0 s h)
        λ p s' h'. number_on-Held euid egid dev p (s'.super dev) s' h'
