-- ===== src/Names/Kept.antt =====
-- The use counts of the inodes under the parts of the calls of linux-0.11/fs/namei.c.
use learn_linux.Common.{
  ℕ, zero, suc, ◌+◌, ◌*◌, ◌/◌, ◌≤◌, ◌<◌, Bool, true, false, Option, none, some, List, [], ◌∷◌, ◌++◌,
  length, arith, ◌==◌, leb, by_test,
}
use learn_linux.Inodes.{DirEntry, Fs, FsRun, pure, ◌>>=◌, ◌>>◌, change}
use learn_linux.Inodes.Table.{iput}
use learn_linux.Inodes.Held.{Held, Ends, bind-Ends, change-Held, Room}
use learn_linux.Inodes.Balance.{iput-Held}
use learn_linux.Inodes.Gets.{iget-Held}
use learn_linux.Names.{Caller, shorten, entry_at, is_some_block, find_entry}
use learn_linux.Names.Adding.{
  zero_block, block_of, set_block, create_block, put_name, append_name, grow, touch_mtime,
  is_free_at, try_place, add_from, add_entry, number_entry, renumber,
}
use learn_linux.Names.Calls.{put_all, with_entry, get_at}
use learn_linux.Names.Paths.{at_dir, find_entry-Held}

renumber-Held :
    (l : List ℕ) (s0 s : Fs) (p i nr : ℕ) (o : Option DirEntry)
    → Held l s0 s
    → Ends (λ (_ : Unit {0}). l) s0 (renumber p i nr o s)
renumber-Held l s0 s p i nr none h = h
renumber-Held l s0 s p i nr (some de) h = h

pub number_entry-Held :
    (l : List ℕ) (s0 s : Fs) (p i nr : ℕ)
    → Held l s0 s
    → Ends (λ (_ : Unit {0}). l) s0 (number_entry p i nr s)
number_entry-Held l s0 s p i nr h = renumber-Held l s0 s p i nr (entry_at s p i) h

pub put_all-Held :
    {A : Type 0} (who : Caller) (s0 : Fs) (post : A → List ℕ) (held : List ℕ) (r : A) (s : Fs)
    → Held (held ++ post r) s0 s
    → Ends post s0 (put_all who held r s)
put_all-Held who s0 post [] r s h = h
put_all-Held who s0 post (p ∷ held) r s h =
    bind-Ends (λ (_ : Unit {0}). held ++ post r) post s0 (iput who.now p s)
      (λ _. put_all who held r) (iput-Held (held ++ post r) s0 s who.now p h)
      λ _ s' h'. put_all-Held who s0 post held r s' h'

-- Where a block is made, only the blocks change.
created :
    {A : Type 0} (post : A → List ℕ) (s0 : Fs) (p k : ℕ) (next : Bool → FsRun A) (s : Fs)
    → ((there : Bool) (b : ℕ → ℕ → ℕ → Option (ℕ → DirEntry))
        → Ends post s0 (next there (record s { block = b })))
    → Ends post s0 ((create_block p k >>= next) s)
created post s0 p k next s goes =
    let dir = s.inode_table p in
    let Ok : FsRun Bool → Type 0 = λ m. Ends post s0 ((m >>= next) s) in
    by_test Ok (is_some_block (block_of s p k)) _ _ (λ e. goes true s.block)
      λ e.
        by_test Ok (s.room dir.i_dev dir.i_num k) (set_block p k zero_block >> pure true) _
          (λ e'. goes true _) (λ e'. goes false s.block)

module _ (who : Caller) (l : List ℕ) (s0 : Fs) where
  pub get_at-Held :
      (spare : Room 2 l s0) (dir i : ℕ) (s : Fs)
      → Held l s0 s
      → Ends (λ p. p ∷ l) s0 (get_at who dir i s)
  get_at-Held spare dir i s h = iget-Held l s0 who.now spare _ _ s h

  pub with_entry-Held :
      {A : Type 0} (spare : Room 2 l s0) (post : A → List ℕ) (dir : ℕ) (name : List ℕ)
      (next : ℕ × Option ℕ → FsRun A) (s : Fs)
      → ((found : ℕ × Option ℕ) (s : Fs) → Held (found.0 ∷ l) s0 s → Ends post s0 (next found s))
      → Held (dir ∷ l) s0 s
      → Ends post s0 (with_entry who dir name next s)
  with_entry-Held spare post dir name next s goes h =
      bind-Ends (at_dir who l s0 spare) post s0 (find_entry who dir name s) next
        (find_entry-Held who l s0 spare dir name s h) λ (d, o) s' h'. goes (d, o) s' h'

  abbrev keep : Option ℕ → List ℕ
  keep o = l

  put_name-Held :
      (p : ℕ) (name : List ℕ) (i : ℕ) (s : Fs)
      → Held l s0 s
      → Ends keep s0 (put_name who p name i s)
  put_name-Held p name i s h = change-Held l s0 s p (touch_mtime who.now) h

  append_name-Held :
      (p : ℕ) (name : List ℕ) (i : ℕ) (s : Fs)
      → Held l s0 s
      → Ends keep s0 (append_name who p name i s)
  append_name-Held p name i s h =
      bind-Ends (λ (_ : Unit {0}). l) keep s0 (change p (grow who.now i) s)
        (λ _. put_name who p name i) (change-Held l s0 s p (grow who.now i) h)
        λ _ s' h'. put_name-Held p name i s' h'

  try_place-Held :
      (p : ℕ) (name : List ℕ) (i : ℕ) (next : FsRun (Option ℕ)) (there : Bool) (s : Fs)
      → (i * 16 < (s.inode_table p).d.i_size → Ends keep s0 (next s))
      → Held l s0 s
      → Ends keep s0 (try_place who p name i next there s)
  try_place-Held p name i next false s goes h = h
  try_place-Held p name i next true s goes h =
      let Ok : FsRun (Option ℕ) → Type 0 = λ m. Ends keep s0 (m s) in
      by_test Ok (leb (s.inode_table p).d.i_size (i * 16)) _ _ (λ e. append_name-Held p name i s h)
        λ e.
          by_test Ok (is_free_at s p i) _ next (λ e'. put_name-Held p name i s h)
            (λ e'. goes (ground arith))

  add_from-Held :
      (p : ℕ) (name : List ℕ) (fuel i : ℕ) (s : Fs)
      → (s.inode_table p).d.i_size + 16 ≤ (i + fuel) * 16
      → i * 16 < (s.inode_table p).d.i_size + 16
      → Held l s0 s
      → Ends keep s0 (add_from who p name fuel i s)
  unfolding add_from
  add_from-Held p name zero i s room near h = let no : ⊥ = omega arith in elim no [ ]
  add_from-Held p name (suc fuel) i s room near h =
      created (λ (_ : Option ℕ). l) s0 p (i / 64)
        (λ there. try_place who p name i (add_from who p name fuel (i + 1)) there) s
        λ there b.
          try_place-Held p name i (add_from who p name fuel (i + 1)) there (record s { block = b })
            (λ more.
              add_from-Held p name fuel (i + 1) (record s { block = b }) (omega arith) (omega arith)
                h)
            h

  pub add_entry-Held :
      (p : ℕ) (name : List ℕ) (s : Fs) → Held l s0 s → Ends keep s0 (add_entry who p name s)
  unfolding add_entry
  add_entry-Held p long s h =
      let name = shorten 14 long in
      let Ok : FsRun (Option ℕ) → Type 0 = λ m. Ends keep s0 (m s) in
      by_test Ok (length name == 0) _ _ (λ e. h)
        λ e.
          by_test Ok (is_some_block (block_of s p 0)) _ _
            (λ e'. add_from-Held p name _ 0 s (omega arith) (omega arith) h) (λ e'. h)
