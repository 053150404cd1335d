-- ===== src/Names/Added.antt =====
-- Where add_entry of linux-0.11/fs/namei.c puts a name.
use learn_linux.Common.{
  ℕ, zero, suc, ◌+◌, ◌*◌, ◌/◌, ◌%◌, ◌≤◌, ◌<◌, ◌≡◌, ◌≢◌, refl, sym, ap, ◌∙◌, Bool, true, false, ◌&&◌,
  Option, none, some, List, arith, ◌==◌, ==_refl, leb, by_test, if◌then◌else◌, update,
}
use learn_linux.Inodes.{
  Inode, DirEntry, Fs, Outcome, done, no_inodes, bad_put, stops, never_ends, no_fuel, FsRun, pure,
  ◌>>=◌, ◌>>◌,
}
use learn_linux.Names.{Caller, is_some_block}
use learn_linux.Names.Adding.{
  zero_block, block_of, set_block, byte_at, grow, put_name, append_name, is_free_at, try_place,
  add_from,
}
use learn_linux.Names.Entries.{Blocks, has_name, put_block, written, has_name-zero_block}

abbrev pub new_entry : (name : List ℕ) → DirEntry
new_entry name = record { inode = 0; name = byte_at name }

-- What is written to the directory's blocks
pub own_block :
    (b : ℕ → ℕ → Blocks) (dev num d n q : ℕ) (e : ℕ → DirEntry)
    → d ≡ dev
    → n ≡ num
    → (λ at. if dev == d && (num == n && at == q) then some e else b dev num at)
      ≡ put_block (b dev num) q e
own_block b dev num d n q e e1 e2 = rw (e1, e2, ==_refl dev, ==_refl num) refl

-- The directory p, with the blocks b0 and its length `size` before, has the name in the entry k now,
-- without an inode. `before` are the blocks when the entry was written.
pub record Added (p dev num size : ℕ) (name : List ℕ) (b0 : Blocks) (k : ℕ) (s : Fs) : Type 0 where
  pub before : Blocks
  pub same_dev : (s.inode_table p).i_dev ≡ dev
  pub same_num : (s.inode_table p).i_num ≡ num
  pub near : k * 16 ≤ size
  pub reach : (j : ℕ) → j * 16 + 16 ≤ (s.inode_table p).d.i_size → j ≢ k → j * 16 + 16 ≤ size
  pub inside : k * 16 + 16 ≤ (s.inode_table p).d.i_size
  pub blocks_are : s.block dev num ≡ written before k (new_entry name)
  pub same_names : (nm : List ℕ) (j : ℕ) → has_name before nm j ≡ has_name b0 nm j
  pub first_there : is_some_block (before 0) ≡ true

module _ (who : Caller) (p dev num size : ℕ) (name : List ℕ) (b0 : Blocks)
    (whole : size % 16 ≡ 0) where
  abbrev pub AddedEnd : Outcome (Option ℕ) → Type 0
  AddedEnd (done none s) = Unit
  AddedEnd (done (some k) s) = Added p dev num size name b0 k s
  AddedEnd no_inodes = Unit
  AddedEnd bad_put = Unit
  AddedEnd stops = Unit
  AddedEnd never_ends = Unit
  AddedEnd no_fuel = Unit

  -- The directory in the state s, with no name more than at first
  abbrev Before : Fs → Type 0
  Before s =
      ((s.inode_table p).i_dev ≡ dev)
      × ((s.inode_table p).i_num ≡ num)
      × ((nm : List ℕ) (j : ℕ) → has_name (s.block dev num) nm j ≡ has_name b0 nm j)
      × (is_some_block (s.block dev num 0) ≡ true)

  put_name-Added :
      (i : ℕ) (s : Fs)
      → Before s
      → i * 16 ≤ size
      → i * 16 + 16 ≤ (s.inode_table p).d.i_size
      → ((j : ℕ) → j * 16 + 16 ≤ (s.inode_table p).d.i_size → j ≢ i → j * 16 + 16 ≤ size)
      → AddedEnd (put_name who p name i s)
  put_name-Added i s (e1, e2, same, first) near inside reach = record {
    before = s.block dev num;
    same_dev = rw (==_refl p) e1;
    same_num = rw (==_refl p) e2;
    near = near;
    reach = λ j le ne. reach j (rw (==_refl p) at le) ne;
    inside = rw (==_refl p) inside;
    blocks_are = rw (==_refl p, e1, e2, ==_refl dev, ==_refl num) refl;
    same_names = same;
    first_there = first;
  }

  append_name-Added :
      (i : ℕ) (s : Fs) → Before s → i * 16 ≤ size → AddedEnd (append_name who p name i s)
  append_name-Added i s (e1, e2, same, first) near =
      let new = record (grow who.now i (s.inode_table p)) { i_count = (s.inode_table p).i_count } in
      put_name-Added i (record s { inode_table = update s.inode_table p new })
        (rw (==_refl p) e1, rw (==_refl p) e2, same, first) near (rw (==_refl p) (omega arith))
        λ j le ne. let le' : j * 16 + 16 ≤ (i + 1) * 16 = rw (==_refl p) at le in ground arith

  try_place-Added :
      (i : ℕ) (next : FsRun (Option ℕ)) (there : Bool) (s : Fs)
      → Before s
      → (s.inode_table p).d.i_size ≡ size
      → i * 16 ≤ size
      → ((i + 1) * 16 ≤ size → AddedEnd (next s))
      → AddedEnd (try_place who p name i next there s)
  try_place-Added i next false s b e near goes = tt
  try_place-Added i next true s b e near goes =
      let Ok : FsRun (Option ℕ) → Type 0 = λ m. AddedEnd (m s) in
      by_test Ok (leb (s.inode_table p).d.i_size (i * 16)) _ _ (λ at. append_name-Added i s b near)
        λ at.
          let low : i * 16 < size = ground arith in
          let fits : i * 16 + 16 ≤ size = omega arith in
          by_test Ok (is_free_at s p i) _ next
            (λ f. put_name-Added i s b near (rw e fits) λ j le ne. rw e at le)
            (λ f. goes (omega arith))

  -- The zeros of a new block are no names.
  created-Before :
      (q : ℕ) (s s' : Fs)
      → s'.inode_table ≡ s.inode_table
      → s'.block dev num ≡ put_block (s.block dev num) q zero_block
      → is_some_block (s.block dev num q) ≡ false
      → Before s
      → Before s'
  created-Before q s s' t e missing (e1, e2, same, first) = (
    ap (λ (x : ℕ → Inode). (x p).i_dev) t ∙ e1,
    ap (λ (x : ℕ → Inode). (x p).i_num) t ∙ e2,
    (λ nm j.
        ap (λ (b : Blocks). has_name b nm j) e
        ∙ has_name-zero_block (s.block dev num) q nm j missing
        ∙ same nm j),
    ap (λ (b : Blocks). is_some_block (b 0)) e
        ∙ by_test (λ o. is_some_block o ≡ true) (0 == q) _ (s.block dev num 0) (λ z. refl)
            (λ z. first),
  )

  abbrev zeroed : Fs → (q : ℕ) → Fs
  zeroed s q = record s {
    block = λ dev' num' at.
        if dev' == (s.inode_table p).i_dev && (num' == (s.inode_table p).i_num && at == q)
        then some zero_block
        else s.block dev' num' at;
  }

  zeroed-Before :
      (q : ℕ) (s : Fs) → Before s → is_some_block (block_of s p q) ≡ false → Before (zeroed s q)
  zeroed-Before q s b missing =
      let (e1, e2, same, first) = b in
      let same_block : is_some_block (s.block dev num q) ≡ is_some_block (block_of s p q) =
        ap (λ d. is_some_block (s.block d num q)) (sym e1)
        ∙ ap (λ n. is_some_block (s.block (s.inode_table p).i_dev n q)) (sym e2) in
      created-Before q s (zeroed s q) refl (own_block s.block dev num _ _ q zero_block e1 e2)
        (same_block ∙ missing) b

  pub add_from-Added :
      (fuel i : ℕ) (s : Fs)
      → Before s
      → (s.inode_table p).d.i_size ≡ size
      → i * 16 ≤ size
      → AddedEnd (add_from who p name fuel i s)
  unfolding add_from
  add_from-Added zero i s b e near = tt
  add_from-Added (suc fuel) i s b e near =
      let q = i / 64 in
      let again = add_from who p name fuel (i + 1) in
      let next : Bool → FsRun (Option ℕ) = λ there. try_place who p name i again there in
      let Ok : FsRun Bool → Type 0 = λ m. AddedEnd ((m >>= next) s) in
      let d = s.inode_table p in
      by_test Ok (is_some_block (block_of s p q)) _ _
        (λ there.
          try_place-Added i again true s b e near λ more. add_from-Added fuel (i + 1) s b e more)
        λ missing.
          by_test Ok (s.room d.i_dev d.i_num q) (set_block p q zero_block >> pure true) _
            (λ room.
              let s' = zeroed s q in
              let b' = zeroed-Before q s b missing in
              try_place-Added i again true s' b' e near
                λ more. add_from-Added fuel (i + 1) s' b' e more)
            (λ full. tt)
