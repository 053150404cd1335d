-- ===== src/Names/Found.antt =====
-- add_entry of linux-0.11/fs/namei.c, and find_entry after it.
use learn_linux.Common.{
  ℕ, ◌+◌, ◌/◌, ◌%◌, ◌<◌, ◌≡◌, ◌≢◌, refl, sym, ap, ◌∙◌, true, false, Option, none, some, List,
  length, arith, ◌==◌, by_test,
}
use mathlib.Core.Path.{subst}
use learn_linux.Inodes.{
  Inode, DirEntry, Fs, Outcome, done, no_inodes, bad_put, stops, never_ends, no_fuel, FsRun, ◌>>◌,
}
use learn_linux.Names.{
  Caller, shorten, name_len, search_entries, search_dir, is_some_block, is_dotdot, find_entry,
}
use learn_linux.Names.Adding.{block_of, add_entry, number_entry}
use learn_linux.Names.Entries.{
  Blocks, has_name, written, search_entries-first, search_entries-none, has_name-written_other,
  has_name-written,
}
use learn_linux.Names.Added.{new_entry, Added, AddedEnd, add_from-Added}
use learn_linux.Names.Numbers.{
  is_match-new, length-shorten, plain_search, find_entry-plain, Numbered, number_entry-Numbered,
}

-- The entry k of the directory p is found.
abbrev pub FindsAt : (p k : ℕ) → Outcome (ℕ × Option ℕ) → Type 0
FindsAt p k (done (d, o) s) = (d ≡ p) × (o ≡ some k)
FindsAt p k no_inodes = ⊥
FindsAt p k bad_put = ⊥
FindsAt p k stops = ⊥
FindsAt p k never_ends = ⊥
FindsAt p k no_fuel = ⊥

module _ (who : Caller) (p dev num size k nr : ℕ) (long : List ℕ) (b0 : Blocks) (s1 : Fs)
    (plain : is_dotdot (shorten name_len long) ≡ false)
    (named : (length (shorten name_len long) == 0) ≡ false) (numbered : nr ≢ 0)
    (unknown : (j : ℕ) → j < size / 16 → has_name b0 (shorten name_len long) j ≡ false)
    (added : Added p dev num size (shorten name_len long) b0 k s1) where
  abbrev name : List ℕ
  name = shorten name_len long

  abbrev first_blocks : Blocks
  first_blocks = written added.before k (new_entry name)

  abbrev blocks : Blocks
  blocks = written first_blocks k (record (new_entry name) { inode = nr })

  no_name_before : (j : ℕ) → j < k → has_name blocks name j ≡ false
  no_name_before j lt =
      let ne : (k == j) ≡ false = ground arith in
      let near = added.near in
      has_name-written_other first_blocks k _ name j ne
      ∙ has_name-written_other added.before k _ name j ne
      ∙ added.same_names name j
      ∙ unknown j (omega arith)

  name_at : has_name blocks name k ≡ true
  name_at =
      has_name-written first_blocks k (record (new_entry name) { inode = nr }) name
      ∙ is_match-new name nr numbered (length-shorten 14 long)

  first_block_there : is_some_block (blocks 0) ≡ true
  first_block_there =
      let There : Option (ℕ → DirEntry) → Type 0 = λ o. is_some_block o ≡ true in
      by_test There (0 == k / 64) _ _ (λ e. refl)
        λ ne. by_test There (0 == k / 64) _ _ (λ e. refl) λ ne'. added.first_there

  search_dir-at : (entries : ℕ) → k < entries → search_dir entries name blocks ≡ some k
  search_dir-at entries inside = rw first_block_there (
      search_entries-first blocks name entries k no_name_before name_at inside entries 0
        (omega arith) (omega arith) (λ e. refl))

  plain_search-at :
      (s : Fs)
      → s.inode_table ≡ s1.inode_table
      → s.block dev num ≡ blocks
      → plain_search who p long s ≡ some k
  plain_search-at s t eb =
      let i = s.inode_table p in
      let e1 : i.i_dev ≡ dev = ap (λ (x : ℕ → Inode). (x p).i_dev) t ∙ added.same_dev in
      let e2 : i.i_num ≡ num = ap (λ (x : ℕ → Inode). (x p).i_num) t ∙ added.same_num in
      let e3 : i.d.i_size ≡ (s1.inode_table p).d.i_size =
        ap (λ (x : ℕ → Inode). (x p).d.i_size) t in
      let inside = added.inside in
      let same : s.block i.i_dev i.i_num ≡ blocks =
        ap (λ d. s.block d i.i_num) e1 ∙ ap (λ n. s.block dev n) e2 ∙ eb in
      rw named (
        ap (λ (b : Blocks). search_dir (i.d.i_size / 16) name b) same
        ∙ search_dir-at (i.d.i_size / 16) (omega arith))

  after_number-FindsAt :
      (o : Outcome (Unit {0}))
      → Numbered p dev num k nr (new_entry name) added.before s1 o
      → FindsAt p k (((λ _. o) >> find_entry who p long) s1)
  after_number-FindsAt (done r s) (t, eb) =
      subst (FindsAt p k) (sym (find_entry-plain who p long s plain)) (refl, plain_search-at s t eb)
  after_number-FindsAt no_inodes n = n
  after_number-FindsAt bad_put n = n
  after_number-FindsAt stops n = n
  after_number-FindsAt never_ends n = n
  after_number-FindsAt no_fuel n = n

  found_again : FindsAt p k ((number_entry p k nr >> find_entry who p long) s1)
  found_again = after_number-FindsAt (number_entry p k nr s1) (
      number_entry-Numbered p dev num k nr (new_entry name) added.before s1 added.same_dev
        added.same_num added.blocks_are)

abbrev found_in : Outcome (ℕ × Option ℕ) → Option ℕ
found_in o = elim o [
  | done (d, x) s ↦ x
  | no_inodes ↦ none
  | bad_put ↦ none
  | stops ↦ none
  | never_ends ↦ none
  | no_fuel ↦ none
]

-- What is known of a directory in which a name was not found, and has been added
pub with_added :
    {P : Type 0} (who : Caller) (p : ℕ) (long : List ℕ) (k : ℕ) (s s1 : Fs)
    → is_dotdot (shorten name_len long) ≡ false
    → (s.inode_table p).d.i_size % 16 ≡ 0
    → find_entry who p long s ≡ done (p, none) s
    → add_entry who p long s ≡ done (some k) s1
    → ((length (shorten name_len long) == 0) ≡ false
        → ((j : ℕ)
            → j < (s.inode_table p).d.i_size / 16
            → has_name (block_of s p) (shorten name_len long) j ≡ false)
        → Added p
            (s.inode_table p).i_dev
            (s.inode_table p).i_num
            (s.inode_table p).d.i_size
            (shorten name_len long)
            (block_of s p)
            k
            s1
        → P)
    → P
unfolding add_entry
with_added {P = P} who p long k s s1 plain whole unknown made goes =
    let i = s.inode_table p in
    let b0 = s.block i.i_dev i.i_num in
    let name = shorten name_len long in
    let Made : FsRun (Option ℕ) → Type 0 = λ m. m s ≡ done (some k) s1 → P in
    let no_name : plain_search who p long s ≡ none =
      ap found_in (sym (find_entry-plain who p long s plain) ∙ unknown) in
    by_test Made (length name == 0) _ _ (λ e h. cc)
      (λ named.
        by_test Made (is_some_block (block_of s p 0)) _ _
          (λ there h.
            let a =
              add_from-Added who p i.i_dev i.i_num i.d.i_size name b0 whole (i.d.i_size / 16 + 2) 0
                s (refl, refl, (λ nm j. refl), there) refl (omega arith) in
            let added : Added p i.i_dev i.i_num i.d.i_size name b0 k s1 =
              subst (AddedEnd who p i.i_dev i.i_num i.d.i_size name b0 whole) h a in
            let entries = i.d.i_size / 16 in
            let none_there : search_entries b0 name entries entries 0 ≡ none =
              rw (named, there) at no_name in
            goes named
              (λ j lt.
                search_entries-none b0 name entries entries 0 (omega arith) (λ e. refl) none_there j
                  (omega arith) lt)
              added)
          (λ missing h. cc))
      made

-- If find_entry does not find a name, other than .., in a directory whose length is a multiple of
-- 16, and add_entry then gives the place k for the name, then once the number of an inode that is
-- not 0 is written there, find_entry finds the name at the place k, in the same directory: no entry
-- before k has the name, whichever blocks add_entry has made or passed over.
pub add_entry-find_entry :
    (who : Caller) (p : ℕ) (long : List ℕ) (nr k : ℕ) (s s1 : Fs)
    → is_dotdot (shorten name_len long) ≡ false
    → (s.inode_table p).d.i_size % 16 ≡ 0
    → nr ≢ 0
    → find_entry who p long s ≡ done (p, none) s
    → add_entry who p long s ≡ done (some k) s1
    → FindsAt p k ((number_entry p k nr >> find_entry who p long) s1)
add_entry-find_entry who p long nr k s s1 plain whole numbered unknown made =
    let i = s.inode_table p in
    with_added who p long k s s1 plain whole unknown made λ named missing added.
      found_again who p i.i_dev i.i_num i.d.i_size k nr long (block_of s p) s1 plain named numbered
        missing added
