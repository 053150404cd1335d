-- ===== src/Names/Twins.antt =====
-- The names of a directory of linux-0.11/fs/namei.c differ, and add_entry keeps them so.
use learn_linux.Common.{
  ℕ, zero, suc, ◌+◌, ◌/◌, ◌%◌, ◌≤◌, ◌<◌, ◌≡◌, ◌≢◌, refl, sym, ap, ◌∙◌, inl, inr, Bool, true, false,
  not, ◌&&◌, ◌||◌, none, some, List, [], ◌∷◌, length, arith, ◌==◌, ltb, by_test, Bool-cases,
}
use learn_linux.Inodes.{Inode, Fs, Outcome, done, no_inodes, bad_put, stops, never_ends, no_fuel}
use learn_linux.Names.{Caller, same_bytes, is_match, shorten, name_len, is_dotdot, find_entry}
use learn_linux.Names.Adding.{block_of, byte_at, add_entry, number_entry}
use learn_linux.Names.Entries.{Blocks, has_name, written, has_name-written_other, has_name-written}
use learn_linux.Names.Added.{new_entry, Added}
use learn_linux.Names.Numbers.{length-shorten, Numbered, number_entry-Numbered}
use learn_linux.Names.Found.{with_added}

-- A string has no byte 0 before its end.
unfoldable pub is_text : List ℕ → Bool
is_text [] = true
is_text (c ∷ cs) = not (c == 0) && is_text cs

-- No two of the entries have the same name.
abbrev pub NoTwins : Blocks → (entries : ℕ) → Type 0
NoTwins b entries =
    (name : List ℕ) (j k : ℕ)
    → is_text name ≡ true
    → j < entries
    → k < entries
    → has_name b name j ≡ true
    → has_name b name k ≡ true
    → j ≡ k

abbrev pub NamesDiffer : (p : ℕ) → Fs → Type 0
NamesDiffer p s = NoTwins (block_of s p) ((s.inode_table p).d.i_size / 16)

abbrev pub DifferEnd : (p : ℕ) → Outcome (Unit {0}) → Type 0
DifferEnd p (done r s) = NamesDiffer p s
DifferEnd p no_inodes = ⊥
DifferEnd p bad_put = ⊥
DifferEnd p stops = ⊥
DifferEnd p never_ends = ⊥
DifferEnd p no_fuel = ⊥

both_true : (a b : Bool) → (a && b) ≡ true → (a ≡ true) × (b ≡ true)
both_true true b e = (refl, e)
both_true false b e = cc

is_text-shorten : (n : ℕ) (cs : List ℕ) → is_text cs ≡ true → is_text (shorten n cs) ≡ true
unfolding is_text shorten
is_text-shorten zero cs e = refl
is_text-shorten (suc n) [] e = refl
is_text-shorten (suc n) (c ∷ cs) e =
    let (h, t) = both_true (not (c == 0)) (is_text cs) e in rw h (is_text-shorten n cs t)

byte_at-past : (cs : List ℕ) (j : ℕ) → length cs ≤ j → byte_at cs j ≡ 0
unfolding byte_at
byte_at-past [] j le = refl
byte_at-past (c ∷ cs) zero le = let no : ⊥ = omega arith in elim no [ ]
byte_at-past (c ∷ cs) (suc j) le = byte_at-past cs j (omega arith)

-- Two strings with the same bytes up to the end of the first, where the second ends too
same_text :
    (nm cs : List ℕ) (at : ℕ → ℕ) (i : ℕ)
    → ((j : ℕ) → at (i + j) ≡ byte_at cs j)
    → same_bytes nm at i ≡ true
    → byte_at cs (length nm) ≡ 0
    → is_text nm ≡ true
    → is_text cs ≡ true
    → nm ≡ cs
unfolding is_text same_bytes byte_at
same_text [] [] at i h same end t1 t2 = refl
same_text [] (d ∷ ds) at i h same end t1 t2 =
    let (no_end, rest) = both_true (not (d == 0)) (is_text ds) t2 in
    let no : ⊥ = ground arith in elim no [ ]
same_text (c ∷ cs) [] at i h same end t1 t2 =
    let (no_end, rest) = both_true (not (c == 0)) (is_text cs) t1 in
    let (here, later) = both_true (c == at i) (same_bytes cs at (i + 1)) same in
    let z : i ≡ i + 0 = omega arith in
    let first : at i ≡ 0 = ap at z ∙ h 0 in let no : ⊥ = ground arith in elim no [ ]
same_text (c ∷ cs) (d ∷ ds) at i h same end t1 t2 =
    let (no_end1, rest1) = both_true (not (c == 0)) (is_text cs) t1 in
    let (no_end2, rest2) = both_true (not (d == 0)) (is_text ds) t2 in
    let (here, later) = both_true (c == at i) (same_bytes cs at (i + 1)) same in
    let z : i ≡ i + 0 = omega arith in
    let first : at i ≡ d = ap at z ∙ h 0 in
    let same_first : c ≡ d = ground arith in
    let tail =
      same_text cs ds at (i + 1)
        (λ j. let further : i + 1 + j ≡ i + suc j = omega arith in ap at further ∙ h (suc j)) later
        end rest1 rest2 in
    ap (λ x. x ∷ cs) same_first ∙ ap (λ x. d ∷ x) tail

is_match-same :
    (nm name : List ℕ) (nr : ℕ)
    → is_match nm (record (new_entry name) { inode = nr }) ≡ true
    → length name ≤ 14
    → is_text nm ≡ true
    → is_text name ≡ true
    → nm ≡ name
unfolding is_match
is_match-same nm name nr e short t1 t2 =
    let Same : Bool → Type 0 = λ b. b ≡ true → nm ≡ name in
    by_test Same (nr == 0 || ltb name_len (length nm)) false _ (λ no h. cc)
      (λ real.
        by_test Same (ltb (length nm) name_len && not (byte_at name (length nm) == 0)) false _
          (λ no h. cc)
          (λ ended same.
            let end : byte_at name (length nm) ≡ 0 = elim (Bool-cases (ltb (length nm) name_len)) [
              | inl shorter ↦ ground arith
              | inr full ↦ byte_at-past name (length nm) (ground arith)
            ] in
            same_text nm name (byte_at name) 0 (λ j. ap (byte_at name) (omega arith)) same end t1
              t2))
      e

module _ (p dev num size k nr : ℕ) (name : List ℕ) (b0 : Blocks) (s1 : Fs)
    (short : length name ≤ 14) (text : is_text name ≡ true) (whole : size % 16 ≡ 0)
    (unknown : (j : ℕ) → j < size / 16 → has_name b0 name j ≡ false)
    (differ : NoTwins b0 (size / 16)) (added : Added p dev num size name b0 k s1) where
  abbrev blocks : Blocks
  blocks =
      written (written added.before k (new_entry name)) k (record (new_entry name) { inode = nr })

  other_names : (nm : List ℕ) (j : ℕ) → (k == j) ≡ false → has_name blocks nm j ≡ has_name b0 nm j
  other_names nm j ne =
      has_name-written_other (written added.before k (new_entry name)) k _ nm j ne
      ∙ has_name-written_other added.before k _ nm j ne
      ∙ added.same_names nm j

  was_there : (j : ℕ) → (k == j) ≡ false → j < (s1.inode_table p).d.i_size / 16 → j < size / 16
  was_there j ne lt =
      let ne' : j ≢ k = λ e. let no : ⊥ = ground arith in no in
      let within = added.reach j (omega arith) ne' in omega arith

  -- The new name is nowhere else.
  alone :
      (nm : List ℕ) (j : ℕ)
      → is_text nm ≡ true
      → (k == j) ≡ false
      → j < (s1.inode_table p).d.i_size / 16
      → has_name blocks nm k ≡ true
      → has_name blocks nm j ≡ true
      → ⊥
  alone nm j t ne lt at_k at_j =
      let new : is_match nm (record (new_entry name) { inode = nr }) ≡ true =
        sym (
          has_name-written (written added.before k (new_entry name)) k
            (record (new_entry name) { inode = nr }) nm)
        ∙ at_k in
      let same : nm ≡ name = is_match-same nm name nr new short t text in
      let there : has_name b0 name j ≡ true =
        ap (λ x. has_name b0 x j) (sym same) ∙ sym (other_names nm j ne) ∙ at_j in
      let not_there = unknown j (was_there j ne lt) in let no : ⊥ = ground arith in no

  blocks-NoTwins : NoTwins blocks ((s1.inode_table p).d.i_size / 16)
  blocks-NoTwins nm j1 j2 t lt1 lt2 h1 h2 = elim (Bool-cases (k == j1)) [
    | inl e1 ↦ elim (Bool-cases (k == j2)) [
      | inl e2 ↦ ground arith
      | inr ne2 ↦
          let same : k ≡ j1 = ground arith in
          let no = alone nm j2 t ne2 lt2 (ap (has_name blocks nm) same ∙ h1) h2 in elim no [ ]
    ]
    | inr ne1 ↦ elim (Bool-cases (k == j2)) [
      | inl e2 ↦
          let same : k ≡ j2 = ground arith in
          let no = alone nm j1 t ne1 lt1 (ap (has_name blocks nm) same ∙ h2) h1 in elim no [ ]
      | inr ne2 ↦
          differ nm j1 j2 t (was_there j1 ne1 lt1) (was_there j2 ne2 lt2)
            (sym (other_names nm j1 ne1) ∙ h1) (sym (other_names nm j2 ne2) ∙ h2)
    ]
  ]

  after_number-DifferEnd :
      (o : Outcome (Unit {0}))
      → Numbered p dev num k nr (new_entry name) added.before s1 o
      → DifferEnd p o
  after_number-DifferEnd (done r s) (t, eb) =
      let e1 : (s.inode_table p).i_dev ≡ dev =
        ap (λ (x : ℕ → Inode). (x p).i_dev) t ∙ added.same_dev in
      let e2 : (s.inode_table p).i_num ≡ num =
        ap (λ (x : ℕ → Inode). (x p).i_num) t ∙ added.same_num in
      let e3 : (s.inode_table p).d.i_size ≡ (s1.inode_table p).d.i_size =
        ap (λ (x : ℕ → Inode). (x p).d.i_size) t in
      let own : block_of s p ≡ blocks =
        ap (λ d. s.block d (s.inode_table p).i_num) e1 ∙ ap (λ n. s.block dev n) e2 ∙ eb in
      λ nm j1 j2 text' lt1 lt2 h1 h2.
        blocks-NoTwins nm j1 j2 text' (rw e3 at lt1) (rw e3 at lt2)
          (ap (λ (b : Blocks). has_name b nm j1) (sym own) ∙ h1)
          (ap (λ (b : Blocks). has_name b nm j2) (sym own) ∙ h2)
  after_number-DifferEnd no_inodes n = n
  after_number-DifferEnd bad_put n = n
  after_number-DifferEnd stops n = n
  after_number-DifferEnd never_ends n = n
  after_number-DifferEnd no_fuel n = n

-- In a directory whose length is a multiple of 16 and in which no two entries have the same name: if
-- find_entry does not find a string other than .. there, add_entry gives the place k for it, and a
-- number is written there, then again no two entries of the directory, which may be longer by one
-- now, have the same name; the string counts with its first 14 bytes.
pub number_entry-DifferEnd :
    (who : Caller) (p : ℕ) (long : List ℕ) (nr k : ℕ) (s s1 : Fs)
    → is_text long ≡ true
    → is_dotdot (shorten name_len long) ≡ false
    → (s.inode_table p).d.i_size % 16 ≡ 0
    → NamesDiffer p s
    → find_entry who p long s ≡ done (p, none) s
    → add_entry who p long s ≡ done (some k) s1
    → DifferEnd p (number_entry p k nr s1)
number_entry-DifferEnd who p long nr k s s1 text plain whole differ unknown made =
    let i = s.inode_table p in
    let name = shorten name_len long in
    with_added who p long k s s1 plain whole unknown made λ named missing added.
      after_number-DifferEnd p i.i_dev i.i_num i.d.i_size k nr name (block_of s p) s1
        (length-shorten 14 long) (is_text-shorten 14 long text) whole missing differ added
        (number_entry p k nr s1)
        (number_entry-Numbered p i.i_dev i.i_num k nr (new_entry name) added.before s1
          added.same_dev added.same_num added.blocks_are)
