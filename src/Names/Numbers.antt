-- ===== src/Names/Numbers.antt =====
-- The number of an entry of linux-0.11/fs/namei.c, and find_entry of a plain name.
use learn_linux.Common.{
  ℕ, zero, suc, ◌+◌, ◌/◌, ◌%◌, ◌≤◌, ◌≡◌, ◌≢◌, refl, sym, ap, ◌∙◌, inl, inr, true, false, Option,
  none, some, List, [], ◌∷◌, length, arith, ◌==◌, ==_refl, ltb, by_test, Bool-cases, if◌then◌else◌,
  update,
}
use mathlib.Core.Path.{subst}
use learn_linux.Inodes.{DirEntry, Fs, Outcome, done, no_inodes, bad_put, stops, never_ends, no_fuel}
use learn_linux.Names.{
  Caller, same_bytes, is_match, shorten, name_len, search_dir, entry_at, is_dotdot, find_entry,
}
use learn_linux.Names.Adding.{or_zeros, block_of, byte_at, renumber, number_entry}
use learn_linux.Names.Entries.{Blocks, put_block, written}
use learn_linux.Names.Added.{new_entry, own_block}

-- The entry of a name has it, with a number of an inode that is not 0.
same_bytes-byte_at :
    (cs : List ℕ) (at : ℕ → ℕ) (i : ℕ)
    → ((j : ℕ) → at (i + j) ≡ byte_at cs j)
    → same_bytes cs at i ≡ true
unfolding same_bytes byte_at
same_bytes-byte_at [] at i h = refl
same_bytes-byte_at (c ∷ cs) at i h =
    let z : i ≡ i + 0 = omega arith in
    let first : (c == at i) ≡ true = ap (λ x. c == x) (ap at z ∙ h 0) ∙ ==_refl c in
    rw first (
      same_bytes-byte_at cs at (i + 1)
        λ j. let further : i + 1 + j ≡ i + suc j = omega arith in ap at further ∙ h (suc j))

byte_at-length : (cs : List ℕ) → byte_at cs (length cs) ≡ 0
unfolding byte_at
byte_at-length [] = refl
byte_at-length (c ∷ cs) = byte_at-length cs

pub is_match-new :
    (name : List ℕ) (nr : ℕ)
    → nr ≢ 0
    → length name ≤ 14
    → is_match name (record (new_entry name) { inode = nr }) ≡ true
unfolding is_match
is_match-new name nr ne short =
    let a : (nr == 0) ≡ false = ground arith in
    let b : ltb name_len (length name) ≡ false = ground arith in
    let c = byte_at-length name in
    let d = same_bytes-byte_at name (byte_at name) 0 (λ j. ap (byte_at name) (omega arith)) in
    elim (Bool-cases (ltb (length name) name_len)) [
      | inl shorter ↦ simp (a, b, c, d, shorter) refl
      | inr full ↦ simp (a, b, c, d, full) refl
    ]

pub length-shorten : (n : ℕ) (cs : List ℕ) → length (shorten n cs) ≤ n
unfolding shorten
length-shorten zero cs = omega arith
length-shorten (suc n) [] = omega arith
length-shorten (suc n) (c ∷ cs) = let ih = length-shorten n cs in omega arith

-- find_entry of a name that is not ..
abbrev pub plain_search : Caller → (p : ℕ) → (long : List ℕ) → Fs → Option ℕ
plain_search who p long s =
    let i = s.inode_table p in
    if length (shorten name_len long) == 0
    then none
    else search_dir (i.d.i_size / 16) (shorten name_len long) (s.block i.i_dev i.i_num)

pub find_entry-plain :
    (who : Caller) (p : ℕ) (long : List ℕ) (s : Fs)
    → is_dotdot (shorten name_len long) ≡ false
    → find_entry who p long s ≡ done (p, plain_search who p long s) s
unfolding find_entry
find_entry-plain who p long s plain = simp plain refl

abbrev entry_in : Blocks → (i : ℕ) → Option DirEntry
entry_in b i = elim (b (i / 64)) [ none ↦ none | some e ↦ some (e (i % 64)) ]

entry_in-written : (b : Blocks) (i : ℕ) (de : DirEntry) → entry_in (written b i de) i ≡ some de
entry_in-written b i de =
    let entry : Option (ℕ → DirEntry) → Option DirEntry =
      λ o. elim o [ none ↦ none | some e ↦ some (e (i % 64)) ] in
    by_test (λ o. entry o ≡ some de) (i / 64 == i / 64) _ (b (i / 64))
      (λ e. rw (==_refl (i % 64)) refl)
      (λ ne. let e = ==_refl (i / 64) in let no : ⊥ = ground arith in elim no [ ])

-- The number of an entry is written.
abbrev pub Numbered :
    (p dev num k nr : ℕ) (de : DirEntry) (b : Blocks) (s : Fs) → Outcome (Unit {0}) → Type 0
Numbered p dev num k nr de b s (done r s') =
    (s'.inode_table ≡ s.inode_table)
    × (s'.block dev num ≡ written (written b k de) k (record de { inode = nr }))
Numbered p dev num k nr de b s no_inodes = ⊥
Numbered p dev num k nr de b s bad_put = ⊥
Numbered p dev num k nr de b s stops = ⊥
Numbered p dev num k nr de b s never_ends = ⊥
Numbered p dev num k nr de b s no_fuel = ⊥

pub number_entry-Numbered :
    (p dev num k nr : ℕ) (de : DirEntry) (b : Blocks) (s : Fs)
    → (s.inode_table p).i_dev ≡ dev
    → (s.inode_table p).i_num ≡ num
    → s.block dev num ≡ written b k de
    → Numbered p dev num k nr de b s (number_entry p k nr s)
number_entry-Numbered p dev num k nr de b s e1 e2 eb =
    let i = s.inode_table p in
    let q = k / 64 in
    let own : s.block i.i_dev i.i_num ≡ written b k de =
      ap (λ d. s.block d i.i_num) e1 ∙ ap (λ n. s.block dev n) e2 ∙ eb in
    let at : entry_at s p k ≡ some de =
      ap (λ (b' : Blocks). entry_in b' k) own ∙ entry_in-written b k de in
    let de' : DirEntry = record de { inode = nr } in
    let new = update (or_zeros (block_of s p q)) (k % 64) de' in
    let stored =
      own_block s.block dev num _ _ q new e1 e2
      ∙ ap (λ (b' : Blocks). put_block b' q new) eb
      ∙ ap (λ (b' : Blocks). put_block (written b k de) q (update (or_zeros (b' q)) (k % 64) de'))
          own in
    subst (λ o. Numbered p dev num k nr de b s (renumber p k nr o s)) (sym at) (refl, stored)
