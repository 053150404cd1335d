-- ===== src/Names/Entries.antt =====
-- The entries of a directory of linux-0.11/fs/namei.c, block by block.
use learn_linux.Common.{
  ℕ, zero, suc, ◌+◌, ◌/◌, ◌%◌, ◌≤◌, ◌<◌, ◌≡◌, ◌≢◌, refl, sym, ap, ◌∙◌, inl, inr, Bool, true, false,
  Option, none, some, List, arith, ◌==◌, ==_refl, leb, ltb, by_test, Bool-cases, if◌then◌else◌,
  update,
}
use learn_linux.Inodes.{DirEntry}
use learn_linux.Names.{is_match, search_entries, is_some_block}
use learn_linux.Names.Adding.{zero_block, or_zeros}

abbrev pub Blocks : Type 0
Blocks = ℕ → Option (ℕ → DirEntry)

abbrev pub in_block : Option (ℕ → DirEntry) → (name : List ℕ) → (at : ℕ) → Bool
in_block o name at = elim o [ none ↦ false | some e ↦ is_match name (e at) ]

-- Has the entry j the name?
abbrev pub has_name : Blocks → (name : List ℕ) → (j : ℕ) → Bool
has_name b name j = in_block (b (j / 64)) name (j % 64)

abbrev pub put_block : Blocks → (q : ℕ) → (ℕ → DirEntry) → Blocks
put_block b q e at = if at == q then some e else b at

-- An entry is written.
abbrev pub written : Blocks → (i : ℕ) → DirEntry → Blocks
written b i de = put_block b (i / 64) (update (or_zeros (b (i / 64))) (i % 64) de)

-- A search is at the start of a block, or in a block that is there.
abbrev pub AtBlock : Blocks → (i : ℕ) → Type 0
AtBlock b i = is_some_block (b (i / 64)) ≡ false → i % 64 ≡ 0

-- Where a search goes on after the place i
abbrev next_place : Option (ℕ → DirEntry) → (i : ℕ) → ℕ
next_place o i = elim o [ none ↦ i + 64 | some e ↦ i + 1 ]

next_place-AtBlock :
    (b : Blocks) (i : ℕ) (o : Option (ℕ → DirEntry))
    → b (i / 64) ≡ o
    → AtBlock b i
    → AtBlock b (next_place o i)
next_place-AtBlock b i none e at new = let start = at (rw e refl) in omega arith
next_place-AtBlock b i (some de) e at new = elim (Bool-cases ((i + 1) / 64 == i / 64)) [
  | inl same ↦
      let q : (i + 1) / 64 ≡ i / 64 = ground arith in
      let there : is_some_block (b ((i + 1) / 64)) ≡ true = rw (q, e) refl in
      let no : ⊥ = ground arith in elim no [ ]
  | inr apart ↦ let q : (i + 1) / 64 ≢ i / 64 = ground arith in omega arith
]

-- It passes over nothing that is there.
passed :
    (b : Blocks) (name : List ℕ) (i j : ℕ) (o : Option (ℕ → DirEntry))
    → b (i / 64) ≡ o
    → AtBlock b i
    → i < j
    → j < next_place o i
    → has_name b name j ≡ false
passed b name i j none e at lt le =
    let start = at (rw e refl) in
    let q : j / 64 ≡ i / 64 = omega arith in
    ap (λ at. in_block (b at) name (j % 64)) q ∙ ap (λ o. in_block o name (j % 64)) e
passed b name i j (some de) e at lt le = let no : ⊥ = omega arith in elim no [ ]

next_place_larger : (o : Option (ℕ → DirEntry)) (i : ℕ) → i < next_place o i
next_place_larger none i = omega arith
next_place_larger (some e) i = omega arith

below_hit :
    (b : Blocks) (name : List ℕ) (i k : ℕ)
    → i ≤ k
    → has_name b name k ≡ true
    → has_name b name i ≡ false
    → i < k
below_hit b name i k le here miss = elim (Bool-cases (i == k)) [
  | inl same ↦
      let e : i ≡ k = ground arith in
      let here' : has_name b name i ≡ true = ap (has_name b name) e ∙ here in
      let no : ⊥ = ground arith in elim no [ ]
  | inr apart ↦ ground arith
]

no_pass :
    (b : Blocks) (name : List ℕ) (i k : ℕ)
    → has_name b name k ≡ true
    → i < k
    → AtBlock b i
    → next_place (b (i / 64)) i ≤ k
no_pass b name i k here lt at = elim (Bool-cases (ltb k (next_place (b (i / 64)) i))) [
  | inl over ↦
      let miss = passed b name i k (b (i / 64)) refl at lt (ground arith) in
      let no : ⊥ = ground arith in elim no [ ]
  | inr fits ↦ ground arith
]

-- A search finds the first entry with the name.
pub search_entries-first :
    (b : Blocks) (name : List ℕ) (entries k : ℕ)
    → ((j : ℕ) → j < k → has_name b name j ≡ false)
    → has_name b name k ≡ true
    → k < entries
    → (n i : ℕ) → i ≤ k
    → entries ≤ i + n
    → AtBlock b i
    → search_entries b name entries n i ≡ some k
unfolding search_entries
search_entries-first b name entries k before here inside zero i le enough at =
    let no : ⊥ = omega arith in elim no [ ]
search_entries-first b name entries k before here inside (suc n) i le enough at =
    let Found : Option ℕ → Type 0 = λ x. x ≡ some k in
    by_test Found (leb entries i) none _ (λ full. let no : ⊥ = ground arith in elim no [ ])
      λ more.
        by_test Found (has_name b name i) (some i) _
          (λ hit. elim (Bool-cases (i == k)) [
            | inl same ↦ let e : i ≡ k = ground arith in ap some e
            | inr apart ↦
                let no_hit = before i (ground arith) in let no : ⊥ = ground arith in elim no [ ]
          ])
          λ miss.
            let nx = next_place (b (i / 64)) i in
            let lt : i < k = below_hit b name i k le here miss in
            let further = next_place_larger (b (i / 64)) i in
            let le' : nx ≤ k = no_pass b name i k here lt at in
            search_entries-first b name entries k before here inside n nx le' (omega arith)
              (next_place-AtBlock b i (b (i / 64)) refl at)

none_from :
    (b : Blocks) (name : List ℕ) (entries n i j : ℕ)
    → i ≤ j
    → has_name b name i ≡ false
    → AtBlock b i
    → search_entries b name entries n (next_place (b (i / 64)) i) ≡ none
    → j < entries
    → (entries ≤ next_place (b (i / 64)) i + n
        → AtBlock b (next_place (b (i / 64)) i)
        → search_entries b name entries n (next_place (b (i / 64)) i) ≡ none
        → (j : ℕ) → next_place (b (i / 64)) i ≤ j
        → j < entries
        → has_name b name j ≡ false)
    → entries ≤ i + suc n
    → has_name b name j ≡ false
none_from b name entries n i j le miss at none_there lt further enough =
    let nx = next_place (b (i / 64)) i in
    let larger = next_place_larger (b (i / 64)) i in
    elim (Bool-cases (i == j)) [
      | inl same ↦ let e : i ≡ j = ground arith in ap (has_name b name) (sym e) ∙ miss
      | inr apart ↦ elim (Bool-cases (ltb j nx)) [
        | inl over ↦ passed b name i j (b (i / 64)) refl at (ground arith) (ground arith)
        | inr after ↦
            further (omega arith) (next_place-AtBlock b i (b (i / 64)) refl at) none_there j
              (ground arith) lt
      ]
    ]

pub search_entries-none :
    (b : Blocks) (name : List ℕ) (entries n i : ℕ)
    → entries ≤ i + n
    → AtBlock b i
    → search_entries b name entries n i ≡ none
    → (j : ℕ) → i ≤ j
    → j < entries
    → has_name b name j ≡ false
unfolding search_entries
search_entries-none b name entries zero i enough at found j le lt =
    let no : ⊥ = omega arith in elim no [ ]
search_entries-none b name entries (suc n) i enough at found j le lt =
    let Missed : Option ℕ → Type 0 = λ x. x ≡ none → has_name b name j ≡ false in
    by_test Missed (leb entries i) none _ (λ full e. let no : ⊥ = ground arith in elim no [ ])
      (λ more.
        by_test Missed (has_name b name i) (some i) _ (λ hit e. cc)
          (λ miss e.
            none_from b name entries n i j le miss at e lt
              (search_entries-none b name entries n (next_place (b (i / 64)) i)) enough))
      found

or_zeros_name :
    (o : Option (ℕ → DirEntry)) (name : List ℕ) (at : ℕ)
    → is_match name (or_zeros o at) ≡ in_block o name at
unfolding is_match
or_zeros_name none name at = refl
or_zeros_name (some e) name at = refl

-- A written entry, and the others
pub has_name-written_other :
    (b : Blocks) (i : ℕ) (de : DirEntry) (name : List ℕ) (j : ℕ)
    → (i == j) ≡ false
    → has_name (written b i de) name j ≡ has_name b name j
has_name-written_other b i de name j ne =
    let Same : Option (ℕ → DirEntry) → Type 0 = λ o. in_block o name (j % 64) ≡ has_name b name j in
    by_test Same (j / 64 == i / 64) _ _
      (λ same.
        let q : j / 64 ≡ i / 64 = ground arith in
        let r : (i % 64 == j % 64) ≡ false = ground arith in
        rw r (
          or_zeros_name (b (i / 64)) name (j % 64)
          ∙ ap (λ at. in_block (b at) name (j % 64)) (sym q)))
      (λ apart. refl)

pub has_name-written :
    (b : Blocks) (i : ℕ) (de : DirEntry) (name : List ℕ)
    → has_name (written b i de) name i ≡ is_match name de
has_name-written b i de name =
    by_test (λ o. in_block o name (i % 64) ≡ is_match name de) (i / 64 == i / 64) _ (b (i / 64))
      (λ e. rw (==_refl (i % 64)) refl)
      (λ ne. let e = ==_refl (i / 64) in let no : ⊥ = ground arith in elim no [ ])

no_block :
    (o : Option (ℕ → DirEntry)) (name : List ℕ) (at : ℕ)
    → is_some_block o ≡ false
    → in_block o name at ≡ false
no_block none name at e = refl
no_block (some b) name at e = cc

-- A cleared block in the place of a missing one has no names.
pub has_name-zero_block :
    (b : Blocks) (q : ℕ) (name : List ℕ) (j : ℕ)
    → is_some_block (b q) ≡ false
    → has_name (put_block b q zero_block) name j ≡ has_name b name j
unfolding is_match
has_name-zero_block b q name j missing =
    by_test (λ o. in_block o name (j % 64) ≡ has_name b name j) (j / 64 == q) _ (b (j / 64))
      (λ same.
        let e : j / 64 ≡ q = ground arith in
        sym (ap (λ at. in_block (b at) name (j % 64)) e ∙ no_block (b q) name (j % 64) missing))
      (λ apart. refl)
