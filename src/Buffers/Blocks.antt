-- ===== src/Buffers/Blocks.antt =====
-- A block has one buffer.
use learn_linux.Common.{
  ℕ, ◌<◌, ◌≡◌, refl, sym, ap, ◌∙◌, ◌≢◌, inl, inr, true, false, none, List, [], ◌∷◌, ◌++◌, arith,
  ◌==◌, ==_refl, Bool-cases, update,
}
use learn_linux.Buffers.{
  Cache, hash_fn, remove, remove_from_queues, insert_into_queues, is_block, find_buffer, fresh,
  take_buffer,
}
use learn_linux.Buffers.Lookup.{has, has-remove, has-append, find_in-none}

-- Every buffer that has a device is in the queue of its block; no two buffers have one block; and the
-- free list has buffers only.
pub record IsCache (c : Cache) : Type 0 where
  pub listed :
      (b : ℕ)
      → b < c.nr_buffers
      → (c.buf b).b_dev ≢ 0
      → has b (c.hash_table (hash_fn (c.buf b).b_dev (c.buf b).b_blocknr)) ≡ true
  pub unique :
      (a b : ℕ)
      → a < c.nr_buffers
      → b < c.nr_buffers
      → (c.buf a).b_dev ≢ 0
      → is_block (c.buf a).b_dev (c.buf a).b_blocknr (c.buf b) ≡ true
      → a ≡ b
  pub queued_lt : (h b : ℕ) → has b (c.hash_table h) ≡ true → b < c.nr_buffers
  pub free_lt : (b : ℕ) → has b c.free_list ≡ true → b < c.nr_buffers

module _ (c : Cache) (k : IsCache c) (dev block : ℕ) where
  -- A block that is not found is in no buffer.
  pub absent :
      dev ≢ 0
      → find_buffer dev block c ≡ none
      → (b : ℕ) → b < c.nr_buffers
      → is_block dev block (c.buf b) ≡ false
  unfolding find_buffer
  absent real e b low = elim (Bool-cases (is_block dev block (c.buf b))) [
    | inr other ↦ other
    | inl it_is ↦
        let d : (c.buf b).b_dev ≡ dev = ground arith in
        let n : (c.buf b).b_blocknr ≡ block = ground arith in
        let here : has b (c.hash_table (hash_fn dev block)) ≡ true =
          rw (d, n) at (k.listed b low (λ z. real (sym d ∙ z))) in
        find_in-none c.buf dev block _ b e here
  ]

-- A queue without the buffer b has every other buffer as before.
queue_without :
    (a b h g : ℕ) (table : ℕ → List ℕ)
    → (a == b) ≡ false
    → has a (update table h (remove b (table h)) g) ≡ has a (table g)
queue_without a b h g table other = elim (Bool-cases (h == g)) [
  | inl here ↦
      let e : h ≡ g = ground arith in
      rw here (has-remove a b (table h) other ∙ ap (λ (i : ℕ). has a (table i)) e)
  | inr apart ↦ rw apart refl
]

-- The queues after b has gone from the queue h to the front of the queue g.
abbrev moved : (b h g : ℕ) → (ℕ → List ℕ) → ℕ → List ℕ
moved b h g table =
    let table' = update table h (remove b (table h)) in update table' g (b ∷ table' g)

has-moved :
    (a b h g i : ℕ) (table : ℕ → List ℕ)
    → (a == b) ≡ false
    → has a (moved b h g table i) ≡ has a (table i)
has-moved a b h g i table other = elim (Bool-cases (g == i)) [
  | inl here ↦
      let e : g ≡ i = ground arith in
      rw (here, other) (queue_without a b h g table other ∙ ap (λ (j : ℕ). has a (table j)) e)
  | inr apart ↦ rw apart (queue_without a b h i table other)
]

moved-first : (b h g : ℕ) (table : ℕ → List ℕ) → has b (moved b h g table g) ≡ true
moved-first b h g table = rw (==_refl g, ==_refl b) refl

module _ (c : Cache) (dev block b : ℕ) where
  abbrev pub taken : Cache
  taken = record c {
    buf = update c.buf b (fresh dev block (c.buf b));
    hash_table =
        moved b (hash_fn (c.buf b).b_dev (c.buf b).b_blocknr) (hash_fn dev block) c.hash_table;
    free_list = remove b c.free_list ++ (b ∷ []);
  }

  pub take_buffer-taken : dev ≢ 0 → take_buffer dev block b c ≡ taken
  unfolding take_buffer remove_from_queues insert_into_queues
  take_buffer-taken real = let d : (dev == 0) ≡ false = ground arith in rw (==_refl b, d) refl

  module _ (k : IsCache c) (real : dev ≢ 0) (low : b < c.nr_buffers) where
    taken_listed :
        (a : ℕ)
        → a < c.nr_buffers
        → (taken.buf a).b_dev ≢ 0
        → has a (taken.hash_table (hash_fn (taken.buf a).b_dev (taken.buf a).b_blocknr)) ≡ true
    taken_listed a a_low a_real = elim (Bool-cases (a == b)) [
      | inl here ↦
          let e : a ≡ b = ground arith in
          rw (e, ==_refl b) (moved-first b _ (hash_fn dev block) c.hash_table)
      | inr other ↦
          let apart : (b == a) ≡ false = ground arith in
          let a_real' : (c.buf a).b_dev ≢ 0 = λ z. a_real (rw apart z) in
          rw apart (has-moved a b _ _ _ c.hash_table other ∙ k.listed a a_low a_real')
    ]

    -- In what follows no buffer had the block.
    module _ (none_has : (a : ℕ) → a < c.nr_buffers → is_block dev block (c.buf a) ≡ false) where
      taken_unique :
          (a a' : ℕ)
          → a < c.nr_buffers
          → a' < c.nr_buffers
          → (taken.buf a).b_dev ≢ 0
          → is_block (taken.buf a).b_dev (taken.buf a).b_blocknr (taken.buf a') ≡ true
          → a ≡ a'
      taken_unique a a' a_low a'_low a_real same = elim (Bool-cases (b == a)) [
        | inl a_is_b ↦ elim (Bool-cases (b == a')) [
          | inl a'_is_b ↦ ground arith
          | inr a'_other ↦
              let absent_a' = none_has a' a'_low in
              let same' : is_block dev block (c.buf a') ≡ true = rw (a_is_b, a'_other) at same in cc
        ]
        | inr a_other ↦ elim (Bool-cases (b == a')) [
          | inl a'_is_b ↦
              let absent_a = none_has a a_low in
              let same' : is_block (c.buf a).b_dev (c.buf a).b_blocknr (fresh dev block (c.buf b))
                  ≡ true =
                rw (a_other, a'_is_b) at same in
              let absent_a' : is_block dev block (c.buf a) ≡ true = ground arith in cc
          | inr a'_other ↦
              k.unique a a' a_low a'_low (λ z. a_real (rw a_other z))
                (rw (a_other, a'_other) at same)
        ]
      ]

      taken-free_lt : (a : ℕ) → has a taken.free_list ≡ true → a < c.nr_buffers
      taken-free_lt a h = elim (Bool-cases (a == b)) [
        | inl here ↦ let e : a ≡ b = ground arith in rw e low
        | inr other ↦
            let split = sym (has-append a (remove b c.free_list) (b ∷ [])) ∙ h in
            let still : has a (remove b c.free_list) ≡ true = ground arith in
            k.free_lt a (sym (has-remove a b c.free_list other) ∙ still)
      ]

      taken-queued_lt : (h a : ℕ) → has a (taken.hash_table h) ≡ true → a < c.nr_buffers
      taken-queued_lt h a here = elim (Bool-cases (a == b)) [
        | inl same ↦ let e : a ≡ b = ground arith in rw e low
        | inr other ↦ k.queued_lt h a (sym (has-moved a b _ _ h c.hash_table other) ∙ here)
      ]

      pub taken-IsCache : IsCache taken
      taken-IsCache = record {
        listed = taken_listed;
        unique = taken_unique;
        queued_lt = taken-queued_lt;
        free_lt = taken-free_lt;
      }
