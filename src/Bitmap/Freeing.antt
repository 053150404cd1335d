-- ===== src/Bitmap/Freeing.antt =====
-- free_block of linux-0.11/fs/bitmap.c after new_block.
use mathlib.Core.Path.{subst}
use mathlib.Core.Option
use learn_linux.Common.{
  ℕ, ◌+◌, ◌-◌, ◌*◌, ◌/◌, ◌%◌, ◌≤◌, ◌<◌, ◌≡◌, refl, sym, ap, ◌∙◌, ◌≢◌, inl, inr, Bool, true, false,
  Option, some, arith, ◌==◌, ==_refl, leb, ltb, Bool-cases, update,
}
use learn_linux.Buffers.{Cache, set_buf, find_buffer, cached, count_up}
use learn_linux.Buffers.Held.{use_cached_free, brelse_last}
use learn_linux.Bitmap.{
  Map, Super, Disk, get_super, store_super, Spot, write_bit, Made, zone, zone_of, new_block, Freed,
  freed, clear_in, clear_zone, after_release, forget, free_found, free_in, free_block,
}
use learn_linux.Bitmap.Search.{IsFree, spot-IsFree}
use learn_linux.Bitmap.Taking.{
  IsClear, NewBlock, made, stopped, all_taken, past_the_end, block_in_use, no_super,
  get_super-store_super, new_block-NewBlock,
}

-- An unused buffer that is found is cleaned and released again.
module _ (dev z b : ℕ) (d : Disk) (k : IsClear dev z b d) (sb : Super) where
  abbrev counted : Cache
  counted = set_buf b (count_up (d.cache.buf b)) d.cache

  abbrev cleaned : Cache
  cleaned = set_buf b (record (counted.buf b) { b_dirt = false; b_uptodate = false }) counted

  abbrev let_go : Cache
  let_go = set_buf b (record (cleaned.buf b) { b_count = 0 }) cleaned

  counted_once : (counted.buf b).b_count ≡ 1
  counted_once = rw (==_refl b, k.unused) refl

  forget-cached :
      forget dev z sb d (cached b counted) ≡ clear_zone dev z sb (record d { cache = let_go })
  forget-cached =
      let once : ((counted.buf b).b_count == 1) ≡ true = ap (λ (n : ℕ). n == 1) counted_once in
      let one : (cleaned.buf b).b_count ≡ 1 = rw (==_refl b, k.unused) refl in
      let unlocked : (cleaned.buf b).b_lock ≡ false = rw (==_refl b) k.held.1 in
      let e = ap (after_release dev z sb d) (brelse_last cleaned b unlocked one) in rw once e

  forget-clear_zone :
      free_found dev z sb (find_buffer dev z d.cache) d
      ≡ clear_zone dev z sb (record d { cache = let_go })
  forget-clear_zone =
      ap (λ (o : Option ℕ). free_found dev z sb o d) k.held.0
      ∙ ap (forget dev z sb d) (use_cached_free d.cache b k.held.1)
      ∙ forget-cached

-- A bit that is set at a place of a bitmap that is in memory is cleared.
clear_in-freed :
    (dev i j : ℕ) (sb : Super) (m : Map) (d : Disk)
    → sb.s_zmap i ≡ some m
    → m.bits j ≡ true
    → clear_in dev i j sb (sb.s_zmap i) d
      ≡ freed (record d { super_block = store_super dev (write_bit i j false m sb) d.super_block })
clear_in-freed dev i j sb m d here set =
    ap (λ (o : Option Map). clear_in dev i j sb o d) here ∙ rw set refl

-- The bit j of the bitmap i
abbrev pub bit_at : (i j : ℕ) → Super → Option Bool
bit_at i j sb = Option.map (λ (m : Map). m.bits j) (sb.s_zmap i)

module _ (i j : ℕ) (m : Map) (sb : Super) (here : sb.s_zmap i ≡ some m)
    (clear : m.bits j ≡ false) where
  abbrev taken_once : Super
  taken_once = write_bit i j true m sb

  abbrev marked : Map
  marked = record { bits = update m.bits j true; b_dirt = true }

  abbrev given_back : Super
  given_back = write_bit i j false marked taken_once

  given_back-bit_at : (h q : ℕ) → bit_at h q given_back ≡ bit_at h q sb
  given_back-bit_at h q = elim (Bool-cases (i == h)) [
    | inr apart ↦ rw apart refl
    | inl same ↦
        let e : i ≡ h = ground arith in
        let there : sb.s_zmap h ≡ some m = rw e at here in
        elim (Bool-cases (j == q)) [
          | inl it ↦
              let e' : j ≡ q = ground arith in
              let clear' : m.bits q ≡ false = rw e' at clear in rw (same, it, there, clear') refl
          | inr other ↦ rw (same, other, there) refl
        ]
  ]

-- How `free_block` ends after `new_block`: every bit of the device is as it was before both.
pub data GivenBack (dev : ℕ) (sb : Super) : Freed → Type 0 where
  back :
      {o : Freed} (sb' : Super) (d' : Disk)
      → o ≡ freed d'
      → get_super dev d'.super_block ≡ some sb'
      → ((i j : ℕ) → bit_at i j sb' ≡ bit_at i j sb)
      → GivenBack dev sb o

module _ (dev : ℕ) (d : Disk) (sb : Super) (sup : get_super dev d.super_block ≡ some sb)
    (first : 1 ≤ sb.s_firstdatazone)
    (reserved : (m : Map) → sb.s_zmap 0 ≡ some m → m.bits 0 ≡ true) where
  -- The bit that stands for no zone is not taken.
  not_reserved : (s : Spot) → IsFree sb.s_zmap 8 s → 1 ≤ s.j + s.i * 8192
  not_reserved s f = elim (Bool-cases (s.i == 0)) [
    | inr past ↦ ground arith
    | inl at_0 ↦ elim (Bool-cases (s.j == 0)) [
      | inr past ↦ ground arith
      | inl bit_0 ↦
          let i_0 : s.i ≡ 0 = ground arith in
          let j_0 : s.j ≡ 0 = ground arith in
          let set = reserved s.map (rw i_0 at f.1) in
          let clear : s.map.bits 0 ≡ false = rw j_0 at f.3 in cc
    ]
  ]

  module _ (s : Spot) (f : IsFree sb.s_zmap 8 s) (z b : ℕ) (d' : Disk) (is_z : z ≡ zone_of s sb)
      (low : z < sb.s_nzones)
      (same : d'.super_block ≡ store_super dev (taken_once s.i s.j s.map sb f.1 f.3) d.super_block)
      (k : IsClear dev z b d') where
    abbrev sb1 : Super
    sb1 = taken_once s.i s.j s.map sb f.1 f.3

    sup1 : get_super dev d'.super_block ≡ some sb1
    sup1 = ap (get_super dev) same ∙ get_super-store_super dev d.super_block sb sb1 sup refl

    free_in_range :
        free_in dev z (some sb1) d' ≡ free_found dev z sb1 (find_buffer dev z d'.cache) d'
    free_in_range =
        let some_bit = not_reserved s f in
        let not_below : ltb z sb.s_firstdatazone ≡ false = ground arith in
        let not_past : leb sb.s_nzones z ≡ false = ground arith in rw (not_below, not_past) refl

    place : (z + 1 - sb.s_firstdatazone) / 8192 ≡ s.i
    place = let some_bit = not_reserved s f in let j_lt = f.2 in omega arith

    bit : (z + 1 - sb.s_firstdatazone) % 8192 ≡ s.j
    bit = let some_bit = not_reserved s f in let j_lt = f.2 in omega arith

    abbrev d1 : Disk
    d1 = record d' { cache = let_go dev z b d' k sb1 }

    marked_bit :
        clear_in dev s.i s.j sb1 (sb1.s_zmap s.i) d1
        ≡ freed (record d1 {
          super_block = store_super dev (given_back s.i s.j s.map sb f.1 f.3) d1.super_block;
        })
    marked_bit =
        clear_in-freed dev s.i s.j sb1 (marked s.i s.j s.map sb f.1 f.3) d1 (rw (==_refl s.i) refl)
          (rw (==_refl s.j) refl)

    free_block-freed :
        free_block dev z d'
        ≡ freed (record d1 {
          super_block = store_super dev (given_back s.i s.j s.map sb f.1 f.3) d1.super_block;
        })
    unfolding free_block
    free_block-freed =
        ap (λ (o : Option Super). free_in dev z o d') sup1
        ∙ free_in_range
        ∙ forget-clear_zone dev z b d' k sb1
        ∙ ap (λ (i : ℕ). clear_in dev i ((z + 1 - sb.s_firstdatazone) % 8192) sb1 (sb1.s_zmap i) d1)
            place
        ∙ ap (λ (j : ℕ). clear_in dev s.i j sb1 (sb1.s_zmap s.i) d1) bit
        ∙ marked_bit

    freed-GivenBack : GivenBack dev sb (free_block dev z d')
    freed-GivenBack =
        back (given_back s.i s.j s.map sb f.1 f.3) _ free_block-freed
          (get_super-store_super dev d'.super_block sb1 _ sup1 refl)
          (given_back-bit_at s.i s.j s.map sb f.1 f.3)

-- Bit 0 of the first bitmap, which stands for no zone, is set.
abbrev pub IsReserved : Super → Type 0
IsReserved sb = (m : Map) → sb.s_zmap 0 ≡ some m → m.bits 0 ≡ true

module _ (dev : ℕ) (d : Disk) (sb : Super) (sup : get_super dev d.super_block ≡ some sb)
    (first : 1 ≤ sb.s_firstdatazone) (reserved : IsReserved sb) (z : ℕ) (d' : Disk) where
  made-GivenBack :
      (o : Made) → NewBlock dev d o → o ≡ zone z d' → GivenBack dev sb (free_block dev z d')
  made-GivenBack o (made sb' s b d'' e sup' f low same k) e' =
      let ez : zone_of s sb' ≡ z = cc in
      let ed : d'' ≡ d' = cc in
      let es : sb' ≡ sb = cc in
      let first' : 1 ≤ sb'.s_firstdatazone =
        subst (λ (x : Super). 1 ≤ x.s_firstdatazone) (sym es) first in
      let reserved' = subst IsReserved (sym es) reserved in
      let free = spot-IsFree sb'.s_zmap 0 8 s f in
      let done =
        freed-GivenBack dev d sb' sup' first' reserved' s free (zone_of s sb') b d'' refl low same
          k in
      let at_z = subst (λ (x : ℕ). GivenBack dev sb' (free_block dev x d'')) ez done in
      let from_d = subst (λ (x : Disk). GivenBack dev sb' (free_block dev z x)) ed at_z in
      subst (λ (x : Super). GivenBack dev x (free_block dev z d')) es from_d
  made-GivenBack o (stopped sb' s d'' e sup' f same) e' = cc
  made-GivenBack o (all_taken sb' e sup' all) e' = cc
  made-GivenBack o (past_the_end sb' s d'' e sup' f past same) e' = cc
  made-GivenBack o (block_in_use sb' s b c e sup' got more) e' = cc
  made-GivenBack o (no_super e missing) e' = cc

  -- Where new_block has returned a zone of a device whose first data zone is not 0 and whose bit for
  -- no zone is set, free_block of the zone neither sleeps nor panics: it frees the zone, and every
  -- bit of the zone bitmaps is as it was before both calls.
  pub new_block-free_block :
      dev ≢ 0 → new_block dev d ≡ zone z d' → GivenBack dev sb (free_block dev z d')
  new_block-free_block real e = made-GivenBack (new_block dev d) (new_block-NewBlock dev d real) e
