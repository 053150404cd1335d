-- ===== src/Bitmap/Taking.antt =====
-- new_block of linux-0.11/fs/bitmap.c: the zone that it takes.

use learn_linux.Common.{
  ℕ, ◌≤◌, ◌<◌, ◌≡◌, refl, ap, ◌∙◌, ◌≢◌, inl, inr, true, false, Option, none, some, List, [], ◌∷◌,
  arith, ◌==◌, ==_refl, leb, Bool-cases, update,
}
use learn_linux.Buffers.{Cache, set_buf, Got, cached, given, waits_on, waits_for_any, syncs, getblk}
use learn_linux.Buffers.Held.{find_buffer-set_buf, IsHeld, Holds, getblk-Holds, brelse_last}
use learn_linux.Bitmap.{
  Super, Disk, find_super, get_super, store_super, Spot, write_bit, Made, zone, no_zone, waits,
  panics, give_back, clear_block, fill_zone, zone_of, take_spot, new_in, new_block,
}
use learn_linux.Bitmap.Search.{Full, FirstSpot, spot, none_free, spot-IsFree, find_spot-FirstSpot}

-- The buffer b has the block z of the device, with zeros in it that are to be written, and is unused.
pub record IsClear (dev z b : ℕ) (d : Disk) : Type 0 where
  pub held : IsHeld dev z b d.cache
  pub unused : (d.cache.buf b).b_count ≡ 0
  pub valid : (d.cache.buf b).b_uptodate ≡ true
  pub dirty : (d.cache.buf b).b_dirt ≡ true
  pub zeros : (at : ℕ) → d.b_data b at ≡ 0

data Cleared (dev z : ℕ) (d : Disk) (r : Got) : Made → Type 0 where
  made :
      {o : Made} (b : ℕ) (d' : Disk)
      → o ≡ zone z d'
      → d'.super_block ≡ d.super_block
      → IsClear dev z b d'
      → Cleared dev z d r o
  stopped :
      {o : Made} (d' : Disk) → o ≡ waits d' → d'.super_block ≡ d.super_block → Cleared dev z d r o
  in_use :
      {o : Made} (b : ℕ) (c : Cache)
      → o ≡ panics
      → r ≡ cached b c
      → (c.buf b).b_count == 1 ≡ false
      → Cleared dev z d r o

module _ (dev z b : ℕ) (d : Disk) (h : IsHeld dev z b d.cache) where
  abbrev filled : Cache
  filled = set_buf b (record (d.cache.buf b) { b_uptodate = true; b_dirt = true }) d.cache

  abbrev emptied : Disk
  emptied = record d { b_data = update d.b_data b (λ at. 0); cache = filled }

  abbrev result : Disk
  result = record emptied { cache = set_buf b (record (filled.buf b) { b_count = 0 }) filled }

  filled-IsHeld : IsHeld dev z b filled
  filled-IsHeld = (find_buffer-set_buf d.cache dev z b _ refl ∙ h.0, rw (==_refl b) h.1)

  result-IsClear : IsClear dev z b result
  result-IsClear = record {
    held = (
      find_buffer-set_buf filled dev z b (record (filled.buf b) { b_count = 0 }) refl
          ∙ filled-IsHeld.0,
      rw (==_refl b) h.1,
    );
    unused = rw (==_refl b) refl;
    valid = rw (==_refl b) refl;
    dirty = rw (==_refl b) refl;
    zeros = λ at. rw (==_refl b) refl;
  }

  clear_block-result : ((d.cache.buf b).b_count == 1) ≡ true → clear_block z b d ≡ zone z result
  clear_block-result once =
      let one : (filled.buf b).b_count ≡ 1 = rw (==_refl b) (ground arith) in
      rw once (ap (give_back z emptied) (brelse_last filled b filled-IsHeld.1 one))

fill_zone-Cleared :
    (dev z : ℕ) (d : Disk) (r : Got) → Holds dev z r → Cleared dev z d r (fill_zone z d r)
fill_zone-Cleared dev z d (cached b c) h =
    let d' : Disk = record d { cache = c } in
    elim (Bool-cases ((c.buf b).b_count == 1)) [
      | inl once ↦
          made b (result dev z b d' h) (clear_block-result dev z b d' h once) refl
            (result-IsClear dev z b d' h)
      | inr more ↦ in_use b c (rw more refl) refl more
    ]
fill_zone-Cleared dev z d (given b c) (h, one) =
    let d' : Disk = record d { cache = c } in
    let once : (c.buf b).b_count == 1 ≡ true = ground arith in
    made b (result dev z b d' h) (clear_block-result dev z b d' h once) refl
      (result-IsClear dev z b d' h)
fill_zone-Cleared dev z d (waits_on b c) h = stopped (record d { cache = c }) refl refl
fill_zone-Cleared dev z d waits_for_any h = stopped d refl refl
fill_zone-Cleared dev z d (syncs other) h = stopped d refl refl

find_super_dev :
    (dev : ℕ) (l : List Super) (sb : Super) → find_super dev l ≡ some sb → (sb.s_dev == dev) ≡ true
unfolding find_super
find_super_dev dev [] sb e = cc
find_super_dev dev (s ∷ rest) sb e = elim (Bool-cases (s.s_dev == dev)) [
  | inl here ↦
      let e' : some s ≡ some sb = rw (here, find_super) at e in
      let same : s ≡ sb = cc in rw same at here
  | inr other ↦ find_super_dev dev rest sb (rw (other, find_super) at e)
]

find_super-store_super :
    (dev : ℕ) (l : List Super) (sb sb' : Super)
    → find_super dev l ≡ some sb
    → (sb'.s_dev == dev) ≡ true
    → find_super dev (store_super dev sb' l) ≡ some sb'
unfolding find_super store_super
find_super-store_super dev [] sb sb' e its = cc
find_super-store_super dev (s ∷ rest) sb sb' e its = elim (Bool-cases (s.s_dev == dev)) [
  | inl here ↦ rw (here, its) refl
  | inr other ↦
      rw (other, other) (find_super-store_super dev rest sb sb' (rw (other, find_super) at e) its)
]

pub get_super-store_super :
    (dev : ℕ) (l : List Super) (sb sb' : Super)
    → get_super dev l ≡ some sb
    → sb'.s_dev ≡ sb.s_dev
    → get_super dev (store_super dev sb' l) ≡ some sb'
unfolding get_super
get_super-store_super dev l sb sb' e same = elim (Bool-cases (dev == 0)) [
  | inl nothing ↦ let no : none ≡ some sb = rw (nothing, get_super) at e in cc
  | inr real ↦
      let e' : find_super dev l ≡ some sb = rw (real, get_super) at e in
      rw real (
        find_super-store_super dev l sb sb' e'
          (ap (λ (x : ℕ). x == dev) same ∙ find_super_dev dev l sb e'))
]

-- How `new_block` can end.
pub data NewBlock (dev : ℕ) (d : Disk) : Made → Type 0 where
  made :
      {o : Made} (sb : Super) (s : Spot) (b : ℕ) (d' : Disk)
      → o ≡ zone (zone_of s sb) d'
      → get_super dev d.super_block ≡ some sb
      → FirstSpot sb.s_zmap 0 8 (some s)
      → zone_of s sb < sb.s_nzones
      → d'.super_block ≡ store_super dev (write_bit s.i s.j true s.map sb) d.super_block
      → IsClear dev (zone_of s sb) b d'
      → NewBlock dev d o
  stopped :
      {o : Made} (sb : Super) (s : Spot) (d' : Disk)
      → o ≡ waits d'
      → get_super dev d.super_block ≡ some sb
      → FirstSpot sb.s_zmap 0 8 (some s)
      → d'.super_block ≡ store_super dev (write_bit s.i s.j true s.map sb) d.super_block
      → NewBlock dev d o
  all_taken :
      {o : Made} (sb : Super)
      → o ≡ no_zone d
      → get_super dev d.super_block ≡ some sb
      → Full sb.s_zmap 0 8
      → NewBlock dev d o
  past_the_end :
      {o : Made} (sb : Super) (s : Spot) (d' : Disk)
      → o ≡ no_zone d'
      → get_super dev d.super_block ≡ some sb
      → FirstSpot sb.s_zmap 0 8 (some s)
      → sb.s_nzones ≤ zone_of s sb
      → d'.super_block ≡ store_super dev (write_bit s.i s.j true s.map sb) d.super_block
      → NewBlock dev d o
  block_in_use :
      {o : Made} (sb : Super) (s : Spot) (b : ℕ) (c : Cache)
      → o ≡ panics
      → get_super dev d.super_block ≡ some sb
      → getblk dev (zone_of s sb) d.cache ≡ cached b c
      → (c.buf b).b_count == 1 ≡ false
      → NewBlock dev d o
  no_super : {o : Made} → o ≡ panics → get_super dev d.super_block ≡ none → NewBlock dev d o

module _ (dev : ℕ) (d : Disk) (real : dev ≢ 0) where
  module _ (sb : Super) (sup : get_super dev d.super_block ≡ some sb) where
    spot-NewBlock :
        (s : Spot)
        → FirstSpot sb.s_zmap 0 8 (some s)
        → s.map.bits s.j ≡ false
        → NewBlock dev d (take_spot dev sb (some s) d)
    spot-NewBlock s first clear =
        let z = zone_of s sb in
        let d' : Disk = record d {
          super_block = store_super dev (write_bit s.i s.j true s.map sb) d.super_block;
        } in
        elim (Bool-cases (leb sb.s_nzones z)) [
          | inl past ↦ past_the_end sb s d' (rw (clear, past) refl) sup first (ground arith) refl
          | inr inside ↦
              let low : z < sb.s_nzones = ground arith in
              elim (fill_zone-Cleared dev z d' (getblk dev z d.cache)
                (getblk-Holds d.cache dev z real)) [
                  | made b d'' e same is_clear ↦
                      made sb s b d'' (rw (clear, inside) e) sup first low same is_clear
                  | stopped d'' e same ↦ stopped sb s d'' (rw (clear, inside) e) sup first same
                  | in_use b c e got more ↦
                      block_in_use sb s b c (rw (clear, inside) e) sup got more
                ]
        ]

    found-NewBlock :
        (o : Option Spot) → FirstSpot sb.s_zmap 0 8 o → NewBlock dev d (take_spot dev sb o d)
    found-NewBlock none (none_free e all) = all_taken sb refl sup all
    found-NewBlock none (spot s e low high here j_lt clear below before) = cc
    found-NewBlock (some s) (none_free e all) = cc
    found-NewBlock (some s) f = spot-NewBlock s f (spot-IsFree sb.s_zmap 0 8 s f).3

  in-NewBlock :
      (o : Option Super) → get_super dev d.super_block ≡ o → NewBlock dev d (new_in dev o d)
  in-NewBlock none e = no_super refl e
  in-NewBlock (some sb) e = found-NewBlock sb e _ (find_spot-FirstSpot sb.s_zmap 8 0)

  -- new_block for a device takes the first free bit of the zone bitmaps, with every bit before it
  -- set, and nothing else of the super blocks changes: it returns the bit's zone, whose buffer is
  -- found in the cache, unused and up to date, holds only zeros and is to be written; or the zone
  -- lies past the end of the device, and it returns none although the bit is taken; or it waits for
  -- a buffer. If every bit is set it returns none and changes nothing. It panics if the device has
  -- no super block, or if the zone's buffer is already in use.
  pub new_block-NewBlock : NewBlock dev d (new_block dev d)
  unfolding new_block
  new_block-NewBlock = in-NewBlock (get_super dev d.super_block) refl
