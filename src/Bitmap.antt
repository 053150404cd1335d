-- ===== src/Bitmap.antt =====
-- new_block and free_block of linux-0.11/fs/bitmap.c on the buffer cache, and get_super of
-- linux-0.11/fs/super.c. The content of the buffers that hold a bitmap is the bitmap itself. A call that
-- sleeps or starts a transfer ends there.
pub mod Search
pub mod Taking
pub mod Freeing
mod Tests
use learn_linux.Common.{
  ℕ, zero, suc, ◌+◌, ◌-◌, ◌*◌, ◌/◌, ◌%◌, Bool, true, false, not, ◌&&◌, ◌||◌, Option, none, some,
  List, [], ◌∷◌, ◌==◌, ltb, leb, if◌then◌else◌, update,
}
use learn_linux.Buffers.{
  Buf, Cache, set_buf, find_buffer, Got, cached, given, waits_on, waits_for_any, syncs, use_cached,
  getblk, Released, released, sleeps, brelse,
}
use learn_linux.Buffers as B

-- A buffer with a bitmap of 8192 bits
pub record Map : Type 0 where
  pub bits : ℕ → Bool
  pub b_dirt : Bool

pub record Super : Type 0 where
  pub s_dev : ℕ
  pub s_nzones : ℕ
  pub s_firstdatazone : ℕ
  pub s_zmap : ℕ → Option Map

pub record Disk : Type 0 where
  pub cache : Cache
  pub b_data : (b : ℕ) → ℕ → ℕ
  pub super_block : List Super

unfoldable pub find_super : (dev : ℕ) → List Super → Option Super
find_super dev [] = none
find_super dev (s ∷ rest) =
    let further = find_super dev rest in if s.s_dev == dev then some s else further

unfoldable pub get_super : (dev : ℕ) → List Super → Option Super
unfolding find_super
get_super dev l = if dev == 0 then none else find_super dev l

-- The first super block of the device is changed.
unfoldable pub store_super : (dev : ℕ) → Super → List Super → List Super
store_super dev sb [] = []
store_super dev sb (s ∷ rest) =
    let further = store_super dev sb rest in if s.s_dev == dev then sb ∷ rest else s ∷ further

-- The first zero of the n bits from `base` on: notl and bsfl on a word
unfoldable pub low_zero : (bits : ℕ → Bool) (base n : ℕ) → Option ℕ
low_zero bits base zero = none
low_zero bits base (suc n) =
    let rest = low_zero bits (base + 1) n in if bits base then rest else some base

abbrev pub or_else : {A : Type 0} → Option A → Option A → Option A
or_else (some a) o = some a
or_else none o = o

-- The first zero of the n words from the bit `base` on
unfoldable pub zero_in_words : (bits : ℕ → Bool) (base n : ℕ) → Option ℕ
unfolding low_zero
zero_in_words bits base zero = none
zero_in_words bits base (suc n) = or_else (low_zero bits base 32) (zero_in_words bits (base + 32) n)

-- Where the source gives 8192, there is none.
unfoldable pub find_first_zero : (bits : ℕ → Bool) → Option ℕ
unfolding zero_in_words
find_first_zero bits = zero_in_words bits 0 256

-- The bit j of the bitmap i
pub record Spot : Type 0 where
  pub i : ℕ
  pub j : ℕ
  pub map : Map

abbrev pub spot_at : (i : ℕ) → Map → Option ℕ → Option Spot
spot_at i m none = none
spot_at i m (some j) = some record { i = i; j = j; map = m }

unfoldable pub spot_in : (i : ℕ) → Option Map → Option Spot
unfolding find_first_zero
spot_in i none = none
spot_in i (some m) = spot_at i m (find_first_zero m.bits)

-- The n bitmaps from the bitmap i on
unfoldable pub find_spot : (zmap : ℕ → Option Map) (i n : ℕ) → Option Spot
unfolding spot_in
find_spot zmap i zero = none
find_spot zmap i (suc n) = or_else (spot_in i (zmap i)) (find_spot zmap (i + 1) n)

-- set_bit or clear_bit, and b_dirt = 1
abbrev pub write_bit : (i j : ℕ) (bit : Bool) → Map → Super → Super
write_bit i j bit m sb = record sb {
  s_zmap = update sb.s_zmap i (some record { bits = update m.bits j bit; b_dirt = true });
}

-- How `new_block` ends: with a zone; with none left; it sleeps or starts a transfer, after it has taken
-- a bit; or the kernel panics.
pub data Made : Type 0 where
  zone : (z : ℕ) → Disk → Made
  no_zone : Disk → Made
  waits : Disk → Made
  panics : Made

abbrev pub give_back : (z : ℕ) → Disk → Released → Made
give_back z d (released c) = zone z (record d { cache = c })
give_back z d sleeps = waits d
give_back z d B.panics = panics

abbrev pub clear_block : (z b : ℕ) → Disk → Made
clear_block z b d =
    let bh = d.cache.buf b in
    let c = set_buf b (record bh { b_uptodate = true; b_dirt = true }) d.cache in
    let d' = record d { b_data = update d.b_data b (λ at. 0); cache = c } in
    if bh.b_count == 1 then give_back z d' (brelse b c) else panics

abbrev pub fill_zone : (z : ℕ) → Disk → Got → Made
fill_zone z d (cached b c) = clear_block z b (record d { cache = c })
fill_zone z d (given b c) = clear_block z b (record d { cache = c })
fill_zone z d (waits_on b c) = waits (record d { cache = c })
fill_zone z d waits_for_any = waits d
fill_zone z d (syncs dev) = waits d

abbrev pub zone_of : Spot → Super → ℕ
zone_of s sb = s.j + s.i * 8192 + sb.s_firstdatazone - 1

abbrev pub take_spot : (dev : ℕ) → Super → Option Spot → Disk → Made
take_spot dev sb none d = no_zone d
take_spot dev sb (some s) d =
    let sb' = write_bit s.i s.j true s.map sb in
    let d' = record d { super_block = store_super dev sb' d.super_block } in
    let z = zone_of s sb in
    if s.map.bits s.j
    then panics
    else if leb sb.s_nzones z
    then no_zone d'
    else fill_zone z d' (getblk dev z d.cache)

abbrev pub new_in : (dev : ℕ) → Option Super → Disk → Made
new_in dev none d = panics
new_in dev (some sb) d = take_spot dev sb (find_spot sb.s_zmap 0 8) d

unfoldable pub new_block : (dev : ℕ) → Disk → Made
unfolding get_super store_super find_spot getblk brelse
new_block dev d = new_in dev (get_super dev d.super_block) d

-- How `free_block` ends: the zone is free; its buffer is in use, and nothing is done but that the use
-- is counted; it sleeps; the kernel panics; or there is no such bitmap.
pub data Freed : Type 0 where
  freed : Disk → Freed
  busy : Disk → Freed
  stops : Disk → Freed
  panics_freeing : Freed
  null_map : Freed

abbrev pub clear_in : (dev i j : ℕ) → Super → Option Map → Disk → Freed
clear_in dev i j sb none d = null_map
clear_in dev i j sb (some m) d =
    let sb' = write_bit i j false m sb in
    if m.bits j
    then freed (record d { super_block = store_super dev sb' d.super_block })
    else panics_freeing

abbrev pub clear_zone : (dev block : ℕ) → Super → Disk → Freed
clear_zone dev block sb d =
    let n = block + 1 - sb.s_firstdatazone in
    clear_in dev (n / 8192) (n % 8192) sb (sb.s_zmap (n / 8192)) d

abbrev pub after_release : (dev block : ℕ) → Super → Disk → Released → Freed
after_release dev block sb d (released c) = clear_zone dev block sb (record d { cache = c })
after_release dev block sb d sleeps = stops d
after_release dev block sb d B.panics = panics_freeing

abbrev pub forget : (dev block : ℕ) → Super → Disk → Got → Freed
forget dev block sb d (cached b c) =
    let bh = c.buf b in
    let c' = set_buf b (record bh { b_dirt = false; b_uptodate = false }) c in
    if bh.b_count == 1
    then after_release dev block sb d (brelse b c')
    else busy (record d { cache = c })
forget dev block sb d (given b c) = stops (record d { cache = c })
forget dev block sb d (waits_on b c) = stops (record d { cache = c })
forget dev block sb d waits_for_any = stops d
forget dev block sb d (syncs other) = stops d

abbrev pub free_found : (dev block : ℕ) → Super → Option ℕ → Disk → Freed
free_found dev block sb none d = clear_zone dev block sb d
free_found dev block sb (some b) d = forget dev block sb d (use_cached b d.cache)

abbrev pub free_in : (dev block : ℕ) → Option Super → Disk → Freed
free_in dev block none d = panics_freeing
free_in dev block (some sb) d =
    if ltb block sb.s_firstdatazone || leb sb.s_nzones block
    then panics_freeing
    else free_found dev block sb (find_buffer dev block d.cache) d

unfoldable pub free_block : (dev block : ℕ) → Disk → Freed
unfolding get_super store_super find_buffer brelse
free_block dev block d = free_in dev block (get_super dev d.super_block) d
