-- ===== src/Buffers.antt =====
-- linux-0.11/fs/buffer.c: the buffer cache. A buffer is named by its place after `start_buffer`; a hash
-- queue is the list of its buffers, and the free list is the circular list from `free_list` on. A
-- call that sleeps or starts a transfer ends there.
pub mod Lookup
pub mod Blocks
pub mod Getting
pub mod Calls
pub mod Held
mod Tests
use Prim.Native.Nat.{bit_xor}
use learn_linux.Common.{
  ℕ, zero, suc, ◌+◌, ◌-◌, ◌*◌, ◌%◌, ◌^◌, Bool, true, false, not, ◌&&◌, ◌||◌, Option, none, some,
  List, [], ◌∷◌, ◌++◌, ◌==◌, ltb, leb, if◌then◌else◌, update,
}

pub record Buf : Type 0 where
  pub b_dev : ℕ
  pub b_blocknr : ℕ
  pub b_uptodate : Bool
  pub b_dirt : Bool
  pub b_count : ℕ
  pub b_lock : Bool

pub record Cache : Type 0 where
  pub nr_buffers : ℕ
  pub buf : ℕ → Buf
  pub hash_table : ℕ → List ℕ
  pub free_list : List ℕ

abbrev pub nr_hash : ℕ
nr_hash = 307

unfoldable pub hash_fn : (dev block : ℕ) → ℕ
hash_fn dev block = bit_xor dev block % nr_hash

abbrev pub remove : (b : ℕ) → List ℕ → List ℕ
remove b [] = []
remove b (x ∷ xs) = if b == x then remove b xs else x ∷ remove b xs

abbrev pub set_buf : (b : ℕ) → Buf → Cache → Cache
set_buf b new c = record c { buf = update c.buf b new }

abbrev pub set_queue : (h : ℕ) → List ℕ → Cache → Cache
set_queue h queue c = record c { hash_table = update c.hash_table h queue }

-- The buffer leaves the queue of its block and the free list.
unfoldable pub remove_from_queues : (b : ℕ) → Cache → Cache
unfolding hash_fn
remove_from_queues b c =
    let h = hash_fn (c.buf b).b_dev (c.buf b).b_blocknr in
    record c {
      hash_table = update c.hash_table h (remove b (c.hash_table h));
      free_list = remove b c.free_list;
    }

-- It goes to the end of the free list, and to the front of its queue if it has a device.
unfoldable pub insert_into_queues : (b : ℕ) → Cache → Cache
unfolding hash_fn
insert_into_queues b c0 =
    let c = record c0 { free_list = c0.free_list ++ (b ∷ []) } in
    let h = hash_fn (c.buf b).b_dev (c.buf b).b_blocknr in
    if (c.buf b).b_dev == 0 then c else set_queue h (b ∷ c.hash_table h) c

abbrev pub is_block : (dev block : ℕ) → Buf → Bool
is_block dev block bh = bh.b_dev == dev && bh.b_blocknr == block

unfoldable pub find_in : (buf : ℕ → Buf) (dev block : ℕ) → List ℕ → Option ℕ
find_in buf dev block [] = none
find_in buf dev block (b ∷ rest) =
    let further = find_in buf dev block rest in
    if is_block dev block (buf b) then some b else further

unfoldable pub find_buffer : (dev block : ℕ) → Cache → Option ℕ
unfolding find_in hash_fn
find_buffer dev block c = find_in c.buf dev block (c.hash_table (hash_fn dev block))

-- How `getblk` ends or stops: with a buffer that has the block already, or with one that is given
-- to it; it sleeps for the lock of a buffer, which it counts or not, or for any buffer; or it writes
-- the dirty buffers of a device first.
pub data Got : Type 0 where
  cached : (b : ℕ) → Cache → Got
  given : (b : ℕ) → Cache → Got
  waits_on : (b : ℕ) → Cache → Got
  waits_for_any : Got
  syncs : (dev : ℕ) → Got

-- bh->b_count++, an unsigned char
abbrev pub count_up : Buf → Buf
count_up bh = record bh { b_count = (bh.b_count + 1) % 256 }

-- get_hash_table, where the block is in the cache
abbrev pub use_cached : (b : ℕ) → Cache → Got
use_cached b c =
    let c' = set_buf b (count_up (c.buf b)) c in
    if (c.buf b).b_lock then waits_on b c' else cached b c'

abbrev pub badness : Buf → ℕ
badness bh = (if bh.b_dirt then 2 else 0) + (if bh.b_lock then 1 else 0)

abbrev pub is_better : (buf : ℕ → Buf) (b : ℕ) → Option ℕ → Bool
is_better buf b none = true
is_better buf b (some best) = ltb (badness (buf b)) (badness (buf best))

-- The unused buffer with the least badness; the search ends at one with none.
unfoldable pub choose : (buf : ℕ → Buf) → List ℕ → (best : Option ℕ) → Option ℕ
choose buf [] best = best
choose buf (b ∷ rest) best =
    let better = (buf b).b_count == 0 && is_better buf b best in
    let further = choose buf rest (if better then some b else best) in
    if better && badness (buf b) == 0 then some b else further

abbrev pub fresh : (dev block : ℕ) → Buf → Buf
fresh dev block bh = record bh {
  b_dev = dev;
  b_blocknr = block;
  b_uptodate = false;
  b_dirt = false;
  b_count = 1;
}

-- The buffer is unused, unlocked and clean.
unfoldable pub take_buffer : (dev block b : ℕ) → Cache → Cache
unfolding remove_from_queues insert_into_queues
take_buffer dev block b c =
    let c' = remove_from_queues b c in
    insert_into_queues b (set_buf b (fresh dev block (c.buf b)) c')

abbrev pub give : (dev block : ℕ) → Option ℕ → Cache → Got
give dev block none c = waits_for_any
give dev block (some b) c =
    if (c.buf b).b_lock
    then waits_on b c
    else if (c.buf b).b_dirt
    then syncs (c.buf b).b_dev
    else given b (take_buffer dev block b c)

abbrev pub get_found : (dev block : ℕ) → Option ℕ → Cache → Got
get_found dev block (some b) c = use_cached b c
get_found dev block none c = give dev block (choose c.buf c.free_list none) c

unfoldable pub getblk : (dev block : ℕ) → Cache → Got
unfolding find_buffer choose take_buffer
getblk dev block c = get_found dev block (find_buffer dev block c) c

-- How `brelse` ends: it sleeps for the lock, or the count goes down, and at 0 the kernel panics.
pub data Released : Type 0 where
  released : Cache → Released
  sleeps : Released
  panics : Released

unfoldable pub brelse : (b : ℕ) → Cache → Released
brelse b c =
    let c' = set_buf b (record (c.buf b) { b_count = (c.buf b).b_count - 1 }) c in
    if (c.buf b).b_lock then sleeps else if (c.buf b).b_count == 0 then panics else released c'

-- The buffers 0, ..., n - 1 lose what they hold of the device; none of them is locked.
unfoldable pub invalidate : (dev n : ℕ) → (ℕ → Buf) → ℕ → Buf
invalidate dev zero buf = buf
invalidate dev (suc n) buf =
    let rest = invalidate dev n buf in
    if (buf n).b_dev == dev
    then update rest n (record (buf n) { b_uptodate = false; b_dirt = false })
    else rest

unfoldable pub invalidate_buffers : (dev : ℕ) → Cache → Cache
unfolding invalidate
invalidate_buffers dev c = record c { buf = invalidate dev c.nr_buffers c.buf }
