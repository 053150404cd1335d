-- ===== src/Requests.antt =====
-- linux-0.11/kernel/blk_drv/ll_rw_blk.c: the requests of a block device. A request is named by its place
-- in the array `request`, and the list that starts at `current_request` is the list of places. A call
-- that sleeps ends there.
pub mod Queueing
mod Tests
use learn_linux.Common.{
  ℕ, zero, suc, ◌+◌, ◌-◌, ◌*◌, ◌%◌, ◌^◌, ◌/◌, Bool, true, false, not, ◌&&◌, ◌||◌, Option, none,
  some, List, [], ◌∷◌, ◌==◌, ltb, leb, if◌then◌else◌, update,
}
use learn_linux.Common.Int.{ℤ, pos, neg, ltb_ℤ, eq_ℤ}

abbrev pub nr_request : ℕ
nr_request = 32

-- The fields of a request that say what it is for; `bh` is the number of its buffer. dev is -1 for
-- a free one.
pub record Request : Type 0 where
  pub dev : ℤ
  pub cmd : ℕ
  pub sector : ℕ
  pub nr_sectors : ℕ
  pub bh : ℕ

-- The fields of a buffer head that are used, and whether a task sleeps on b_wait.
pub record Buffer : Type 0 where
  pub number : ℕ
  pub b_dev : ℕ
  pub b_blocknr : ℕ
  pub b_dirt : Bool
  pub b_uptodate : Bool
  pub b_lock : Bool
  pub sleeper : Bool

pub record Device : Type 0 where
  pub request : ℕ → Request
  pub queue : List ℕ

-- READ and WRITE
abbrev pub read : ℕ
read = 0

abbrev pub write : ℕ
write = 1

abbrev pub in_order : Request → Request → Bool
in_order a b =
    ltb a.cmd b.cmd
    || (a.cmd == b.cmd && (ltb_ℤ a.dev b.dev || (eq_ℤ a.dev b.dev && ltb a.sector b.sector)))

-- The place of `req` after the entry `tmp`, in the list after it.
unfoldable pub insert_after : (ℕ → Request) → (req tmp : ℕ) → List ℕ → List ℕ
insert_after request req tmp [] = req ∷ []
insert_after request req tmp (next ∷ rest) =
    let further = next ∷ insert_after request req next rest in
    if (in_order (request tmp) (request req) || not (in_order (request tmp) (request next)))
      && in_order (request req) (request next)
    then req ∷ next ∷ rest
    else further

unfoldable pub insert : (ℕ → Request) → (req : ℕ) → List ℕ → List ℕ
insert request req [] = req ∷ []
insert request req (tmp ∷ rest) = tmp ∷ insert_after request req tmp rest

abbrev pub is_empty : List ℕ → Bool
is_empty [] = true
is_empty (x ∷ xs) = false

-- What became of a request: nothing was needed, with the buffer as it is left; the kernel panics;
-- the call sleeps for the buffer's lock, or for a free request; or it is in the queue at a place of
-- the array, and the driver is started if the queue was empty.
pub data Made : Type 0 where
  dropped : Buffer → Made
  bad_command : Made
  waits_for_lock : Made
  waits_for_request : Buffer → Made
  queued : (slot : ℕ) (started : Bool) → Buffer → Device → Made

-- while (--req >= request) if (req->dev<0) break;
unfoldable pub free_request : (ℕ → Request) → (n : ℕ) → Option ℕ
free_request request zero = none
free_request request (suc n) =
    let rest = free_request request n in if ltb_ℤ (request n).dev (pos 0) then some n else rest

abbrev pub lock_buffer : Buffer → Buffer
lock_buffer b = record b { b_lock = true }

abbrev pub unlock_buffer : Buffer → Buffer
unlock_buffer b = record b { b_lock = false; sleeper = false }

-- Writes leave the last third of the array to reads.
abbrev pub places : (rw : ℕ) → ℕ
places rw = if rw == read then nr_request else nr_request * 2 / 3

-- The list is changed, and the buffer is no longer dirty.
abbrev pub add_request : (slot : ℕ) → Buffer → Device → Made
add_request slot b d =
    queued slot (is_empty d.queue) (record b { b_dirt = false })
      (record d { queue = insert d.request slot d.queue })

abbrev pub new_request : (rw : ℕ) → Buffer → Request
new_request rw b = record {
  dev = pos b.b_dev;
  cmd = rw;
  sector = b.b_blocknr * 2 % 2 ^ 32;
  nr_sectors = 2;
  bh = b.number;
}

-- From `repeat` on, with the buffer locked.
abbrev pub place_request : (rw : ℕ) (rw_ahead : Bool) → Buffer → Device → Option ℕ → Made
place_request rw rw_ahead b d none =
    if rw_ahead then dropped (unlock_buffer b) else waits_for_request b
place_request rw rw_ahead b d (some slot) =
    add_request slot b (record d { request = update d.request slot (new_request rw b) })

unfoldable pub locked_request : (rw : ℕ) (rw_ahead : Bool) → Buffer → Device → Made
locked_request rw rw_ahead b d =
    if (rw == write && not b.b_dirt) || (rw == read && b.b_uptodate)
    then dropped (unlock_buffer b)
    else place_request rw rw_ahead b d (free_request d.request (places rw))

-- READA is 2 and WRITEA is 3.
unfoldable pub make_request : (rw : ℕ) → Buffer → Device → Made
make_request rw b d =
    let rw_ahead = rw == 2 || rw == 3 in
    let rw' = if rw_ahead then rw - 2 else rw in
    if rw_ahead && b.b_lock
    then dropped b
    else if not (rw' == read) && not (rw' == write)
    then bad_command
    else if b.b_lock
    then waits_for_lock
    else locked_request rw' rw_ahead (lock_buffer b) d
