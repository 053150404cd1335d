-- ===== src/Requests/Queueing.antt =====
-- Where a request goes in the queue.
use learn_linux.Common.{
  ℕ, ◌<◌, ◌≡◌, Bool, true, false, not, ◌&&◌, ◌||◌, List, [], ◌∷◌, ◌++◌, ◌==◌, update,
}
use learn_linux.Common.Int.{pos, ltb_ℤ}
use learn_linux.Requests.{
  Buffer, Device, is_empty, read, write, Made, dropped, waits_for_request, queued, lock_buffer,
  unlock_buffer, places, new_request,
}

-- The request `req` is put between two parts of a queue.
pub data Inserted (req : ℕ) (queue : List ℕ) (r : List ℕ) : Type 0 where
  between :
      (before after : List ℕ)
      → queue ≡ before ++ after
      → r ≡ before ++ (req ∷ after)
      → Inserted req queue r

-- A request in the list `queue`, which starts with the one being served.
pub data Joined (req : ℕ) (queue r : List ℕ) : Type 0 where
  alone : queue ≡ [] → r ≡ req ∷ [] → Joined req queue r
  behind :
      (current : ℕ) (before after : List ℕ)
      → queue ≡ current ∷ (before ++ after)
      → r ≡ current ∷ (before ++ (req ∷ after))
      → Joined req queue r

-- Is the buffer's content as asked for already?
abbrev pub is_needless : (cmd : ℕ) → Buffer → Bool
is_needless cmd b = (cmd == write && not b.b_dirt) || (cmd == read && b.b_uptodate)

-- What `make_request` does with a buffer that is not locked.
pub data Placed (cmd : ℕ) (b : Buffer) (d : Device) (r : Made) : Type 0 where
  needless : is_needless cmd b ≡ true → r ≡ dropped (unlock_buffer b) → Placed cmd b d r
  full :
      ((i : ℕ) → i < places cmd → ltb_ℤ (d.request i).dev (pos 0) ≡ false)
      → r ≡ waits_for_request (lock_buffer b)
      → Placed cmd b d r
  placed :
      (slot : ℕ) (queue : List ℕ)
      → (slot < places cmd) × (ltb_ℤ (d.request slot).dev (pos 0) ≡ true)
      → Joined slot d.queue queue
      → r
        ≡ queued slot
            (is_empty d.queue)
            (record b { b_lock = true; b_dirt = false })
            (record { request = update d.request slot (new_request cmd b); queue = queue })
      → Placed cmd b d r
