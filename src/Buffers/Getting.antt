-- ===== src/Buffers/Getting.antt =====
-- getblk of linux-0.11/fs/buffer.c, and the calls that keep the blocks of the buffers.
use learn_linux.Common.{
  ℕ, ◌<◌, ◌≡◌, refl, sym, ap, ◌∙◌, ◌≢◌, inl, inr, true, false, Option, none, some, arith, ◌==◌,
  Bool-cases, update,
}
use learn_linux.Buffers.{
  Buf, Cache, set_buf, is_block, find_buffer, Got, given, waits_on, waits_for_any, syncs, count_up,
  use_cached, choose, fresh, take_buffer, give, get_found, getblk,
}
use learn_linux.Buffers.Lookup.{has, find_in-some, choose-is_unused, choose-has}
use learn_linux.Buffers.Lookup.{find_in-has, is_unused, choose-none}
use learn_linux.Buffers.Blocks.{IsCache, absent, taken, take_buffer-taken, taken-IsCache}

-- A call that leaves the block of every buffer keeps the cache.
pub same_blocks :
    (c : Cache) (buf' : ℕ → Buf)
    → IsCache c
    → ((a : ℕ) → (buf' a).b_dev ≡ (c.buf a).b_dev)
    → ((a : ℕ) → (buf' a).b_blocknr ≡ (c.buf a).b_blocknr)
    → IsCache (record c { buf = buf' })
same_blocks c buf' k devs blocks = record {
  listed = λ b low real. rw (devs b, blocks b) (k.listed b low (λ z. real (devs b ∙ z)));
  unique = λ a b a_low b_low real same.
      k.unique a b a_low b_low (λ z. real (devs a ∙ z))
        (rw (devs a, blocks a, devs b, blocks b) at same);
  queued_lt = k.queued_lt;
  free_lt = k.free_lt;
}

-- What is stored at one place agrees there, and so everywhere.
pub update_agrees {ℓ ℓ'} :
    {A : Type ℓ} {B : Type ℓ'} (part : A → B) (f : ℕ → A) (b : ℕ) (new : A)
    → part new ≡ part (f b)
    → (a : ℕ) → part (update f b new a) ≡ part (f a)
update_agrees part f b new e a = elim (Bool-cases (b == a)) [
  | inl here ↦ let same : b ≡ a = ground arith in rw here (e ∙ ap (λ (i : ℕ). part (f i)) same)
  | inr apart ↦ rw apart refl
]

pub set_buf-IsCache :
    (c : Cache) (b : ℕ) (new : Buf)
    → IsCache c
    → new.b_dev ≡ (c.buf b).b_dev
    → new.b_blocknr ≡ (c.buf b).b_blocknr
    → IsCache (set_buf b new c)
set_buf-IsCache c b new k d n =
    same_blocks c (update c.buf b new) k (update_agrees (λ (x : Buf). x.b_dev) c.buf b new d)
      (update_agrees (λ (x : Buf). x.b_blocknr) c.buf b new n)

pub give_clean :
    (c : Cache) (dev block b : ℕ)
    → (c.buf b).b_lock ≡ false
    → (c.buf b).b_dirt ≡ false
    → give dev block (some b) c ≡ given b (take_buffer dev block b c)
give_clean c dev block b unlocked clean = rw (unlocked, clean) refl

-- How `getblk` can end.
pub data GotBlock (c : Cache) (dev block : ℕ) : Got → Type 0 where
  hit :
      {r : Got} (b : ℕ)
      → b < c.nr_buffers
      → is_block dev block (c.buf b) ≡ true
      → IsCache (set_buf b (count_up (c.buf b)) c)
      → r ≡ use_cached b c
      → GotBlock c dev block r
  new :
      {r : Got} (b : ℕ)
      → b < c.nr_buffers
      → (c.buf b).b_count ≡ 0
      → (c.buf b).b_lock ≡ false
      → (c.buf b).b_dirt ≡ false
      → (c' : Cache) → c'.buf ≡ update c.buf b (fresh dev block (c.buf b))
      → IsCache c'
      → r ≡ given b c'
      → GotBlock c dev block r
  locked :
      {r : Got} (b : ℕ)
      → b < c.nr_buffers
      → (c.buf b).b_count ≡ 0
      → (c.buf b).b_lock ≡ true
      → r ≡ waits_on b c
      → GotBlock c dev block r
  dirty :
      {r : Got} (b : ℕ)
      → b < c.nr_buffers
      → (c.buf b).b_count ≡ 0
      → (c.buf b).b_dirt ≡ true
      → r ≡ syncs (c.buf b).b_dev
      → GotBlock c dev block r
  all_used :
      {r : Got}
      → ((b : ℕ) → has b c.free_list ≡ true → ((c.buf b).b_count == 0) ≡ false)
      → r ≡ waits_for_any
      → GotBlock c dev block r

module _ (c : Cache) (dev block : ℕ) (k : IsCache c) (real : dev ≢ 0) where
  given-GotBlock :
      find_buffer dev block c ≡ none
      → (o : Option ℕ) → choose c.buf c.free_list none ≡ o
      → GotBlock c dev block (give dev block o c)
  given-GotBlock missing none e = all_used (λ b h. choose-none c.buf c.free_list b e h) refl
  given-GotBlock missing (some b) e =
      let unused : is_unused c.buf (some b) ≡ true =
        ap (is_unused c.buf) (sym e) ∙ choose-is_unused c.buf c.free_list none refl in
      let zero_count : (c.buf b).b_count ≡ 0 = ground arith in
      let low : b < c.nr_buffers = elim (choose-has c.buf c.free_list none b e) [
        | inl z ↦ cc
        | inr h ↦ k.free_lt b h
      ] in
      elim (Bool-cases (c.buf b).b_lock) [
        | inl is_locked ↦ locked b low zero_count is_locked (rw is_locked refl)
        | inr unlocked ↦ elim (Bool-cases (c.buf b).b_dirt) [
          | inl is_dirty ↦ dirty b low zero_count is_dirty (rw (unlocked, is_dirty) refl)
          | inr clean ↦
              new b low zero_count unlocked clean (taken c dev block b) refl
                (taken-IsCache c dev block b k real low (absent c k dev block real missing))
                (give_clean c dev block b unlocked clean
                  ∙ ap (given b) (take_buffer-taken c dev block b real))
        ]
      ]

  found-GotBlock :
      (o : Option ℕ) → find_buffer dev block c ≡ o → GotBlock c dev block (get_found dev block o c)
  unfolding find_buffer
  found-GotBlock none e = given-GotBlock e _ refl
  found-GotBlock (some b) e =
      hit b (k.queued_lt _ b (find_in-has c.buf dev block _ b e))
        (find_in-some c.buf dev block _ b e) (set_buf-IsCache c b (count_up (c.buf b)) k refl refl)
        refl

  -- getblk for a block of a device, in a cache where every buffer of a device is in the queue of its
  -- block and no two buffers have one block: it counts the block's own buffer once more and returns
  -- it, or waits for its lock; or it takes from the free list a buffer that is unused, unlocked and
  -- clean, makes it the block's with a count of 1, and changes no other buffer, and in the new cache
  -- again every buffer is in its queue and no two have one block; or it waits for the lock of an
  -- unused buffer, or writes out the device of an unused dirty one; or every buffer of the free list
  -- is in use, and it waits for any.
  pub getblk-GotBlock : GotBlock c dev block (getblk dev block c)
  unfolding getblk
  getblk-GotBlock = found-GotBlock _ refl
