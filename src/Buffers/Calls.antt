-- ===== src/Buffers/Calls.antt =====
-- The calls of linux-0.11/fs/buffer.c after a block has its buffer.
use learn_linux.Common.{
  ℕ, zero, suc, ◌+◌, ◌-◌, ◌%◌, ◌<◌, ◌≡◌, refl, sym, ap, ◌∙◌, ◌≢◌, inl, inr, Bool, true, false, ◌&&◌,
  Option, none, some, arith, ◌==◌, ==_refl, ltb, Bool-cases, if◌then◌else◌, update,
}
use learn_linux.Buffers.{
  Buf, Cache, hash_fn, set_buf, find_in, find_buffer, Got, cached, given, waits_on, syncs, count_up,
  use_cached, choose, take_buffer, give, get_found, getblk, Released, released, sleeps, brelse,
  invalidate, invalidate_buffers,
}
use learn_linux.Buffers.Blocks.{IsCache, taken, take_buffer-taken}
use learn_linux.Buffers.Getting.{same_blocks}

-- The buffer as it is given to a caller who has not to wait.
unfoldable again : ℕ → Cache → Got
again b c = cached b (set_buf b (count_up (c.buf b)) c)

use_cached-again : (c : Cache) (b : ℕ) → (c.buf b).b_lock ≡ false → use_cached b c ≡ again b c
unfolding again
use_cached-again c b unlocked = rw unlocked refl

getblk-found :
    (c : Cache) (dev block b : ℕ)
    → find_buffer dev block c ≡ some b
    → (c.buf b).b_lock ≡ false
    → getblk dev block c ≡ again b c
unfolding getblk
getblk-found c dev block b found unlocked =
    ap (λ (o : Option ℕ). get_found dev block o c) found ∙ use_cached-again c b unlocked

module _ (c : Cache) (dev block : ℕ) (real : dev ≢ 0) where
  pub find_buffer-taken : (b : ℕ) → find_buffer dev block (taken c dev block b) ≡ some b
  unfolding find_buffer find_in
  find_buffer-taken b = rw (==_refl (hash_fn dev block), ==_refl b, ==_refl dev, ==_refl block) refl

  getblk-taken :
      (b : ℕ)
      → (c.buf b).b_lock ≡ false
      → getblk dev block (taken c dev block b) ≡ again b (taken c dev block b)
  getblk-taken b unlocked =
      getblk-found (taken c dev block b) dev block b (find_buffer-taken b) (rw (==_refl b) unlocked)

  give-again :
      (b : ℕ) (c' : Cache) (o : Option ℕ)
      → give dev block o c ≡ given b c'
      → getblk dev block c' ≡ again b c'
  give-again b c' none e = cc
  give-again b c' (some b') e = elim (Bool-cases (c.buf b').b_lock) [
    | inl is_locked ↦ let e' : waits_on b' c ≡ given b c' = rw is_locked at e in cc
    | inr unlocked ↦ elim (Bool-cases (c.buf b').b_dirt) [
      | inl is_dirty ↦
          let e' : syncs (c.buf b').b_dev ≡ given b c' = rw (unlocked, is_dirty) at e in cc
      | inr clean ↦
          let e' : given b' (take_buffer dev block b' c) ≡ given b c' = rw (unlocked, clean) at e in
          let taken' = take_buffer-taken c dev block b' real in
          let there : taken c dev block b' ≡ c' = cc in
          let here : b' ≡ b = cc in let next = getblk-taken b' unlocked in cc
    ]
  ]

  found-again :
      (b : ℕ) (c' : Cache) (o : Option ℕ)
      → get_found dev block o c ≡ given b c'
      → getblk dev block c' ≡ again b c'
  found-again b c' none e = give-again b c' (choose c.buf c.free_list none) e
  found-again b c' (some b') e = elim (Bool-cases (c.buf b').b_lock) [
    | inl is_locked ↦ let e' : waits_on b' _ ≡ given b c' = rw is_locked at e in cc
    | inr unlocked ↦ let e' : cached b' _ ≡ given b c' = rw unlocked at e in cc
  ]

-- Where getblk has given a new buffer to a block of a device, the next getblk for the block finds
-- that same buffer and counts it once more.
pub getblk-again :
    (c : Cache) (dev block b : ℕ) (c' : Cache)
    → dev ≢ 0
    → getblk dev block c ≡ given b c'
    → getblk dev block c' ≡ cached b (set_buf b (count_up (c'.buf b)) c')
unfolding getblk again
getblk-again c dev block b c' real e = found-again c dev block real b c' (find_buffer dev block c) e

abbrev pub unread : Buf → Buf
unread bh = record bh { b_uptodate = false; b_dirt = false }

-- Where the buffers below n are those of the device.
invalidate_lem :
    (dev n : ℕ) (buf : ℕ → Buf) (b : ℕ)
    → invalidate dev n buf b ≡ (if ltb b n && (buf b).b_dev == dev then unread (buf b) else buf b)
unfolding invalidate
invalidate_lem dev zero buf b =
    let none_below : ltb b 0 ≡ false = ground arith in rw none_below refl
invalidate_lem dev (suc n) buf b =
    let ih = invalidate_lem dev n buf b in
    elim (Bool-cases (n == b)) [
      | inl here ↦
          let e : n ≡ b = ground arith in
          let below : ltb b (suc b) ≡ true = ground arith in
          let apart : ltb b b ≡ false = ground arith in
          let before = rw (e, apart) at ih in
          elim (Bool-cases ((buf b).b_dev == dev)) [
            | inl its ↦ rw (e, its, below, ==_refl b) refl
            | inr others ↦ rw (e, others, below) before
          ]
      | inr apart ↦
          let same : ltb b (suc n) ≡ ltb b n = ground arith in
          elim (Bool-cases ((buf n).b_dev == dev)) [
            | inl its ↦ rw (its, apart, same) ih
            | inr others ↦ rw (others, same) ih
          ]
    ]

-- What `unread` leaves is left whether it is done or not.
if-unread {ℓ} :
    {A : Type ℓ} (part : Buf → A) (t : Bool) (bh : Buf)
    → part (unread bh) ≡ part bh
    → part (if t then unread bh else bh) ≡ part bh
if-unread part true bh e = e
if-unread part false bh e = refl

-- invalidate_buffers leaves every buffer in its queue and no two of one block; a buffer of the
-- device is neither up to date nor dirty then, and every other buffer is as it was.
invalidate_buffers_lem :
    (dev : ℕ) (c : Cache)
    → IsCache c
    → IsCache (invalidate_buffers dev c)
      × ((b : ℕ)
          → b < c.nr_buffers
          → (invalidate_buffers dev c).buf b
            ≡ (if (c.buf b).b_dev == dev then unread (c.buf b) else c.buf b))
unfolding invalidate_buffers
invalidate_buffers_lem dev c k =
    let n = c.nr_buffers in
    let kept = λ (a : ℕ). invalidate_lem dev n c.buf a in
    (
      same_blocks c (invalidate dev n c.buf) k
          (λ a. ap (λ (x : Buf). x.b_dev) (kept a) ∙ if-unread (λ x. x.b_dev) _ (c.buf a) refl)
          (λ a.
            ap (λ (x : Buf). x.b_blocknr) (kept a) ∙ if-unread (λ x. x.b_blocknr) _ (c.buf a) refl),
      λ b low. let below : ltb b n ≡ true = ground arith in let e = kept b in rw below at e,
    )

set_buf_twice :
    (c : Cache) (b : ℕ) (one two : Buf) → two ≡ c.buf b → set_buf b two (set_buf b one c) ≡ c
set_buf_twice c b one two e =
    let back = λ (q : ℕ).
      elim (Bool-cases (b == q)) as (λ _. update (update c.buf b one) b two q ≡ c.buf q) [
        | inl here ↦ let same : b ≡ q = ground arith in rw here (e ∙ ap c.buf same)
        | inr apart ↦ rw apart refl
      ] in
    λ i. record c { buf = λ q. back q i }

without_lock : (t : Bool) (r : Released) → t ≡ false → (if t then sleeps else r) ≡ r
without_lock t r e = rw e refl

brelse-use_cached :
    (c : Cache) (b : ℕ)
    → (c.buf b).b_lock ≡ false
    → (c.buf b).b_count < 255
    → brelse b (set_buf b (count_up (c.buf b)) c) ≡ released c
unfolding brelse
brelse-use_cached c b unlocked low =
    let positive : ((c.buf b).b_count + 1) % 256 == 0 ≡ false = ground arith in
    let down : ((c.buf b).b_count + 1) % 256 - 1 ≡ (c.buf b).b_count = omega arith in
    let bh = c.buf b in
    let one_less : record (count_up bh) { b_count = (bh.b_count + 1) % 256 - 1 } ≡ bh =
      ap (λ (m : ℕ). record bh { b_count = m }) down in
    let done = ap released (set_buf_twice c b (count_up bh) _ one_less) in
    rw (==_refl b, positive) (without_lock bh.b_lock _ unlocked ∙ done)

module _ (c : Cache) (dev block b : ℕ) (c' : Cache) (low : (c.buf b).b_count < 255) where
  give-brelse : (o : Option ℕ) → give dev block o c ≡ cached b c' → brelse b c' ≡ released c
  give-brelse none e = cc
  give-brelse (some b') e = elim (Bool-cases (c.buf b').b_lock) [
    | inl is_locked ↦ let e' : waits_on b' c ≡ cached b c' = rw is_locked at e in cc
    | inr unlocked ↦ elim (Bool-cases (c.buf b').b_dirt) [
      | inl is_dirty ↦
          let e' : syncs (c.buf b').b_dev ≡ cached b c' = rw (unlocked, is_dirty) at e in cc
      | inr clean ↦
          let e' : given b' (take_buffer dev block b' c) ≡ cached b c' =
            rw (unlocked, clean) at e in
          cc
    ]
  ]

  found-brelse : (o : Option ℕ) → get_found dev block o c ≡ cached b c' → brelse b c' ≡ released c
  unfolding again
  found-brelse none e = give-brelse (choose c.buf c.free_list none) e
  found-brelse (some b') e = elim (Bool-cases (c.buf b').b_lock) [
    | inl is_locked ↦ let e' : waits_on b' _ ≡ cached b c' = rw is_locked at e in cc
    | inr unlocked ↦
        let e' : cached b' (set_buf b' (count_up (c.buf b')) c) ≡ cached b c' =
          sym (use_cached-again c b' unlocked) ∙ e in
        let same : b' ≡ b = cc in
        let e'' : set_buf b' (count_up (c.buf b')) c ≡ c' = cc in
        let low' : (c.buf b').b_count < 255 = rw same low in
        let done = brelse-use_cached c b' unlocked low' in cc
  ]

  -- If getblk finds the block in a buffer that is used fewer than 255 times, then brelse of that
  -- buffer neither sleeps nor panics, and gives back the cache as it was before.
  pub getblk-brelse : getblk dev block c ≡ cached b c' → brelse b c' ≡ released c
  unfolding getblk
  getblk-brelse e = found-brelse (find_buffer dev block c) e
