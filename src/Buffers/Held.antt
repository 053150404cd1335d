-- ===== src/Buffers/Held.antt =====
-- The buffer that a call of linux-0.11/fs/buffer.c has found holds its block as long as no other takes
-- it.
use mathlib.Core.Path.{subst}
use learn_linux.Common.{
  ℕ, ◌-◌, ◌≡◌, refl, sym, ap, ◌∙◌, ◌≢◌, inl, inr, Bool, false, Option, none, some, List, [], ◌∷◌,
  arith, ◌==◌, ==_refl, Bool-cases, if◌then◌else◌, update,
}
use learn_linux.Buffers.{
  Buf, Cache, set_buf, is_block, find_in, find_buffer, Got, cached, given, waits_on, waits_for_any,
  syncs, count_up, use_cached, choose, give, get_found, getblk, Released, released, sleeps, panics,
  brelse,
}
use learn_linux.Buffers.Blocks.{taken, take_buffer-taken}
use learn_linux.Buffers.Getting.{update_agrees, give_clean}
use learn_linux.Buffers.Calls.{find_buffer-taken}

find_in_ext :
    (buf buf' : ℕ → Buf) (dev block : ℕ)
    → ((a : ℕ) → is_block dev block (buf' a) ≡ is_block dev block (buf a))
    → (l : List ℕ) → find_in buf' dev block l ≡ find_in buf dev block l
unfolding find_in
find_in_ext buf buf' dev block same [] = refl
find_in_ext buf buf' dev block same (x ∷ xs) =
    rw (same x, find_in_ext buf buf' dev block same xs) refl

-- A change of a buffer that keeps its block changes no search.
pub find_buffer-set_buf :
    (c : Cache) (dev block b : ℕ) (new : Buf)
    → is_block dev block new ≡ is_block dev block (c.buf b)
    → find_buffer dev block (set_buf b new c) ≡ find_buffer dev block c
unfolding find_buffer
find_buffer-set_buf c dev block b new same =
    find_in_ext c.buf (update c.buf b new) dev block
      (update_agrees (is_block dev block) c.buf b new same) _

pub use_cached_free :
    (c : Cache) (b : ℕ)
    → (c.buf b).b_lock ≡ false
    → use_cached b c ≡ cached b (set_buf b (count_up (c.buf b)) c)
use_cached_free c b unlocked = rw unlocked refl

-- The buffer is found, and is not locked.
abbrev pub IsHeld : (dev block b : ℕ) → Cache → Type 0
IsHeld dev block b c = (find_buffer dev block c ≡ some b) × ((c.buf b).b_lock ≡ false)

abbrev pub Holds : (dev block : ℕ) → Got → Type 0
Holds dev block (cached b c) = IsHeld dev block b c
Holds dev block (given b c) = IsHeld dev block b c × ((c.buf b).b_count ≡ 1)
Holds dev block (waits_on b c) = Unit
Holds dev block waits_for_any = Unit
Holds dev block (syncs other) = Unit

module _ (c : Cache) (dev block : ℕ) (real : dev ≢ 0) where
  give-Holds : (o : Option ℕ) → Holds dev block (give dev block o c)
  give-Holds none = tt
  give-Holds (some b) = elim (Bool-cases (c.buf b).b_lock) [
    | inl is_locked ↦ rw is_locked tt
    | inr unlocked ↦ elim (Bool-cases (c.buf b).b_dirt) [
      | inl is_dirty ↦ rw (unlocked, is_dirty) tt
      | inr clean ↦
          let e =
            give_clean c dev block b unlocked clean
            ∙ ap (given b) (take_buffer-taken c dev block b real) in
          let held : IsHeld dev block b (taken c dev block b) =
            (find_buffer-taken c dev block real b, rw (==_refl b) unlocked) in
          subst (Holds dev block) (sym e) (held, rw (==_refl b) refl)
    ]
  ]

  found-Holds :
      (o : Option ℕ) → find_buffer dev block c ≡ o → Holds dev block (get_found dev block o c)
  found-Holds none e = give-Holds (choose c.buf c.free_list none)
  found-Holds (some b) e = elim (Bool-cases (c.buf b).b_lock) [
    | inl is_locked ↦ rw is_locked tt
    | inr unlocked ↦
        let kept = find_buffer-set_buf c dev block b (count_up (c.buf b)) refl in
        subst (Holds dev block) (sym (use_cached_free c b unlocked))
          (kept ∙ e, rw (==_refl b) unlocked)
  ]

  -- What `getblk` returns is the buffer of the block, and is not locked.
  pub getblk-Holds : Holds dev block (getblk dev block c)
  unfolding getblk
  getblk-Holds = found-Holds (find_buffer dev block c) refl

without_stop :
    (t p : Bool) (r : Released)
    → t ≡ false
    → p ≡ false
    → (if t then sleeps else if p then panics else r) ≡ r
without_stop t p r e e' = rw (e, e') refl

-- The last use of a buffer ends.
pub brelse_last :
    (c : Cache) (b : ℕ)
    → (c.buf b).b_lock ≡ false
    → (c.buf b).b_count ≡ 1
    → brelse b c ≡ released (set_buf b (record (c.buf b) { b_count = 0 }) c)
unfolding brelse
brelse_last c b unlocked once =
    let positive : (c.buf b).b_count == 0 ≡ false = ground arith in
    let last : (c.buf b).b_count - 1 ≡ 0 = omega arith in
    without_stop _ _ _ unlocked positive
    ∙ ap (λ (m : ℕ). released (set_buf b (record (c.buf b) { b_count = m }) c)) last
