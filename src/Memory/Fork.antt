-- ===== src/Memory/Fork.antt =====
-- `copy_page_tables` after a fork: the entries of a table and of its copy, and the use counts.
use learn_linux.Common.{
  ℕ, zero, suc, ◌+◌, ◌*◌, ◌%◌, ◌≤◌, ◌<◌, ◌≡◌, refl, ◌∙◌, ◌≢◌, ◌⊎◌, Bool, arith, ◌&&◌, ◌==◌, ltb,
  if◌then◌else◌, update,
}
use learn_linux.Memory.{Mm, done, ◌>>=◌, low_mem, map_nr}
use learn_linux.Memory.Tables.{present, read_only, copy_entry, copy_entries}

-- Is the page of the entry one that is shared and counted?
abbrev pub is_shared : ℕ → Bool
is_shared e = present e && ltb low_mem (read_only e)

-- What becomes of an entry of the parent, and of the child where `e` is the parent's.
abbrev pub parent_entry : ℕ → ℕ
parent_entry e = if is_shared e then read_only e else e

abbrev pub child_entry : (e old : ℕ) → ℕ
child_entry e old = if present e then read_only e else old

-- How many of the `nr` entries from `from` on share the page `i`.
pub shares : (nr from : ℕ) → (ℕ → ℕ) → ℕ → ℕ
shares zero from w i = 0
shares (suc nr) from w i =
    (if is_shared (w from) && map_nr (read_only (w from)) == i then 1 else 0)
    + shares nr (from + 4) w i

shares_same :
    (nr from : ℕ) (v w : ℕ → ℕ) (i : ℕ)
    → ((a : ℕ) → from ≤ a → a < from + 4 * nr → v a ≡ w a)
    → shares nr from v i ≡ shares nr from w i
unfolding shares
shares_same zero from v w i same = refl
shares_same (suc nr) from v w i same = rw (
  same from (omega arith) (omega arith),
  shares_same nr (from + 4) v w i (λ a h h'. same a (omega arith) (omega arith)),
)

-- The tables do not overlap.
abbrev pub Apart : (nr from to : ℕ) → Type 0
Apart nr from to = (from + 4 * nr ≤ to) ⊎ (to + 4 * nr ≤ from)

abbrev pub Outside : (nr table a : ℕ) → Type 0
Outside nr table a = (a < table) ⊎ (table + 4 * nr ≤ a)

-- The state `t` after `nr` entries from `from` on are copied to `to`, in the state `s`.
pub record IsForked (nr from to : ℕ) (s t : Mm) : Type 0 where
  pub parent : (k : ℕ) → k < nr → t.word (from + 4 * k) ≡ parent_entry (s.word (from + 4 * k))
  pub child :
      (k : ℕ)
      → k < nr
      → t.word (to + 4 * k) ≡ child_entry (s.word (from + 4 * k)) (s.word (to + 4 * k))
  pub others : (a : ℕ) → Outside nr from a → Outside nr to a → t.word a ≡ s.word a
  pub counts : (i : ℕ) → t.mem_map i % 256 ≡ (s.mem_map i + shares nr from s.word i) % 256

-- One round.
after_entry : (from to : ℕ) → Mm → Mm
after_entry from to s = record s {
  word =
      if present (s.word from)
      then (if is_shared (s.word from)
          then update (update s.word to (read_only (s.word from))) from (read_only (s.word from))
          else update s.word to (read_only (s.word from)))
      else s.word;
  mem_map =
      if is_shared (s.word from)
      then update s.mem_map (map_nr (read_only (s.word from)))
          ((s.mem_map (map_nr (read_only (s.word from))) + 1) % 256)
      else s.mem_map;
}

copy_entry_lem : (from to : ℕ) (s : Mm) → copy_entry from to s ≡ done tt (after_entry from to s)
unfolding copy_entry after_entry
copy_entry_lem from to s = ground arith

copy_entries-suc :
    (nr from to : ℕ) (s : Mm)
    → copy_entries (suc nr) from to s ≡ copy_entries nr (from + 4) (to + 4) (after_entry from to s)
copy_entries-suc nr from to s =
    let e = copy_entry_lem from to s in unfold copy_entries in rw (e, ◌>>=◌)

module _ (from to : ℕ) (s : Mm) where
  after_from : from ≢ to → (after_entry from to s).word from ≡ parent_entry (s.word from)
  unfolding after_entry
  after_from ne = ground arith

  after_to : from ≢ to → (after_entry from to s).word to ≡ child_entry (s.word from) (s.word to)
  unfolding after_entry
  after_to ne = ground arith

  after_other : (a : ℕ) → a ≢ from → a ≢ to → (after_entry from to s).word a ≡ s.word a
  unfolding after_entry
  after_other a ne ne' = ground arith

  after_counts :
      (i : ℕ)
      → (after_entry from to s).mem_map i % 256
        ≡ (s.mem_map i
            + (if is_shared (s.word from) && map_nr (read_only (s.word from)) == i then 1 else 0))
          % 256
  unfolding after_entry
  after_counts i = ground arith

Apart-ne : (nr from to : ℕ) → Apart (suc nr) from to → from ≢ to
Apart-ne nr from to apart = omega arith

-- The round for the first entry, in front of those for the rest.
module _ (nr from to : ℕ) (s t : Mm) (apart : Apart (suc nr) from to)
    (rest : IsForked nr (from + 4) (to + 4) (after_entry from to s) t) where
  parent_step : (k : ℕ) → k < suc nr → t.word (from + 4 * k) ≡ parent_entry (s.word (from + 4 * k))
  parent_step zero h =
      let e : from + 4 * 0 ≡ from = omega arith in
      rw (e, rest.others from (omega arith) (omega arith))
        (after_from from to s (Apart-ne nr from to apart))
  parent_step (suc k) h =
      let e : from + 4 * suc k ≡ from + 4 + 4 * k = omega arith in
      rw (
        e,
        rest.parent k (omega arith),
        after_other from to s (from + 4 + 4 * k) (omega arith) (omega arith),
      )

  child_step :
      (k : ℕ)
      → k < suc nr
      → t.word (to + 4 * k) ≡ child_entry (s.word (from + 4 * k)) (s.word (to + 4 * k))
  child_step zero h =
      let e : from + 4 * 0 ≡ from = omega arith in
      let e' : to + 4 * 0 ≡ to = omega arith in
      rw (e, e', rest.others to (omega arith) (omega arith))
        (after_to from to s (Apart-ne nr from to apart))
  child_step (suc k) h =
      let e : from + 4 * suc k ≡ from + 4 + 4 * k = omega arith in
      let e' : to + 4 * suc k ≡ to + 4 + 4 * k = omega arith in
      rw (
        e,
        e',
        rest.child k (omega arith),
        after_other from to s (from + 4 + 4 * k) (omega arith) (omega arith),
        after_other from to s (to + 4 + 4 * k) (omega arith) (omega arith),
      )

  counts_step : (i : ℕ) → t.mem_map i % 256 ≡ (s.mem_map i + shares (suc nr) from s.word i) % 256
  unfolding shares
  counts_step i =
      let same =
        shares_same nr (from + 4) (after_entry from to s).word s.word i
          (λ a h h'. after_other from to s a (omega arith) (omega arith)) in
      omega (arith, rest.counts i, after_counts from to s i, same)

  IsForked-step : IsForked (suc nr) from to s t
  IsForked-step = record {
    parent = parent_step;
    child = child_step;
    others = λ a h h'.
        rest.others a (omega arith) (omega arith)
        ∙ after_other from to s a (omega arith) (omega arith);
    counts = counts_step;
  }

-- `copy_entries` copies the entries of a table, when the two tables do not overlap, and never stops
-- the kernel: each entry that is present is copied with the write bit off, and if it points above
-- the kernel's megabyte the parent's is read-only from then on too; the use count of each page goes
-- up by the number of entries that share it, as an unsigned char; no other word is changed.
pub copy_entries-IsForked :
    (nr from to : ℕ) (s : Mm)
    → Apart nr from to
    → (t : Mm) × (copy_entries nr from to s ≡ done tt t) × IsForked nr from to s t
copy_entries-IsForked zero from to s apart = (
  s,
  unfold copy_entries in refl,
  record {
    parent = λ k h. absurd (omega arith);
    child = λ k h. absurd (omega arith);
    others = λ a h h'. refl;
    counts = λ i. unfold shares in omega arith;
  },
)
copy_entries-IsForked (suc nr) from to s apart =
    let (t, runs, forked) =
      copy_entries-IsForked nr (from + 4) (to + 4) (after_entry from to s) (omega arith) in
    (t, copy_entries-suc nr from to s ∙ runs, IsForked-step nr from to s t apart forked)
