-- ===== src/Descriptors/Dup.antt =====
-- What `dupfd` does.
use learn_linux.Common.{
  Bool, ℕ, zero, suc, ◌+◌, ◌-◌, ◌%◌, ◌^◌, ◌≤◌, ◌<◌, ◌≡◌, refl, inl, inr, true, false, Option, none,
  some, arith, ◌==◌, leb, Bool-cases, update,
}
use learn_linux.Common.Int.{ℤ, pos}
use learn_linux.Common.Words.{without_bit}
use learn_linux.Task.{einval, emfile}
use learn_linux.Descriptors.{nr_open, Files, is_open, first_free, use_descriptor, dupfd}

-- What the search finds among the n descriptors from arg on.
pub data Found (used : ℕ → Bool) (n arg : ℕ) (o : Option ℕ) : Type 0 where
  found :
      (i : ℕ)
      → o ≡ some i
      → (arg ≤ i) × (i < arg + n)
      → used i ≡ false
      → ((j : ℕ) → arg ≤ j → j < i → used j ≡ true)
      → Found used n arg o
  all_used : o ≡ none → ((j : ℕ) → arg ≤ j → j < arg + n → used j ≡ true) → Found used n arg o

pub first_free-Found : (used : ℕ → Bool) (n arg : ℕ) → Found used n arg (first_free used n arg)
unfolding first_free
first_free-Found used zero arg = all_used refl λ j low high. absurd (omega arith)
first_free-Found used (suc n) arg = elim (Bool-cases (used arg)) [
  | inr free ↦
      found arg (rw (free, first_free) refl) (omega arith, omega arith) free
        λ j low high. absurd (omega arith)
  | inl taken ↦ elim (first_free-Found used n (suc arg)) [
    | found i e low free below ↦
        found i (rw (taken, first_free) e) (omega arith, omega arith) free
          λ j l h. elim (Bool-cases (arg == j)) [
            | inl here ↦ let same : arg ≡ j = ground arith in rw same at taken
            | inr later ↦ below j (ground arith) h
          ]
    | all_used e below ↦ all_used (rw (taken, first_free) e) λ j l h. elim (Bool-cases (arg == j)) [
      | inl here ↦ let same : arg ≡ j = ground arith in rw same at taken
      | inr later ↦ below j (ground arith) (omega arith)
    ]
  ]
]

-- What `dupfd` does with a descriptor that is open on `file`.
pub data Duped (file arg : ℕ) (s : Files) (r : Files × ℤ) : Type 0 where
  out_of_range : nr_open ≤ arg → r ≡ (s, einval) → Duped file arg s r
  no_descriptor :
      ((j : ℕ) → arg ≤ j → j < nr_open → is_open s j ≡ true) → r ≡ (s, emfile) → Duped file arg s r
  opened :
      (i : ℕ)
      → (arg ≤ i) × (i < nr_open)
      → is_open s i ≡ false
      → ((j : ℕ) → arg ≤ j → j < i → is_open s j ≡ true)
      → r ≡ (
        record s {
          close_on_exec = without_bit s.close_on_exec i;
          filp = update s.filp i (some file);
          f_count = update s.f_count file ((s.f_count file + 1) % 2 ^ 16);
        },
        pos i,
      )
      → Duped file arg s r

module _ (fd arg file : ℕ) (s : Files) where
  use_descriptor-Duped :
      arg < nr_open
      → (o : Option ℕ) → Found (is_open s) (nr_open - arg) arg o
      → Duped file arg s (use_descriptor file o s)
  use_descriptor-Duped high o (found i e low free below) =
      opened i (low.0, omega arith) free below (rw (e, use_descriptor) refl)
  use_descriptor-Duped high o (all_used e below) =
      no_descriptor (λ j l h. below j l (omega arith)) (rw (e, use_descriptor) refl)

  pub dupfd-Duped : fd < nr_open → s.filp fd ≡ some file → Duped file arg s (dupfd fd arg s)
  unfolding dupfd
  dupfd-Duped low open_at =
      let in_range : leb nr_open fd ≡ false = ground arith in
      elim (Bool-cases (leb nr_open arg)) [
        | inl out ↦ out_of_range (ground arith) (simp (in_range, open_at, out) refl)
        | inr inside ↦
            simp (in_range, open_at, inside)
              (use_descriptor-Duped (ground arith) _
                (first_free-Found (is_open s) (nr_open - arg) arg))
      ]
