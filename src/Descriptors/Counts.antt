-- ===== src/Descriptors/Counts.antt =====
-- The use counts of the files agree with the descriptors.
use learn_linux.Common.{
  ℕ, zero, suc, ◌+◌, ◌-◌, ◌%◌, ◌^◌, ◌≤◌, ◌<◌, ◌≡◌, refl, ap, inl, inr, true, false, Option, none,
  some, arith, ◌==◌, ==_refl, leb, Bool-cases, Option-cases, if◌then◌else◌, update,
}
use learn_linux.Common.Int.{ℤ, pos}
use learn_linux.Common.Words.{without_bit}
use learn_linux.Task.{einval}
use learn_linux.Descriptors.{nr_open, Files, is_open, dupfd}
use learn_linux.Descriptors.Dup.{Duped, out_of_range, no_descriptor, opened, dupfd-Duped}
use learn_linux.Descriptors.Opening.{
  Closed, done, clear_close, close_file, sys_close, dup_after, sys_dup2,
}

abbrev pub holds : Option ℕ → (file : ℕ) → ℕ
holds none file = 0
holds (some g) file = if g == file then 1 else 0

-- How many of the first n descriptors are open on the file.
unfoldable pub uses : (filp : ℕ → Option ℕ) (n file : ℕ) → ℕ
uses filp zero file = 0
uses filp (suc n) file = holds (filp n) file + uses filp n file

-- Each use count is the number of the task's descriptors on the file, and of the uses by other
-- tasks, which are fewer than an unsigned short holds.
pub record IsCounted (others : ℕ → ℕ) (s : Files) : Type 0 where
  pub counted : (file : ℕ) → s.f_count file ≡ uses s.filp nr_open file + others file
  pub few : (file : ℕ) → others file + nr_open + 1 < 2 ^ 16

uses_above :
    (filp : ℕ → Option ℕ) (n i : ℕ) (o : Option ℕ) (file : ℕ)
    → n ≤ i
    → uses (update filp i o) n file ≡ uses filp n file
unfolding uses
uses_above filp zero i o file low = refl
uses_above filp (suc n) i o file low =
    let ih = uses_above filp n i o file (omega arith) in
    let e : (i == n) ≡ false = ground arith in rw (e, ih) refl

-- One descriptor changes.
pub uses-update :
    (filp : ℕ → Option ℕ) (n i : ℕ) (o : Option ℕ) (file : ℕ)
    → i < n
    → uses (update filp i o) n file + holds (filp i) file ≡ uses filp n file + holds o file
unfolding uses
uses-update filp zero i o file low = absurd (omega arith)
uses-update filp (suc n) i o file low = elim (Bool-cases (i == n)) [
  | inl here ↦
      let e : i ≡ n = ground arith in
      let rest = uses_above filp n i o file (omega arith) in rw (here, rest, e) (omega arith)
  | inr other ↦ let ih = uses-update filp n i o file (ground arith) in rw other (omega arith)
]

uses-le : (filp : ℕ → Option ℕ) (n file : ℕ) → uses filp n file ≤ n
unfolding uses
uses-le filp zero file = omega arith
uses-le filp (suc n) file =
    let ih = uses-le filp n file in
    elim (Option-cases (filp n)) [
      | inl free ↦ rw free (omega arith)
      | inr (g, at) ↦ rw at (ground (arith, ih))
    ]

-- The call returns, with the counts right.
pub data Kept (others : ℕ → ℕ) (r : Closed) : Type 0 where
  kept :
      (s : Files) (result : ℤ) (put : Option ℕ)
      → r ≡ done s result put
      → IsCounted others s
      → Kept others r

module _ (others : ℕ → ℕ) (s : Files) (c : IsCounted others s) where
  dropped-IsCounted :
      (fd file : ℕ)
      → fd < nr_open
      → s.filp fd ≡ some file
      → (g : ℕ)
      → update s.f_count file (s.f_count file - 1) g
        ≡ uses (update s.filp fd none) nr_open g + others g
  dropped-IsCounted fd file low at g =
      let u = uses-update s.filp nr_open fd none g low in
      let n = c.counted g in
      elim (Bool-cases (file == g)) [
        | inl here ↦
            let same : s.f_count file ≡ s.f_count g = ap s.f_count (ground arith) in
            let one : holds (s.filp fd) g ≡ 1 = rw (at, here) refl in rw here (omega arith)
        | inr other ↦
            let no_use : holds (s.filp fd) g ≡ 0 = rw (at, other) refl in rw other (omega arith)
      ]

  -- A descriptor that is open has its file counted.
  counted_once :
      (fd file : ℕ) → fd < nr_open → s.filp fd ≡ some file → (s.f_count file == 0) ≡ false
  counted_once fd file low at =
      let u = uses-update s.filp nr_open fd none file low in
      let n = c.counted file in
      let one : holds (s.filp fd) file ≡ 1 = rw (at, ==_refl file) refl in ground arith

  close_file-Kept :
      (fd : ℕ) (o : Option ℕ)
      → fd < nr_open
      → s.filp fd ≡ o
      → Kept others (close_file fd o (clear_close fd s))
  close_file-Kept fd none low at =
      kept (clear_close fd s) _ _ refl (record { counted = c.counted; few = c.few })
  close_file-Kept fd (some file) low at =
      let counted = dropped-IsCounted fd file low at in
      let s' : Files = record s {
        close_on_exec = without_bit s.close_on_exec fd;
        filp = update s.filp fd none;
        f_count = update s.f_count file (s.f_count file - 1);
      } in
      elim (Bool-cases (s.f_count file == 1)) [
        | inl last ↦
            kept s' (pos 0) (s.f_inode file) (simp (counted_once fd file low at, last) refl)
              (record { counted = counted; few = c.few })
        | inr more ↦
            kept s' (pos 0) none (simp (counted_once fd file low at, more) refl)
              (record { counted = counted; few = c.few })
      ]

  -- `sys_close` of any descriptor never panics, and keeps the use counts right.
  pub sys_close-Kept : (fd : ℕ) → Kept others (sys_close fd s)
  unfolding sys_close
  sys_close-Kept fd = elim (Bool-cases (leb nr_open fd)) [
    | inl out ↦ kept s einval none (rw out refl) c
    | inr inside ↦ rw inside (close_file-Kept fd (s.filp fd) (ground arith) refl)
  ]

  use-IsCounted :
      (file i : ℕ)
      → i < nr_open
      → is_open s i ≡ false
      → (g : ℕ)
      → update s.f_count file ((s.f_count file + 1) % 2 ^ 16) g
        ≡ uses (update s.filp i (some file)) nr_open g + others g
  use-IsCounted file i low free g =
      let u = uses-update s.filp nr_open i (some file) g low in
      let n = c.counted g in
      let bound = uses-le s.filp nr_open g in
      let f = c.few g in
      let no_use : holds (s.filp i) g ≡ 0 = elim (Option-cases (s.filp i)) [
        | inl none_there ↦ rw none_there refl
        | inr (h, at) ↦ let taken : is_open s i ≡ true = rw at refl in cc
      ] in
      elim (Bool-cases (file == g)) [
        | inl here ↦
            let same : s.f_count file ≡ s.f_count g = ap s.f_count (ground arith) in
            let one : holds (some file) g ≡ 1 = rw here refl in rw here (omega arith)
        | inr other ↦
            let no_more : holds (some file) g ≡ 0 = rw other refl in rw other (omega arith)
      ]

  Duped-IsCounted : (file arg : ℕ) (r : Files × ℤ) → Duped file arg s r → IsCounted others r.0
  Duped-IsCounted file arg r (out_of_range out e) = rw e c
  Duped-IsCounted file arg r (no_descriptor used e) = rw e c
  Duped-IsCounted file arg r (opened i low free below e) =
      rw e (record { counted = use-IsCounted file i low.1 free; few = c.few })

  -- So does `dupfd` of any descriptors.
  dupfd-IsCounted : (fd arg : ℕ) → IsCounted others (dupfd fd arg s).0
  unfolding dupfd
  dupfd-IsCounted fd arg = elim (Bool-cases (leb nr_open fd)) [
    | inl out ↦ rw out c
    | inr inside ↦ elim (Option-cases (s.filp fd)) [
      | inl free ↦ simp (inside, free) c
      | inr (file, at) ↦
          Duped-IsCounted file arg (dupfd fd arg s) (dupfd-Duped fd arg file s (ground arith) at)
    ]
  ]

dup_after-Kept :
    (others : ℕ → ℕ) (oldfd newfd : ℕ) (r : Closed)
    → Kept others r
    → Kept others (dup_after oldfd newfd r)
dup_after-Kept others oldfd newfd r (kept s result put e c) =
    kept (dupfd oldfd newfd s).0 (dupfd oldfd newfd s).1 put (rw (e, dup_after) refl)
      (dupfd-IsCounted others s c oldfd newfd)

-- `sys_close` and `sys_dup2` of any descriptors never panic, and keep every file's use count equal to
-- the number of descriptors on it, of the task and of others, which are fewer than an unsigned
-- short holds; `dupfd` keeps it too.
pub descriptors-Kept :
    (others : ℕ → ℕ) (s : Files) (fd arg : ℕ)
    → IsCounted others s
    → Kept others (sys_close fd s)
      × Kept others (sys_dup2 fd arg s)
      × IsCounted others (dupfd fd arg s).0
unfolding sys_dup2
descriptors-Kept others s fd arg c = (
  sys_close-Kept others s c fd,
  dup_after-Kept others fd arg (sys_close arg s) (sys_close-Kept others s c arg),
  dupfd-IsCounted others s c fd arg,
)
