-- ===== src/Process/Pids.antt =====
-- The end of the search for a process number in linux-0.11/kernel/fork.c.
use mathlib.Core.Path.{subst}
use learn_linux.Common.{
  ℕ, zero, suc, ◌+◌, ◌-◌, ◌^◌, ◌≤◌, ◌<◌, ◌≡◌, refl, sym, ap, ◌∙◌, ◌≢◌, inl, inr, Bool, true, false,
  ◌||◌, Option, none, some, List, [], ◌∷◌, length, arith, ◌==◌, ltb, Bool-cases, if◌then◌else◌,
  is_some,
}
use learn_linux.Task.{Task, Table, nr_tasks}
use learn_linux.Buffers.{remove}
use learn_linux.Buffers.Lookup.{has, has-remove}
use learn_linux.Descriptors.Dup.{Found, first_free-Found}
use learn_linux.Process.Fork.{
  next_pid, has_number, is_taken, find_pid, EmptyProcess, empty_with, find_empty_process,
}

length-remove_le : (b : ℕ) (l : List ℕ) → length (remove b l) ≤ length l
length-remove_le b [] = omega arith
length-remove_le b (x ∷ xs) = let ih = length-remove_le b xs in ground arith

length-remove : (b : ℕ) (l : List ℕ) → has b l ≡ true → length (remove b l) < length l
length-remove b [] h = cc
length-remove b (x ∷ xs) h = elim (Bool-cases (b == x)) [
  | inl here ↦ let le = length-remove_le b xs in rw here (omega arith)
  | inr other ↦ let ih = length-remove b xs (rw other at h) in rw other (omega arith)
]

-- The numbers of the tasks in the n slots from i on
abbrev numbers_of : Option Task → List ℕ → List ℕ
numbers_of none rest = rest
numbers_of (some t) rest = t.pid ∷ rest

unfoldable numbers : Table → (i n : ℕ) → List ℕ
numbers table i zero = []
numbers table i (suc n) = numbers_of (table i) (numbers table (i + 1) n)

length-numbers_of :
    (o : Option Task) (rest : List ℕ) → length (numbers_of o rest) ≤ suc (length rest)
length-numbers_of none rest = omega arith
length-numbers_of (some t) rest = omega arith

length-numbers : (table : Table) (n i : ℕ) → length (numbers table i n) ≤ n
unfolding numbers
length-numbers table zero i = omega arith
length-numbers table (suc n) i =
    let step = length-numbers_of (table i) (numbers table (i + 1) n) in
    let ih = length-numbers table n (i + 1) in omega arith

has-numbers_of :
    (pid : ℕ) (o : Option Task) (rest : List ℕ)
    → has pid (numbers_of o rest) ≡ has_number pid o || has pid rest
has-numbers_of pid none rest = refl
has-numbers_of pid (some t) rest = ground arith

has-numbers :
    (pid : ℕ) (table : Table) (n i : ℕ) → has pid (numbers table i n) ≡ is_taken pid table i n
unfolding numbers is_taken
has-numbers pid table zero i = refl
has-numbers pid table (suc n) i =
    has-numbers_of pid (table i) (numbers table (i + 1) n)
    ∙ ap (λ (b : Bool). has_number pid (table i) || b) (has-numbers pid table n (i + 1))

-- The number at the j-th try
unfoldable try_at : (last_pid j : ℕ) → ℕ
try_at last_pid j = if ltb (last_pid + j) (2 ^ 31) then last_pid + j else last_pid + j + 1 - 2 ^ 31

next_pid-lt : (last : ℕ) → next_pid last < 2 ^ 31
unfolding next_pid
next_pid-lt last = ground arith

next_pid-pos : (last : ℕ) → 1 ≤ next_pid last
unfolding next_pid
next_pid-pos last = ground arith

try_at-one : (last : ℕ) → last < 2 ^ 31 → try_at last 1 ≡ next_pid last
unfolding try_at next_pid
try_at-one last low = ground arith

try_at-next_pid :
    (last j : ℕ) → last < 2 ^ 31 → 1 ≤ j → j ≤ 1000 → try_at (next_pid last) j ≡ try_at last (j + 1)
unfolding try_at next_pid
try_at-next_pid last j low j_pos j_le = ground arith

try_at-differs : (last j : ℕ) → last < 2 ^ 31 → 1 ≤ j → j ≤ 1000 → (try_at last j == last) ≡ false
unfolding try_at
try_at-differs last j low j_pos j_le = ground arith

-- A list that has the numbers of n tries has as many members.
tries_fit :
    (n last : ℕ) (l : List ℕ)
    → last < 2 ^ 31
    → n ≤ 1000
    → ((j : ℕ) → 1 ≤ j → j ≤ n → has (try_at last j) l ≡ true)
    → n ≤ length l
tries_fit zero last l low small all = omega arith
tries_fit (suc n) last l low small all =
    let pid = next_pid last in
    let first : has pid l ≡ true =
      ap (λ (q : ℕ). has q l) (sym (try_at-one last low)) ∙ all 1 (omega arith) (omega arith) in
    let fewer = length-remove pid l first in
    let rest = tries_fit n pid (remove pid l) (next_pid-lt last) (omega arith) λ j pos le.
      let apart = try_at-differs pid j (next_pid-lt last) pos (omega arith) in
      let next = try_at-next_pid last j low pos (omega arith) in
      has-remove (try_at pid j) pid l apart
      ∙ ap (λ (q : ℕ). has q l) next
      ∙ all (j + 1) (omega arith) (omega arith) in
    omega arith

module _ (table : Table) where
  -- A search that ends without a number has found all of its tries taken.
  find_pid-none :
      (fuel last : ℕ)
      → last < 2 ^ 31
      → fuel ≤ 1000
      → find_pid fuel last table ≡ none
      → (j : ℕ) → 1 ≤ j
      → j ≤ fuel
      → is_taken (try_at last j) table 0 nr_tasks ≡ true
  unfolding find_pid
  find_pid-none zero last low small e j pos le = let no : ⊥ = omega arith in elim no [ ]
  find_pid-none (suc fuel) last low small e j pos le =
      let pid = next_pid last in
      elim (Bool-cases (is_taken pid table 0 nr_tasks)) [
        | inr free ↦ let e' : some pid ≡ none = rw (free, find_pid) at e in cc
        | inl taken ↦
            let e' : find_pid fuel pid table ≡ none = rw (taken, find_pid) at e in
            elim (Bool-cases (j == 1)) [
              | inl one ↦
                  let is_1 : j ≡ 1 = ground arith in
                  ap (λ (q : ℕ). is_taken (try_at last q) table 0 nr_tasks) is_1
                  ∙ ap (λ (q : ℕ). is_taken q table 0 nr_tasks) (try_at-one last low)
                  ∙ taken
              | inr later ↦
                  let ih =
                    find_pid-none fuel pid (next_pid-lt last) (omega arith) e' (j - 1)
                      (ground arith) (ground arith) in
                  let next = try_at-next_pid last (j - 1) low (ground arith) (ground arith) in
                  let up : j - 1 + 1 ≡ j = ground arith in
                  ap (λ (q : ℕ). is_taken q table 0 nr_tasks) (sym (next ∙ ap (try_at last) up))
                  ∙ ih
            ]
      ]

  find_pid-some :
      (fuel last pid : ℕ)
      → find_pid fuel last table ≡ some pid
      → (is_taken pid table 0 nr_tasks ≡ false) × (1 ≤ pid) × (pid < 2 ^ 31)
  unfolding find_pid
  find_pid-some zero last pid e = cc
  find_pid-some (suc fuel) last pid e =
      elim (Bool-cases (is_taken (next_pid last) table 0 nr_tasks)) [
        | inr free ↦
            let e' : some (next_pid last) ≡ some pid = rw (free, find_pid) at e in
            let same : next_pid last ≡ pid = cc in
            let low = next_pid-lt last in
            let pos = next_pid-pos last in
            subst (λ (q : ℕ). (is_taken q table 0 nr_tasks ≡ false) × (1 ≤ q) × (q < 2 ^ 31)) same
              (free, pos, low)
        | inl taken ↦ find_pid-some fuel (next_pid last) pid (rw (taken, find_pid) at e)
      ]

  -- One of 65 tries is free, since there are 64 tasks.
  repeat_ends : (last : ℕ) → last < 2 ^ 31 → find_pid 65 last table ≢ none
  repeat_ends last low e =
      let taken = find_pid-none 65 last low (omega arith) e in
      let fit =
        tries_fit 65 last (numbers table 0 nr_tasks) low (omega arith)
          λ j pos le. has-numbers (try_at last j) table nr_tasks 0 ∙ taken j pos le in
      let size = length-numbers table nr_tasks 0 in omega arith

  not_taken :
      (pid n i : ℕ)
      → is_taken pid table i n ≡ false
      → (j : ℕ) → i ≤ j
      → j < i + n
      → has_number pid (table j) ≡ false
  unfolding is_taken
  not_taken pid zero i e j low high = let no : ⊥ = omega arith in elim no [ ]
  not_taken pid (suc n) i e j low high = elim (Bool-cases (j == i)) [
    | inl here ↦
        let same : j ≡ i = ground arith in
        let first : has_number pid (table i) ≡ false = ground arith in rw same first
    | inr later ↦ not_taken pid n (i + 1) (ground arith) j (ground arith) (omega arith)
  ]

  -- What `find_empty_process` gives: a new number, and the first empty slot or none
  pub data FoundEmpty : Option EmptyProcess → Type 0 where
    found_empty :
        {r : Option EmptyProcess} (e : EmptyProcess)
        → r ≡ some e
        → 1 ≤ e.last_pid
        → e.last_pid < 2 ^ 31
        → ((i : ℕ) → i < nr_tasks → has_number e.last_pid (table i) ≡ false)
        → Found (λ i. is_some (table i)) (nr_tasks - 1) 1 e.slot
        → FoundEmpty r

  with-FoundEmpty :
      (last : ℕ) (o : Option ℕ)
      → last < 2 ^ 31
      → find_pid 65 last table ≡ o
      → FoundEmpty (empty_with table o)
  with-FoundEmpty last none low e = let no = repeat_ends last low e in elim no [ ]
  with-FoundEmpty last (some pid) low e =
      let new = find_pid-some 65 last pid e in
      found_empty _ refl new.1 new.2 (λ i i_lt. not_taken pid nr_tasks 0 new.0 i (omega arith) i_lt)
        (first_free-Found (λ i. is_some (table i)) (nr_tasks - 1) 1)

  -- For any table of tasks and any last_pid that is a non-negative integer of 31 bits, the search of
  -- find_empty_process ends within 65 tries: the new last_pid is positive and the number of no task,
  -- and the result is the first empty slot from 1 on, or none where the slots 1 to 63 are all in
  -- use.
  pub find_empty_process-FoundEmpty :
      (last_pid : ℕ) → last_pid < 2 ^ 31 → FoundEmpty (find_empty_process 65 last_pid table)
  unfolding find_empty_process
  find_empty_process-FoundEmpty last_pid low =
      with-FoundEmpty last_pid (find_pid 65 last_pid table) low refl
