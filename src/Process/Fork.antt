-- ===== src/Process/Fork.antt =====
-- linux-0.11/kernel/fork.c: find_empty_process. `last_pid` is a signed 32-bit integer.
use learn_linux.Common.{
  ℕ, zero, suc, ◌+◌, ◌-◌, ◌^◌, Bool, false, ◌||◌, Option, none, some, ◌==◌, ltb, if◌then◌else◌,
  is_some,
}
use learn_linux.Descriptors.{first_free}
use learn_linux.Task.{Task, Table, nr_tasks}

-- ++last_pid, and 1 where that is past the integers and so negative
unfoldable pub next_pid : (last_pid : ℕ) → ℕ
next_pid last_pid = if ltb (last_pid + 1) (2 ^ 31) then last_pid + 1 else 1

abbrev pub has_number : (pid : ℕ) → Option Task → Bool
has_number pid none = false
has_number pid (some t) = t.pid == pid

-- Does a task of the n slots from i on have the number?
unfoldable pub is_taken : (pid : ℕ) → Table → (i n : ℕ) → Bool
is_taken pid table i zero = false
is_taken pid table i (suc n) = has_number pid (table i) || is_taken pid table (i + 1) n

-- The loop at `repeat`, on fuel
unfoldable pub find_pid : (fuel last_pid : ℕ) → Table → Option ℕ
find_pid zero last_pid table = none
find_pid (suc fuel) last_pid table =
    let pid = next_pid last_pid in
    let again = find_pid fuel pid table in if is_taken pid table 0 nr_tasks then again else some pid

-- The new `last_pid`, and the slot, or none for -EAGAIN
pub record EmptyProcess : Type 0 where
  pub last_pid : ℕ
  pub slot : Option ℕ

-- The first slot from 1 on that is empty
abbrev pub empty_with : Table → Option ℕ → Option EmptyProcess
empty_with table none = none
empty_with table (some pid) =
    some record { last_pid = pid; slot = first_free (λ i. is_some (table i)) (nr_tasks - 1) 1 }

unfoldable pub find_empty_process : (fuel last_pid : ℕ) → Table → Option EmptyProcess
find_empty_process fuel last_pid table = empty_with table (find_pid fuel last_pid table)
