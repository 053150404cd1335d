-- ===== src/Sched/Wakeups.antt =====
-- What the first loop of `schedule` does to each task.

use learn_linux.Common.{
  ℕ, zero, suc, ◌≡◌, inl, inr, Option, none, some, arith, ◌&&◌, not, ◌==◌, leb, if◌then◌else◌,
  update, Option-cases,
}
use learn_linux.Task.{Task, Table}
use learn_linux.Sched.{for_tasks}

abbrev pub map_option : (Task → Task) → Option Task → Option Task
map_option f none = none
map_option f (some t) = some (f t)

-- The loop over the tasks changes each of the slots 1 to n by the function, and no other slot.
pub for_tasks_lem :
    (f : Task → Task) (n : ℕ) (table : Table) (i : ℕ)
    → for_tasks f n table i ≡ (if not (i == 0) && leb i n then map_option f (table i) else table i)
unfolding for_tasks
for_tasks_lem f zero table i = ground arith
for_tasks_lem f (suc n) table i = elim (Option-cases (table (suc n))) [
  | inl e ↦ rw (e, for_tasks) (ground (arith, for_tasks_lem f n table i))
  | inr (t, e) ↦
      rw (e, for_tasks) (ground (arith, for_tasks_lem f n (update table (suc n) (some (f t))) i))
]
