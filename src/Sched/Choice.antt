-- ===== src/Sched/Choice.antt =====
-- The choice that `schedule` makes, and that its endless loop ends.
use native.Mathlib.Decide.{dec_lt}
use learn_linux.Common.{
  ℕ, zero, suc, ◌-◌, ◌≤◌, ◌<◌, ◌≡◌, refl, ◌⊎◌, inl, inr, false, true, Option, none, some, arith,
  ◌&&◌, Bool-cases, Option-cases,
}
use learn_linux.Task.{Task, Table, nr_tasks}
use learn_linux.Sched.{
  is_running, check_task, for_tasks, Best, exceeds, consider, pick, recharge, is_zero,
  schedule_loop, schedule,
}
use learn_linux.Sched.Wakeups.{map_option, for_tasks_lem}

-- c + 1, where c is -1 for none
abbrev rank : Option ℕ → ℕ
rank none = 0
rank (some c) = suc c

zero_or_suc : (n : ℕ) → (n ≡ 0) ⊎ ((m : ℕ) × (n ≡ suc m))
zero_or_suc zero = inl refl
zero_or_suc (suc m) = inr (m, refl)

-- Slot i holds a task that can run.
pub record CanRun (table : Table) (i : ℕ) (t : Task) : Type 0 where
  pub at : table i ≡ some t
  pub running : is_running t ≡ true

consider_mono : (i : ℕ) (o : Option Task) (best : Best) → rank best.0 ≤ rank (consider i o best).0
consider_mono i none best = omega arith
consider_mono i (some t) (none, nx) = ground arith
consider_mono i (some t) (some c, nx) = ground arith

consider-covers :
    (i : ℕ) (t : Task) (best : Best)
    → is_running t ≡ true
    → t.counter < rank (consider i (some t) best).0
consider-covers i t (none, nx) h = ground arith
consider-covers i t (some c, nx) h = ground arith

pick_mono : (n : ℕ) (table : Table) (best : Best) → rank best.0 ≤ rank (pick n table best).0
unfolding pick
pick_mono zero table best = omega arith
pick_mono (suc n) table best = omega (
  arith,
  consider_mono (suc n) (table (suc n)) best,
  pick_mono n table (consider (suc n) (table (suc n)) best),
)

-- No task that can run has a higher counter than the one found.
pick-covers :
    (n : ℕ) (table : Table) (best : Best) (i : ℕ) (t : Task)
    → 1 ≤ i
    → i ≤ n
    → CanRun table i t
    → t.counter < rank (pick n table best).0
unfolding pick
pick-covers zero table best i t low high can = absurd (omega arith)
pick-covers (suc n) table best i t low high can = elim (dec_lt i (suc n)) [
  | yes less ↦ pick-covers n table (consider (suc n) (table (suc n)) best) i t low (omega arith) can
  | no last ↦
      let e : suc n ≡ i = omega arith in
      let here : t.counter < rank (consider (suc n) (table (suc n)) best).0 =
        rw (e, can.at) (consider-covers i t best can.running) in
      omega (arith, here, pick_mono n table (consider (suc n) (table (suc n)) best))
]

-- The result of the scan is what it began with, or comes from a slot.
data Found (table : Table) (n : ℕ) (best r : Best) : Type 0 where
  old : r ≡ best → Found table n best r
  slot :
      (i : ℕ) (t : Task)
      → 1 ≤ i
      → i ≤ n
      → CanRun table i t
      → r ≡ (some t.counter, i)
      → Found table n best r

consider-Found :
    (n : ℕ) (table : Table) (best : Best)
    → Found table (suc n) best (consider (suc n) (table (suc n)) best)
consider-Found n table best = elim (Option-cases (table (suc n))) [
  | inl e ↦ old (rw e)
  | inr (t, e) ↦ elim (Bool-cases (is_running t && exceeds t.counter best.0)) [
    | inl better ↦
        slot (suc n) t (omega arith) (omega arith) (record { at = e; running = ground arith })
          (rw (e, better))
    | inr worse ↦ old (rw (e, worse))
  ]
]

pick-Found : (n : ℕ) (table : Table) (best : Best) → Found table n best (pick n table best)
unfolding pick
pick-Found zero table best = old refl
pick-Found (suc n) table best = elim (pick-Found n table (consider (suc n) (table (suc n)) best)) [
  | old e ↦ rw e (consider-Found n table best)
  | slot i t low high can e ↦ slot i t low (omega arith) can e
]

-- The slot `next` holds a task that can run, with time left, and no other task that can run has
-- more.
pub record IsBest (table : Table) (next : ℕ) : Type 0 where
  pub task : Task
  pub can_run : CanRun table next task
  pub time_left : 0 < task.counter
  pub bound :
      (i : ℕ) (t : Task) → 1 ≤ i → i < nr_tasks → CanRun table i t → t.counter ≤ task.counter

-- No task can run but the idle one.
abbrev pub AllWait : Table → Type 0
AllWait table = (i : ℕ) (t : Task) → 1 ≤ i → i < nr_tasks → ¬ CanRun table i t

-- Every task that can run has used up its time.
abbrev pub AllSpent : Table → Type 0
AllSpent table = (i : ℕ) (t : Task) → 1 ≤ i → i < nr_tasks → CanRun table i t → t.counter ≡ 0

abbrev pub HasPriorities : Table → Type 0
HasPriorities table = (i : ℕ) (t : Task) → table i ≡ some t → 0 < t.priority

-- What a whole scan says of the table.
data Scan (table : Table) (r : Best) : Type 0 where
  idle : AllWait table → r ≡ (none, 0) → Scan table r
  spent :
      {i : ℕ} {t : Task}
      → 1 ≤ i
      → i < nr_tasks
      → CanRun table i t
      → AllSpent table
      → r ≡ (some 0, i)
      → Scan table r
  best : {c i : ℕ} → 1 ≤ i → i < nr_tasks → IsBest table i → r ≡ (some (suc c), i) → Scan table r

pick-Scan : (n : ℕ) (table : Table) → suc n ≡ nr_tasks → Scan table (pick n table (none, 0))
pick-Scan n table all =
    let covers = pick-covers n table (none, 0) in
    elim (pick-Found n table (none, 0)) [
      | old e ↦
          idle
            (λ i t low high can.
              let c : t.counter < rank none = rw e at (covers i t low (omega arith) can) in
              absurd (omega arith))
            e
      | slot i t low high can e ↦ elim (zero_or_suc t.counter) [
        | inl none_left ↦
            spent low (omega arith) can
              (λ j u low' high' can'.
                let c = rw e at (covers j u low' (omega arith) can') in omega arith)
              (rw none_left at e)
        | inr (c, left) ↦
            best low (omega arith)
              (record {
                task = t;
                can_run = can;
                time_left = omega arith;
                bound = λ j u low' high' can'.
                    let c = rw e at (covers j u low' (omega arith) can') in omega arith;
              })
              (rw left at e)
      ]
    ]

-- The table and the slot that `schedule` ends with, from the table `a` that the first loop leaves.
pub data Scheduled (a : Table) (r : Option (Table × ℕ)) : Type 0 where
  idle : AllWait a → r ≡ some (a, 0) → Scheduled a r
  best :
      (next : ℕ) → 1 ≤ next → next < nr_tasks → IsBest a next → r ≡ some (a, next) → Scheduled a r
  recharged :
      (b : Table) (next : ℕ)
      → AllSpent a
      → ((i : ℕ) → 1 ≤ i → i < nr_tasks → b i ≡ map_option recharge (a i))
      → 1 ≤ next
      → next < nr_tasks
      → IsBest b next
      → r ≡ some (b, next)
      → Scheduled a r

suc-ne-zero : (c : ℕ) → is_zero (some (suc c)) ≡ false
suc-ne-zero c = ground arith

module _ (a : Table) where
  recharged_at :
      (i : ℕ)
      → 1 ≤ i
      → i < nr_tasks
      → for_tasks recharge (nr_tasks - 1) a i ≡ map_option recharge (a i)
  recharged_at i low high = ground (arith, for_tasks_lem recharge (nr_tasks - 1) a i)

  -- After a recharge, a task that could run before can run.
  recharged_CanRun :
      {i : ℕ} {t : Task}
      → 1 ≤ i
      → i < nr_tasks
      → CanRun a i t
      → CanRun (for_tasks recharge (nr_tasks - 1) a) i (recharge t)
  recharged_CanRun {i} low high can = record {
    at = rw (recharged_at i low high, can.at);
    running = can.running;
  }

  -- The second round ends the loop.
  recharge_round :
      {i : ℕ} {t : Task}
      → 1 ≤ i
      → i < nr_tasks
      → CanRun a i t
      → 0 < t.priority
      → AllSpent a
      → Scheduled a (schedule_loop 1 (for_tasks recharge (nr_tasks - 1) a))
  unfolding schedule_loop
  recharge_round {i} {t} low high can prio spent_all =
      let can_still = recharged_CanRun low high can in
      elim (pick-Scan (nr_tasks - 1) (for_tasks recharge (nr_tasks - 1) a) refl) [
        | idle waits e ↦ absurd (waits i (recharge t) low high can_still)
        | spent low' high' can' spent' e ↦
            absurd (omega (arith, spent' i (recharge t) low high can_still))
        | best {c} {i = next} low' high' is e ↦
            recharged (for_tasks recharge (nr_tasks - 1) a) next spent_all recharged_at low' high'
              is (rw (e, suc-ne-zero c))
      ]

  schedule_loop-Scheduled : HasPriorities a → Scheduled a (schedule_loop 2 a)
  unfolding schedule_loop
  schedule_loop-Scheduled positive = elim (pick-Scan (nr_tasks - 1) a refl) [
    | idle waits e ↦ Scheduled.idle waits (rw e)
    | spent {i} {t} low high can spent_all e ↦
        rw e (recharge_round low high can (positive i t can.at) spent_all)
    | best {c} {i = next} low high is e ↦ Scheduled.best next low high is (rw (e, suc-ne-zero c))
  ]

check_task-priority : (jiffies : ℕ) (t : Task) → (check_task jiffies t).priority ≡ t.priority
unfolding check_task
check_task-priority jiffies t = ground arith

for_tasks-HasPriorities :
    (jiffies n : ℕ) (table : Table)
    → HasPriorities table
    → HasPriorities (for_tasks (check_task jiffies) n table)
for_tasks-HasPriorities jiffies n table positive i t at = elim (Option-cases (table i)) [
  | inl e ↦ ground (arith, for_tasks_lem (check_task jiffies) n table i)
  | inr (u, e) ↦ ground (
    arith,
    for_tasks_lem (check_task jiffies) n table i,
    check_task-priority jiffies u,
    positive i u e,
  )
]

-- `schedule` ends when every task has a positive priority: it runs the idle task if no other task
-- can run; else a task that can run and has time left, and no task that can run has more. It
-- recharges the counters of all tasks first, once, only where every task that can run has used
-- up its time.
pub schedule-Scheduled :
    (jiffies : ℕ) (table : Table)
    → HasPriorities table
    → Scheduled (for_tasks (check_task jiffies) (nr_tasks - 1) table) (schedule jiffies table)
unfolding schedule
schedule-Scheduled jiffies table positive =
    schedule_loop-Scheduled (for_tasks (check_task jiffies) (nr_tasks - 1) table)
      (for_tasks-HasPriorities jiffies (nr_tasks - 1) table positive)
