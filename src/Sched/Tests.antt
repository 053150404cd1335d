-- ===== src/Sched/Tests.antt =====
-- Runs of the scheduler, and the theorems at concrete tables, timers and queues.
use learn_linux.Common.{
  ℕ, zero, suc, ◌-◌, ◌≡◌, ◌≢◌, refl, Option, none, some, List, [], ◌∷◌, ◌++◌, arith, ◌==◌,
  if◌then◌else◌,
}
use learn_linux.Common.Int.{pos}
use learn_linux.Common.Words.{any_below}
use learn_linux.Task.{Task, TaskState, Table, nr_tasks, plain_task}
use learn_linux.Sched.{check_task, for_tasks, pick, schedule_loop, schedule}
use learn_linux.Sched.Choice.{HasPriorities, Scheduled, schedule-Scheduled}
use learn_linux.Sched.Timers.{Timer, add_timer, listed, tick_timers}
use learn_linux.Sched.Timers.Expiry.{
  times, before, from_time, delay, gap, fired, later, add_timer-times, tick_timers-fired,
}
use learn_linux.Sched.Sleep.{Queue, sleep_on, wake_up}
use learn_linux.Sched.Sleep.Wakeup.{
  Reach, here, next, wake, sleep, NoneLost, Reach-NoneLost, race, interruptible_lost,
}

abbrev spent_task : Task
spent_task = record plain_task { counter = 0 }

abbrev two_tasks : Table
two_tasks (suc zero) = some spent_task
two_tasks (suc (suc zero)) = some (record spent_task { priority = 20 })
two_tasks _ = none

-- Both tasks have used up their time; after the recharge the second has more.
second_runs : Option ℕ
unfolding schedule schedule_loop for_tasks check_task pick any_below
second_runs = elim (schedule 0 two_tasks) [ none ↦ none | some (t, n) ↦ some n ]

second_runs_lem : second_runs ≡ some 2
unfolding second_runs
second_runs_lem = refl

two_tasks-HasPriorities : HasPriorities two_tasks
two_tasks-HasPriorities (suc zero) t at = ground arith
two_tasks-HasPriorities (suc (suc zero)) t at = ground arith
two_tasks-HasPriorities zero t at = cc
two_tasks-HasPriorities (suc (suc (suc n))) t at = cc

schedule-Scheduled_example :
    Scheduled (for_tasks (check_task 5) (nr_tasks - 1) two_tasks) (schedule 5 two_tasks)
schedule-Scheduled_example = schedule-Scheduled 5 two_tasks two_tasks-HasPriorities

abbrev timers : List Timer
timers = record { jiffies = 5; fn = 1 } ∷ record { jiffies = 10; fn = 2 } ∷ []

-- The timer that was to run out at 15 runs out at 18.
later_is_delayed :
    add_timer (pos 8) (some 3) timers
    ≡ listed (
        record { jiffies = 5; fn = 1 }
        ∷ record { jiffies = 3; fn = 3 }
        ∷ record { jiffies = 10; fn = 2 }
        ∷ [])
unfolding add_timer
later_is_delayed = refl

add_timer-times_example :
    (l' : List Timer) × (add_timer (pos 8) (some 3) timers ≡ listed l')
    × (times 0 l'
        ≡ before 8 (times 0 timers) ++ (8, 3) ∷ delay (gap 8 timers) (from_time 8 (times 0 timers)))
add_timer-times_example = add_timer-times 8 3 timers (omega arith) (omega arith)

abbrev due : List Timer
due =
    record { jiffies = 1; fn = 1 }
    ∷ record { jiffies = 0; fn = 2 }
    ∷ record { jiffies = 4; fn = 3 }
    ∷ []

tick_timers-fired_example :
    ((tick_timers due).0 ≡ fired 1 (times 0 due))
    × (times 0 (tick_timers due).1 ≡ later 1 (times 0 due))
tick_timers-fired_example = tick_timers-fired due (omega arith)

abbrev no_sleepers : Queue
no_sleepers = record { head = none; tmp = λ _. none; state = λ _. TaskState.running }

no_sleepers-NoneLost : NoneLost no_sleepers
no_sleepers-NoneLost i s = cc

abbrev one_sleeper : Queue
one_sleeper = record {
  head = some 3;
  tmp = λ k. if 3 == k then some none else none;
  state = λ k. if 3 == k then TaskState.uninterruptible else TaskState.running;
}

three_sleeps : Reach no_sleepers (wake_up one_sleeper)
three_sleeps = next (next here (sleep 3 {r = one_sleeper} refl refl (unfold sleep_on in refl))) wake

Reach-NoneLost_example : NoneLost (wake_up one_sleeper)
Reach-NoneLost_example = Reach-NoneLost three_sleeps no_sleepers-NoneLost

interruptible_lost_example :
    (r : Queue) × (race 1 2 no_sleepers ≡ some r)
    × (r.state 1 ≡ TaskState.interruptible)
    × (r.head ≡ none)
    × ((k : ℕ) → r.tmp k ≢ some (some 1))
interruptible_lost_example =
    interruptible_lost 1 2 no_sleepers (omega arith) (omega arith) (omega arith) refl (λ k. refl)
