-- ===== src/Sched.antt =====
-- linux-0.11/kernel/sched.c: `schedule`. The slots 1 to 63 are scanned from the last one down; slot 0,
-- the idle task, runs when no other task can. `switch_to(next)` makes `next` the current task, so the
-- slot is the result here.
pub mod Wakeups
pub mod Choice
pub mod Timers
pub mod Sleep
mod Tests
use learn_linux.Common.{
  ℕ, zero, suc, ◌+◌, ◌-◌, ◌/◌, Bool, false, true, not, ◌&&◌, ◌||◌, Option, none, some, ◌==◌, ltb,
  if◌then◌else◌, update,
}
use learn_linux.Common.Words.{Word, with_bit, any_below}
use learn_linux.Task.{Task, TaskState, Table, nr_tasks, sigkill_bit, sigstop_bit, sigalrm_bit}

abbrev pub is_running : Task → Bool
is_running t = elim t.state [ TaskState.running ↦ true | _ ↦ false ]

abbrev pub is_interruptible : Task → Bool
is_interruptible t = elim t.state [ TaskState.interruptible ↦ true | _ ↦ false ]

-- _BLOCKABLE
abbrev pub blockable : Word
blockable i = not (i == sigkill_bit || i == sigstop_bit)

-- (*p)->signal & ~(_BLOCKABLE & (*p)->blocked), as a test
abbrev pub has_signal : Task → Bool
has_signal t = any_below 32 (λ i. t.signal i && not (blockable i && t.blocked i))

abbrev pub ring_alarm : (jiffies : ℕ) → Task → Task
ring_alarm jiffies t =
    if not (t.alarm == 0) && ltb t.alarm jiffies
    then record t { signal = with_bit t.signal sigalrm_bit; alarm = 0 }
    else t

abbrev pub wake_signalled : Task → Task
wake_signalled t =
    if has_signal t && is_interruptible t then record t { state = TaskState.running } else t

-- What the first loop does to a task.
unfoldable pub check_task : (jiffies : ℕ) → Task → Task
check_task jiffies t = wake_signalled (ring_alarm jiffies t)

-- for (p = &task[n]; p > &FIRST_TASK; --p) if (*p) *p = f(*p)
unfoldable pub for_tasks : (Task → Task) → (n : ℕ) → Table → Table
for_tasks f zero table = table
for_tasks f (suc n) table =
    for_tasks f n
      (elim (table (suc n)) [ none ↦ table | some t ↦ update table (suc n) (some (f t)) ])

-- The variables `c` and `next` of the scan; no counter yet stands for c = -1.
abbrev pub Best : Type 0
Best = Option ℕ × ℕ

abbrev pub exceeds : ℕ → Option ℕ → Bool
exceeds counter none = true
exceeds counter (some c) = ltb c counter

abbrev pub consider : (i : ℕ) → Option Task → Best → Best
consider i none best = best
consider i (some t) best =
    if is_running t && exceeds t.counter best.0 then (some t.counter, i) else best

-- The scan of the slots n, n - 1, ..., 1.
unfoldable pub pick : (n : ℕ) → Table → Best → Best
pick zero table best = best
pick (suc n) table best = pick n table (consider (suc n) (table (suc n)) best)

abbrev pub recharge : Task → Task
recharge t = record t { counter = t.counter / 2 + t.priority }

-- if (c) break;
abbrev pub is_zero : Option ℕ → Bool
is_zero none = false
is_zero (some c) = c == 0

-- The endless loop, on fuel; none if the fuel ran out.
unfoldable pub schedule_loop : (fuel : ℕ) → Table → Option (Table × ℕ)
schedule_loop zero table = none
schedule_loop (suc fuel) table =
    let again = schedule_loop fuel (for_tasks recharge (nr_tasks - 1) table) in
    let best = pick (nr_tasks - 1) table (none, 0) in
    if is_zero best.0 then again else some (table, best.1)

-- Two rounds are enough where priorities are positive.
unfoldable pub schedule : (jiffies : ℕ) → Table → Option (Table × ℕ)
schedule jiffies table = schedule_loop 2 (for_tasks (check_task jiffies) (nr_tasks - 1) table)
