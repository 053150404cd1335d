-- ===== src/Sched/Sleep.antt =====
-- linux-0.11/kernel/sched.c: `sleep_on`, `interruptible_sleep_on` and `wake_up` on one wait queue. The
-- pointer `*p` is the head; the rest of the queue is in the variables `tmp` on the stacks of the
-- tasks that sleep. A task is its slot. A call is cut at `schedule()`: what it does before, and what
-- it does when the task runs again.
pub mod Wakeup
use learn_linux.Common.{
  ℕ, Bool, true, false, not, ◌&&◌, Option, none, some, ◌==◌, if◌then◌else◌, update,
}
use learn_linux.Task.{TaskState}

pub record Queue : Type 0 where
  pub head : Option ℕ
  -- the variable `tmp` of a task that is inside a call, none for a task that is not
  pub tmp : ℕ → Option (Option ℕ)
  pub state : ℕ → TaskState

abbrev pub set_state : ℕ → TaskState → Queue → Queue
set_state i st q = record q { state = update q.state i st }

-- if (tmp) tmp->state = 0
abbrev pub wake_tmp : Option ℕ → Queue → Queue
wake_tmp none q = q
wake_tmp (some j) q = set_state j TaskState.running q

-- tmp = *p; *p = current; current->state = st
abbrev pub enqueue : (current : ℕ) → TaskState → Queue → Queue
enqueue current st q = record q {
  head = some current;
  tmp = update q.tmp current (some q.head);
  state = update q.state current st;
}

-- sleep_on, up to schedule(); none where task 0 would sleep, and the kernel stops
unfoldable pub sleep_on : (current : ℕ) → Queue → Option Queue
sleep_on current q =
    if current == 0 then none else some (enqueue current TaskState.uninterruptible q)

-- The task leaves the call.
abbrev pub leave : (current : ℕ) → Queue → Queue
leave current q = record q { tmp = update q.tmp current none }

-- What a task does with its `tmp`, where it has one.
abbrev pub wake_own : Option (Option ℕ) → Queue → Queue
wake_own none q = q
wake_own (some o) q = wake_tmp o q

-- sleep_on, after schedule()
unfoldable pub sleep_on_resume : (current : ℕ) → Queue → Queue
sleep_on_resume current q = leave current (wake_own (q.tmp current) q)

unfoldable pub interruptible_sleep_on : (current : ℕ) → Queue → Option Queue
interruptible_sleep_on current q =
    if current == 0 then none else some (enqueue current TaskState.interruptible q)

abbrev pub leave_queue : (current : ℕ) → Queue → Queue
leave_queue current q = leave current (wake_own (q.tmp current) (record q { head = none }))

-- if (*p && *p != current) { (**p).state = 0; goto repeat; }
abbrev pub resume_head : (current : ℕ) → Option ℕ → Queue → Queue
resume_head current none q = leave_queue current q
resume_head current (some h) q =
    if h == current
    then leave_queue current q
    else set_state current TaskState.interruptible (set_state h TaskState.running q)

-- interruptible_sleep_on, after schedule(): another head is woken and the task sleeps again; else it
-- takes the queue's head away, wakes its `tmp` and leaves.
unfoldable pub interruptible_resume : (current : ℕ) → Queue → Queue
interruptible_resume current q = resume_head current q.head q

abbrev pub wake_head : Option ℕ → Queue → Queue
wake_head none q = q
wake_head (some h) q = record q { head = none; state = update q.state h TaskState.running }

unfoldable pub wake_up : Queue → Queue
wake_up q = wake_head q.head q
