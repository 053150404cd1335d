-- ===== src/Session/Limits.antt =====
-- What `sys_brk`, `sys_alarm` and `sys_nice` keep.
use learn_linux.Common.{ℕ, ◌+◌, ◌-◌, ◌*◌, ◌/◌, ◌≤◌, ◌<◌, ◌^◌, ◌≡◌, ◌⊎◌, arith}
use learn_linux.Common.Int.{ℤ, pos}
use learn_linux.Task.{Task, hz}
use learn_linux.Session.{sys_brk, sys_alarm, sys_nice}

-- The break lies behind the code and at least 16 KB under the stack.
pub record HasBreak (t : Task) : Type 0 where
  pub stack : 16384 ≤ t.start_stack
  pub stack_word : t.start_stack < 2 ^ 32
  pub above_code : t.end_code ≤ t.brk
  pub below_stack : t.brk + 16384 < t.start_stack

-- `sys_brk` keeps the break between the code and the stack's gap of 16 KB, whatever is asked for;
-- it returns the break that the task then has, which is the one asked for or the old one.
pub sys_brk-HasBreak :
    (t : Task) (end_data_seg : ℕ)
    → HasBreak t
    → HasBreak (sys_brk end_data_seg t).0
      × ((sys_brk end_data_seg t).1 ≡ (sys_brk end_data_seg t).0.brk)
      × (((sys_brk end_data_seg t).1 ≡ end_data_seg) ⊎ ((sys_brk end_data_seg t).1 ≡ t.brk))
unfolding sys_brk
sys_brk-HasBreak t end_data_seg h = (ground arith, ground arith, ground arith)

-- An alarm for a positive number of seconds, asked for again before it is due, answers with the
-- whole seconds that are left.
sys_alarm-sys_alarm :
    (t : Task) (jiffies later s : ℕ) (next : ℤ)
    → 0 < s
    → later ≤ jiffies + hz * s
    → (sys_alarm later next (sys_alarm jiffies (pos s) t).0).1
      ≡ pos ((jiffies + hz * s - later) / hz)
unfolding sys_alarm
sys_alarm-sys_alarm t jiffies later s next h due = ground arith

-- A priority that is positive stays positive under `sys_nice`, whatever the increment.
pub sys_nice-pos :
    (t : Task) (increment : ℤ) → 0 < t.priority → 0 < (sys_nice increment t).0.priority
unfolding sys_nice
sys_nice-pos t increment h = ground arith
