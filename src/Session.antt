-- ===== src/Session.antt =====
-- linux-0.11/kernel/sys.c and sched.c: the calls that read or change the current task's session,
-- break, mask, alarm and priority. `current` is the task that the call is made by; a call that
-- walks the table of tasks takes the table too.
pub mod Groups
pub mod Limits
mod Tests
use learn_linux.Common.{
  ℕ, zero, suc, ◌+◌, ◌-◌, ◌*◌, ◌%◌, ◌^◌, Bool, true, false, not, ◌&&◌, Option, none, some, ◌==◌,
  ltb, leb, if◌then◌else◌, update,
}
use learn_linux.Common.Int.{ℤ, pos, pos_part, neg, ◌-ℤ◌, is_pos, eq_pos, quotient}
use learn_linux.Task.{Task, Table, nr_tasks, hz, eperm, esrch}
use learn_linux.Ids.{suser}

-- What happens to the first task with the process number, in slot `i`.
abbrev move_to_group : Task → ℤ → ℕ → Task → Table → Table × ℤ
move_to_group current pgid i t table =
    if t.leader
    then (table, eperm)
    else if not (t.session == current.session)
    then (table, eperm)
    else (update table i (some (record t { pgrp = pgid })), pos 0)

-- The loop over the table, `n` slots from slot `i` on.
pub setpgid_loop : Task → ℤ → ℤ → (n i : ℕ) → Table → Table × ℤ
setpgid_loop current pid pgid zero i table = (table, esrch)
setpgid_loop current pid pgid (suc n) i table =
    let rest = setpgid_loop current pid pgid n (i + 1) table in
    elim (table i) [
      | none ↦ rest
      | some t ↦ if eq_pos pid t.pid then move_to_group current pgid i t table else rest
    ]

-- A zero argument stands for the caller's own number.
abbrev pub own : Task → ℤ → ℤ
own current z = if eq_pos z 0 then pos current.pid else z

pub sys_setpgid : Task → ℤ → ℤ → Table → Table × ℤ
unfolding setpgid_loop
sys_setpgid current pid pgid table =
    setpgid_loop current (own current pid) (own current pgid) nr_tasks 0 table

pub sys_setsid : Task → Task × ℤ
sys_setsid current = if current.leader && not (suser current) then (current, eperm) else (
  record current { leader = true; session = current.pid; pgrp = pos current.pid; tty = neg 1 },
  pos current.pid,
)

-- `start_stack - 16384` is a subtraction of 32-bit words.
pub sys_brk : ℕ → Task → Task × ℕ
sys_brk end_data_seg t =
    let t' =
      if leb t.end_code end_data_seg && ltb end_data_seg ((t.start_stack + 2 ^ 32 - 16384) % 2 ^ 32)
      then record t { brk = end_data_seg }
      else t in
    (t', t'.brk)

-- mask & 0777
pub sys_umask : ℕ → Task → Task × ℕ
sys_umask mask t = (record t { umask = mask % 512 }, t.umask)

pub sys_alarm : (jiffies : ℕ) → ℤ → Task → Task × ℤ
sys_alarm jiffies seconds t = (
  record t { alarm = if is_pos seconds then jiffies + hz * pos_part seconds else 0 },
  if t.alarm == 0 then pos 0 else quotient (pos t.alarm -ℤ pos jiffies) hz,
)

pub sys_nice : ℤ → Task → Task × ℤ
sys_nice increment t = (
  if is_pos (pos t.priority -ℤ increment)
      then record t { priority = pos_part (pos t.priority -ℤ increment) }
      else t,
  pos 0,
)
