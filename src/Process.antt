-- ===== src/Process.antt =====
-- linux-0.11/kernel/exit.c and fork.c: the calls on the task table. A task is named by its slot. The page
-- of a task structure that `release` frees belongs to the state of Memory and is not part of this one.
pub mod Fork
pub mod Pids
pub mod Waiting
mod Tests
use learn_linux.Common.{
  ℕ, zero, suc, ◌+◌, ◌-◌, ◌%◌, ◌^◌, Bool, true, false, not, ◌&&◌, ◌||◌, Option, none, some, ◌==◌,
  ltb, leb, if◌then◌else◌, update, is_some,
}
use learn_linux.Common.Int.{ℤ, pos, neg, is_pos, eq_pos, eq_ℤ, ◌-ℤ◌}
use learn_linux.Common.Words.{Word, with_bit, without_bit, any_below}
use learn_linux.Task.{Task, TaskState, Table, nr_tasks, sighup_bit, sigchld_bit, echild, eintr}
use learn_linux.Sched.{for_tasks}
use learn_linux.Signals.{send_sig}

-- A table after `release`, or none for a panic. The slot 0 is not looked at.
abbrev pub release : (slot : ℕ) → Table → Option Table
release slot table =
    if leb 1 slot && ltb slot nr_tasks && is_some (table slot)
    then some (update table slot none)
    else none

abbrev pub hang_up : (session : ℕ) → Task → Task
hang_up session t =
    if t.session == session then record t { signal = with_bit t.signal sighup_bit } else t

unfoldable pub kill_session : (current : Task) → Table → Table
kill_session current table = for_tasks (hang_up current.session) (nr_tasks - 1) table

abbrev pub has_pid : (pid : ℤ) → Option Task → Bool
has_pid pid none = false
has_pid pid (some t) = eq_pos pid t.pid

abbrev pub tell_child : Option Task → Option Task
tell_child none = none
tell_child (some t) = some (record t { signal = with_bit t.signal sigchld_bit })

-- The slots i, i + 1, ..., of which n are left; the first task with the number is told. Without one
-- the current task releases itself.
unfoldable pub tell_loop : (cur : ℕ) (pid : ℤ) (n i : ℕ) → Table → Option Table
tell_loop cur pid zero i table = release cur table
tell_loop cur pid (suc n) i table =
    let rest = tell_loop cur pid n (suc i) table in
    if has_pid pid (table i) then some (update table i (tell_child (table i))) else rest

unfoldable pub tell_father : (cur : ℕ) (pid : ℤ) → Table → Option Table
tell_father cur pid table =
    if eq_pos pid 0 then release cur table else tell_loop cur pid nr_tasks 0 table

abbrev pub is_zombie : Task → Bool
is_zombie t = elim t.state [ TaskState.zombie ↦ true | _ ↦ false ]

abbrev pub is_stopped : Task → Bool
is_stopped t = elim t.state [ TaskState.stopped ↦ true | _ ↦ false ]

-- Which children the caller of `sys_waitpid` waits for.
abbrev pub asked_for : (pid : ℤ) (current t : Task) → Bool
asked_for pid current t =
    if is_pos pid
    then eq_pos pid t.pid
    else if eq_pos pid 0
    then eq_ℤ t.pgrp current.pgrp
    else eq_ℤ pid (neg 1) || eq_ℤ t.pgrp (pos 0 -ℤ pid)

abbrev pub is_child : (pid : ℤ) (current t : Task) → Bool
is_child pid current t = eq_pos t.father current.pid && asked_for pid current t

-- What a scan of the table finds: a stopped child to report, a zombie, or none of these; then `flag`
-- says that a child was seen that is neither.
pub data Scan : Type 0 where
  stopped : (slot : ℕ) → Task → Scan
  zombie : (slot : ℕ) → Task → Scan
  no_one : (flag : Bool) → Scan

-- One slot: `rest` is what the other slots give, `waiting` what they give with the flag set.
abbrev pub look_at :
    (untraced : Bool) (slot : ℕ) (child : Bool) (t : Task) (rest waiting : Scan) → Scan
look_at untraced slot child t rest waiting =
    if not child
    then rest
    else if is_stopped t
    then (if untraced then stopped slot t else rest)
    else if is_zombie t
    then zombie slot t
    else waiting

module _ (cur : ℕ) (current : Task) (pid : ℤ) (untraced : Bool) where
  abbrev pub look_in : (slot : ℕ) → Option Task → (rest waiting : Scan) → Scan
  look_in slot none rest waiting = rest
  look_in slot (some t) rest waiting =
      look_at untraced slot (not (slot == cur) && is_child pid current t) t rest waiting

  -- The slots n, n - 1, ..., 1.
  unfoldable pub scan : (n : ℕ) (flag : Bool) → Table → Scan
  scan zero flag table = no_one flag
  scan (suc n) flag table = look_in (suc n) (table (suc n)) (scan n flag table) (scan n true table)

-- How `sys_waitpid` ends or stops: with a result, and what it stores at stat_addr; in a panic; or it
-- sleeps.
pub data Waited : Type 0 where
  returns : Table → (result : ℤ) → (stat : Option ℕ) → Waited
  panics : Waited
  sleeps : Table → Waited

-- The times of a zombie are added to the caller's.
abbrev pub add_times : (child current : Task) → Task
add_times child current = record current {
  cutime = current.cutime + child.utime;
  cstime = current.cstime + child.stime;
}

abbrev pub or_panic : Option Table → (result : ℤ) (stat : ℕ) → Waited
or_panic none result stat = panics
or_panic (some table) result stat = returns table result (some stat)

abbrev pub finish : (cur : ℕ) (current : Task) (nohang : Bool) → Table → Scan → Waited
finish cur current nohang table (stopped slot t) = returns table (pos t.pid) (some 127)
finish cur current nohang table (zombie slot t) =
    or_panic (release slot (update table cur (some (add_times t current)))) (pos t.pid) t.exit_code
finish cur current nohang table (no_one false) = returns table echild none
finish cur current nohang table (no_one true) =
    if nohang
    then returns table (pos 0) none
    else sleeps (update table cur (some (record current { state = TaskState.interruptible })))

unfoldable pub sys_waitpid :
    (cur : ℕ) (current : Task) (pid : ℤ) (nohang untraced : Bool) → Table → Waited
sys_waitpid cur current pid nohang untraced table =
    finish cur current nohang table (scan cur current pid untraced (nr_tasks - 1) false table)

-- After the sleep: SIGCHLD is taken away; with another signal left the call ends with -EINTR, else
-- it begins again.
unfoldable pub wait_resume : (current : Task) → Task × Option ℤ
wait_resume current =
    let left = without_bit current.signal sigchld_bit in
    (record current { signal = left }, if any_below 32 left then some eintr else none)
