-- ===== src/Session/Tests.antt =====
-- Runs of the calls on sessions, and the theorems at concrete tasks.
use learn_linux.Common.{zero, suc, ◌≡◌, refl, ◌⊎◌, true, none, some, arith}
use learn_linux.Common.Int.{pos}
use learn_linux.Task.{Task, Table, plain_task, eperm}
use learn_linux.Session.{sys_setpgid, sys_brk}
use learn_linux.Session.Groups.{Regrouped, sys_setpgid-Regrouped}
use learn_linux.Session.Limits.{HasBreak, sys_brk-HasBreak}

abbrev shell : Task
shell = record plain_task { pid = 3; session = 3; leader = true }

abbrev job : Task
job = record plain_task { pid = 4; session = 3 }

abbrev two_tasks : Table
two_tasks (suc zero) = some shell
two_tasks (suc (suc zero)) = some job
two_tasks _ = none

job_moves : (sys_setpgid shell (pos 4) (pos 4) two_tasks).1 ≡ pos 0
unfolding sys_setpgid
job_moves = refl

leader_stays : (sys_setpgid shell (pos 0) (pos 4) two_tasks).1 ≡ eperm
unfolding sys_setpgid
leader_stays = refl

sys_setpgid-Regrouped_example :
    Regrouped shell
      (pos 4)
      (pos 3)
      two_tasks
      (sys_setpgid shell (pos 4) (pos 0) two_tasks).0
      (sys_setpgid shell (pos 4) (pos 0) two_tasks).1
sys_setpgid-Regrouped_example = sys_setpgid-Regrouped shell (pos 4) (pos 0) two_tasks

abbrev roomy : Task
roomy = record plain_task { end_code = 4096; brk = 8192; start_stack = 1048576 }

sys_brk-HasBreak_example :
    HasBreak (sys_brk 20000 roomy).0
    × ((sys_brk 20000 roomy).1 ≡ (sys_brk 20000 roomy).0.brk)
    × (((sys_brk 20000 roomy).1 ≡ 20000) ⊎ ((sys_brk 20000 roomy).1 ≡ 8192))
sys_brk-HasBreak_example = sys_brk-HasBreak roomy 20000 (omega arith)
