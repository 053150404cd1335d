-- ===== src/Signals/Tests.antt =====
-- Runs of the signal calls, and the theorems on them at a table of three tasks.
use learn_linux.Common.{◌≡◌, refl, true, not, ◌&&◌, ltb, none, some, ◌==◌, if◌then◌else◌, arith}
use learn_linux.Common.Int.{pos, neg}
use learn_linux.Common.Words.{no_bits, with_bit}
use learn_linux.Task.{nr_tasks, Task, SigAction, Table, plain_task, plain_action, sigkill_bit}
use learn_linux.Signals.{Registers, sys_ssetmask, sys_signal, sys_sigaction, do_signal, sys_kill}
use learn_linux.Signals.Killable.{IsKillable, after, calls-IsKillable, mask_blocks_kill}
use learn_linux.Signals.Kill.{after_kill, sys_kill_at, broadcast_stops}

abbrev root : Task
root = record plain_task { pid = 3; pgrp = pos 3 }

abbrev other : Task
other = record plain_task { pid = 7; pgrp = pos 5; euid = 9 }

abbrev crowd : Table
crowd i = if i == 63 then some root else if i == 2 then some other else none

-- A group is never signalled: its number is negative, and the loop for it is another branch.
group_is_ignored : sys_kill root (neg 5) (pos 15) crowd ≡ (crowd, pos 0)
unfolding sys_kill
group_is_ignored = refl

abbrev at_rest : Registers
at_rest = record { eax = 0; ecx = 0; edx = 0; eflags = 0; eip = 100; esp = 4000 }

-- An action of SIGTERM that blocks SIGKILL.
abbrev stubborn : SigAction
stubborn = record plain_action { sa_handler = 2048; sa_mask = with_bit no_bits sigkill_bit }

plain_task-IsKillable : IsKillable plain_task
plain_task-IsKillable = record { open_bit = refl; no_handler = refl; no_mask = λ i. refl }

calls-IsKillable_example :
    IsKillable (sys_ssetmask (with_bit no_bits 8) plain_task).0
    × IsKillable (sys_signal (pos 15) 2048 0 plain_task).0
    × IsKillable (sys_sigaction (pos 15) plain_action plain_task).0
    × IsKillable (after plain_task (do_signal 15 plain_task at_rest))
calls-IsKillable_example =
    calls-IsKillable plain_task (with_bit no_bits 8) (pos 15) 2048 0 plain_action 15 at_rest
      plain_task-IsKillable refl

mask_blocks_kill_example :
    (after plain_task (do_signal 15 (sys_sigaction (pos 15) stubborn plain_task).0 at_rest)).blocked
      sigkill_bit
    ≡ true
mask_blocks_kill_example =
    mask_blocks_kill plain_task 15 stubborn at_rest (omega arith) (omega arith) (omega arith)
      (omega arith) refl refl

sys_kill_at_example :
    (sys_kill root (pos 7) (pos 15) crowd).0 2
    ≡ (if not (2 == 0) && ltb 2 nr_tasks then after_kill root (pos 15) 7 (crowd 2) else crowd 2)
sys_kill_at_example = sys_kill_at root (pos 15) crowd 7 2

broadcast_stops_example : (sys_kill root (neg 1) (pos 15) crowd).0 2 ≡ some other
broadcast_stops_example =
    broadcast_stops root (pos 15) crowd root 2 other refl refl (omega arith) refl refl
