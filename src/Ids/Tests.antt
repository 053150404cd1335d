-- ===== src/Ids/Tests.antt =====
-- The theorems on identities at a task of user 1000 that runs a program of user 5.
use learn_linux.Common.{◌≡◌, refl, ◌⊎◌, arith}
use learn_linux.Common.Int.{pos}
use learn_linux.Task.{Task, plain_task}
use learn_linux.Ids.{sys_setreuid, sys_setuid}
use learn_linux.Ids.Confined.{sys_setreuid_confined}

abbrev user : Task
user = record plain_task { uid = 1000; euid = 5; gid = 7; egid = 7 }

swapped : (sys_setreuid (pos 5) (pos 1000) user).0 ≡ record user { uid = 5; euid = 1000 }
unfolding sys_setreuid
swapped = refl

-- A request for user 0 is passed over, and reported as a success.
zero_is_passed_over : sys_setuid (pos 0) user ≡ (user, pos 0)
unfolding sys_setuid
zero_is_passed_over = refl

sys_setreuid_confined_example :
    (((sys_setreuid (pos 5) (pos 1000) user).0.uid ≡ 1000)
      ⊎ ((sys_setreuid (pos 5) (pos 1000) user).0.uid ≡ 5))
    × (((sys_setreuid (pos 5) (pos 1000) user).0.euid ≡ 1000)
        ⊎ ((sys_setreuid (pos 5) (pos 1000) user).0.euid ≡ 5))
sys_setreuid_confined_example =
    sys_setreuid_confined user (pos 5) (pos 1000) (omega arith) (omega arith)
