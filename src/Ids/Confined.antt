-- ===== src/Ids/Confined.antt =====
-- What an unprivileged task can and cannot do to its identities.
use learn_linux.Common.{◌<◌, ◌^◌, ◌≡◌, ◌≢◌, ◌⊎◌, arith}
use learn_linux.Common.Int.{ℤ, pos}
use learn_linux.Task.{Task, eperm}
use learn_linux.Ids.{sys_setregid, sys_setreuid}

-- What is stored in an `unsigned short`.
pub record HasShortIds (t : Task) : Type 0 where
  pub uid : t.uid < 2 ^ 16
  pub euid : t.euid < 2 ^ 16
  pub suid : t.suid < 2 ^ 16
  pub gid : t.gid < 2 ^ 16
  pub egid : t.egid < 2 ^ 16
  pub sgid : t.sgid < 2 ^ 16

-- A task that is not the superuser ends `sys_setreuid` with a real and an effective user that are
-- both among its two users before, whatever it asks for.
pub sys_setreuid_confined :
    (t : Task) (ruid euid : ℤ)
    → HasShortIds t
    → t.euid ≢ 0
    → (((sys_setreuid ruid euid t).0.uid ≡ t.uid) ⊎ ((sys_setreuid ruid euid t).0.uid ≡ t.euid))
      × (((sys_setreuid ruid euid t).0.euid ≡ t.uid) ⊎ ((sys_setreuid ruid euid t).0.euid ≡ t.euid))
unfolding sys_setreuid
sys_setreuid_confined t ruid euid h user = ground arith

-- Each call of `sys_setreuid` and each call of `sys_setregid` either succeeds, with result 0, or
-- returns -EPERM and leaves every field of the task as it was.
setre_atomic :
    (t : Task) (rid eid : ℤ)
    → HasShortIds t
    → (((sys_setreuid rid eid t).1 ≡ pos 0) ⊎ (sys_setreuid rid eid t ≡ (t, eperm)))
      × (((sys_setregid rid eid t).1 ≡ pos 0) ⊎ (sys_setregid rid eid t ≡ (t, eperm)))
unfolding sys_setreuid sys_setregid
setre_atomic t rid eid h = (ground arith, ground arith)

-- What is stored stays in an `unsigned short`, whatever the arguments.
pub setre-HasShortIds :
    (t : Task) (rid eid : ℤ)
    → HasShortIds t
    → HasShortIds (sys_setreuid rid eid t).0 × HasShortIds (sys_setregid rid eid t).0
unfolding sys_setreuid sys_setregid
setre-HasShortIds t rid eid h = (ground arith, ground arith)
