-- ===== src/Ids.antt =====
-- linux-0.11/kernel/sys.c: the calls that change the identity of the current task. Each takes the
-- task and returns it with the call's result; an `int` argument is an integer. A task keeps its
-- identities in an `unsigned short`, so what is stored is the argument modulo 2 ^ 16.
pub mod Confined
mod Tests
use learn_linux.Common.{ℕ, ◌%◌, ◌^◌, Bool, ◌||◌, ◌==◌, if◌then◌else◌}
use learn_linux.Common.Int.{ℤ, pos, pos_part, is_pos, eq_pos}
use learn_linux.Task.{Task, eperm}

abbrev pub suser : Task → Bool
suser t = t.euid == 0

-- (unsigned short) z, of a positive z
abbrev pub ushort : ℤ → ℕ
ushort z = pos_part z % 2 ^ 16

abbrev set_egid : ℤ → Task → Task × ℤ
set_egid egid t =
    if is_pos egid
    then (if eq_pos egid t.gid || eq_pos egid t.egid || eq_pos egid t.sgid || suser t
        then (record t { egid = ushort egid }, pos 0)
        else (t, eperm))
    else (t, pos 0)

pub sys_setregid : ℤ → ℤ → Task → Task × ℤ
sys_setregid rgid egid t =
    if is_pos rgid
    then (if eq_pos rgid t.gid || suser t
        then set_egid egid (record t { gid = ushort rgid })
        else (t, eperm))
    else set_egid egid t

pub sys_setgid : ℤ → Task → Task × ℤ
unfolding sys_setregid
sys_setgid gid t = sys_setregid gid gid t

-- The second half of `sys_setreuid`; the first has put `ruid` in place.
abbrev set_euid : ℕ → ℤ → Task → Task × ℤ
set_euid old_ruid euid t =
    if is_pos euid
    then (if eq_pos euid old_ruid || eq_pos euid t.euid || suser t
        then (record t { euid = ushort euid }, pos 0)
        else (record t { uid = old_ruid }, eperm))
    else (t, pos 0)

pub sys_setreuid : ℤ → ℤ → Task → Task × ℤ
sys_setreuid ruid euid t =
    if is_pos ruid
    then (if eq_pos ruid t.euid || eq_pos ruid t.uid || suser t
        then set_euid t.uid euid (record t { uid = ushort ruid })
        else (t, eperm))
    else set_euid t.uid euid t

pub sys_setuid : ℤ → Task → Task × ℤ
unfolding sys_setreuid
sys_setuid uid t = sys_setreuid uid uid t
