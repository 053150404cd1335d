-- ===== src/Session/Groups.antt =====
-- Process groups and sessions.
use learn_linux.Common.{
  ℕ, zero, suc, ◌+◌, ◌≤◌, ◌<◌, ◌≡◌, refl, sym, ap, ◌⊎◌, inl, inr, false, true, some, arith, ◌==◌,
  ==_iff, update, Bool-cases, Option-cases,
}
use learn_linux.Common.Int.{ℤ, pos, eq_pos}
use learn_linux.Task.{Task, Table, nr_tasks, eperm, esrch}
use learn_linux.Session.{move_to_group, setpgid_loop, own, sys_setpgid}

-- The new table `b` is `a` and the result is -EPERM or -ESRCH; or the result is 0 and the group is
-- changed of one task, which has the process number `pid`, leads no session and is in the caller's.
pub data Regrouped (current : Task) (pid pgid : ℤ) (a b : Table) (r : ℤ) : Type 0 where
  failed : (r ≡ eperm) ⊎ (r ≡ esrch) → b ≡ a → Regrouped current pid pgid a b r
  moved :
      (i : ℕ) (t : Task)
      → i < nr_tasks
      → r ≡ pos 0
      → a i ≡ some t
      → eq_pos pid t.pid ≡ true
      → t.leader ≡ false
      → t.session ≡ current.session
      → b ≡ update a i (some (record t { pgrp = pgid }))
      → Regrouped current pid pgid a b r

module _ (current : Task) (pid pgid : ℤ) (table : Table) where
  move_to_group-Regrouped :
      (i : ℕ) (t : Task)
      → i < nr_tasks
      → table i ≡ some t
      → eq_pos pid t.pid ≡ true
      → Regrouped current pid pgid table
          (move_to_group current pgid i t table).0
          (move_to_group current pgid i t table).1
  move_to_group-Regrouped i t slot at same = elim (Bool-cases t.leader) [
    | inl leads ↦ simp leads (failed (inl refl) refl)
    | inr follows ↦ elim (Bool-cases (t.session == current.session)) [
      | inl its_own ↦
          simp (follows, its_own)
            (moved i t slot refl at same follows ((==_iff _ _).0 its_own) (
              ap (λ b. update table i (some (record t { pgrp = pgid; leader = b }))) (sym follows)))
      | inr other ↦ simp (follows, other) (failed (inl refl) refl)
    ]
  ]

  setpgid_loop-Regrouped :
      (n i : ℕ)
      → n + i ≤ nr_tasks
      → Regrouped current pid pgid table
          (setpgid_loop current pid pgid n i table).0
          (setpgid_loop current pid pgid n i table).1
  unfolding setpgid_loop
  setpgid_loop-Regrouped zero i h = failed (inr refl) refl
  setpgid_loop-Regrouped (suc n) i h =
      let rest = setpgid_loop-Regrouped n (i + 1) (omega arith) in
      elim (Option-cases (table i)) [
        | inl empty ↦ rw (empty, setpgid_loop) rest
        | inr (t, at) ↦ elim (Bool-cases (eq_pos pid t.pid)) [
          | inl same ↦
              rw (at, same, setpgid_loop) (move_to_group-Regrouped i t (omega arith) at same)
          | inr other ↦ rw (at, other, setpgid_loop) rest
        ]
      ]

-- `sys_setpgid` changes at most the group of one task: a task with the process number asked for
-- (the caller's own, for 0), not the leader of a session, of the caller's session; else it changes
-- nothing and returns -EPERM or -ESRCH.
pub sys_setpgid-Regrouped :
    (current : Task) (pid pgid : ℤ) (table : Table)
    → Regrouped current
        (own current pid)
        (own current pgid)
        table
        (sys_setpgid current pid pgid table).0
        (sys_setpgid current pid pgid table).1
unfolding sys_setpgid
sys_setpgid-Regrouped current pid pgid table =
    setpgid_loop-Regrouped current (own current pid) (own current pgid) table nr_tasks 0
      (omega arith)
