-- ===== src/Process/Waiting.antt =====
-- Which child `sys_waitpid` finds.
use learn_linux.Common.{
  ℕ, zero, suc, ◌-◌, ◌≤◌, ◌<◌, ◌≡◌, refl, ◌⊎◌, inl, inr, Bool, true, false, ◌&&◌, none, some, arith,
  ◌==◌, ltb, leb, Bool-cases, Option-cases, update,
}
use learn_linux.Common.Int.{ℤ, pos}
use learn_linux.Task.{Task, TaskState, Table, nr_tasks, echild}
use learn_linux.Process.{
  release, is_zombie, is_stopped, is_child, Scan, stopped, zombie, no_one, look_in, scan, Waited,
  returns, sleeps, add_times, finish, sys_waitpid,
}

-- Slot i holds a task t, not the caller, that the caller waits for.
pub record Awaited (cur : ℕ) (current : Task) (pid : ℤ) (table : Table) (i : ℕ) (t : Task)
    : Type 0 where
  pub at : table i ≡ some t
  pub other : (i == cur) ≡ false
  pub child : is_child pid current t ≡ true

stopped-is_zombie : (t : Task) → is_stopped t ≡ true → is_zombie t ≡ false
stopped-is_zombie t h = ground arith

module _ (cur : ℕ) (current : Task) (pid : ℤ) (table : Table) where
  -- What a scan of the slots 1 to n finds.
  pub data Scanned (n : ℕ) (flag : Bool) (s : Scan) : Type 0 where
    found_zombie :
        (i : ℕ) (t : Task)
        → s ≡ zombie i t
        → (1 ≤ i) × (i ≤ n)
        → Awaited cur current pid table i t
        → is_zombie t ≡ true
        → Scanned n flag s
    found_stopped :
        (i : ℕ) (t : Task)
        → s ≡ stopped i t
        → (1 ≤ i) × (i ≤ n)
        → Awaited cur current pid table i t
        → is_stopped t ≡ true
        → Scanned n flag s
    found_none :
        (f : Bool)
        → s ≡ no_one f
        → ((i : ℕ) (t : Task)
            → 1 ≤ i
            → i ≤ n
            → Awaited cur current pid table i t
            → is_zombie t ≡ false)
        → Scanned n flag s

  Scanned-mono :
      (n : ℕ) (flag f : Bool) (s : Scan)
      → ((t : Task) → Awaited cur current pid table (suc n) t → is_zombie t ≡ false)
      → Scanned n f s
      → Scanned (suc n) flag s
  Scanned-mono n flag f s top (found_zombie i t e low a z) =
      found_zombie i t e (low.0, omega arith) a z
  Scanned-mono n flag f s top (found_stopped i t e low a z) =
      found_stopped i t e (low.0, omega arith) a z
  Scanned-mono n flag f s top (found_none g e all) = found_none g e λ i t low high a.
      elim (Bool-cases (i == suc n)) [
        | inl here ↦ let e' : i ≡ suc n = ground arith in top t (rw e' at a)
        | inr below ↦ all i t low (ground arith) a
      ]

  passed :
      (n : ℕ) (t : Task)
      → table (suc n) ≡ some t
      → ((suc n == cur) ≡ true) ⊎ (is_child pid current t ≡ false) ⊎ (is_zombie t ≡ false)
      → (t' : Task) → Awaited cur current pid table (suc n) t'
      → is_zombie t' ≡ false
  passed n t at why t' a =
      let at' = a.at in
      let other = a.other in
      let child = a.child in
      let same : t ≡ t' = cc in
      elim why [
        | inl here ↦ cc
        | inr (inl stranger) ↦ let stranger' = rw same at stranger in cc
        | inr (inr alive) ↦ rw same at alive
      ]

  looked_at :
      (untraced : Bool) (n : ℕ) (flag : Bool) (t : Task) {rest waiting : Scan}
      → table (suc n) ≡ some t
      → Scanned n flag rest
      → Scanned n true waiting
      → Scanned (suc n) flag (look_in cur current pid untraced (suc n) (some t) rest waiting)
  looked_at untraced n flag t at rest waiting = elim (Bool-cases (suc n == cur)) [
    | inl here ↦ rw here (Scanned-mono n flag flag _ (passed n t at (inl here)) rest)
    | inr other ↦ elim (Bool-cases (is_child pid current t)) [
      | inr stranger ↦
          rw (other, stranger)
            (Scanned-mono n flag flag _ (passed n t at (inr (inl stranger))) rest)
      | inl child ↦
          let a : Awaited cur current pid table (suc n) t = record {
            at = at;
            other = other;
            child = child;
          } in
          elim (Bool-cases (is_stopped t)) [
            | inl still ↦ elim (Bool-cases untraced) [
              | inl report ↦
                  rw (other, child, still, report)
                    (found_stopped (suc n) t refl (omega arith, omega arith) a still)
              | inr silent ↦
                  rw (other, child, still, silent)
                    (Scanned-mono n flag flag _
                      (passed n t at (inr (inr (stopped-is_zombie t still)))) rest)
            ]
            | inr moving ↦ elim (Bool-cases (is_zombie t)) [
              | inl dead ↦
                  rw (other, child, moving, dead)
                    (found_zombie (suc n) t refl (omega arith, omega arith) a dead)
              | inr alive ↦
                  rw (other, child, moving, alive)
                    (Scanned-mono n flag true _ (passed n t at (inr (inr alive))) waiting)
            ]
          ]
    ]
  ]

  scan-Scanned :
      (untraced : Bool) (n : ℕ) (flag : Bool)
      → Scanned n flag (scan cur current pid untraced n flag table)
  unfolding scan
  scan-Scanned untraced zero flag = found_none flag refl λ i t low high a. absurd (omega arith)
  scan-Scanned untraced (suc n) flag = elim (Option-cases (table (suc n))) [
    | inl empty ↦
        rw empty
          (Scanned-mono n flag flag _ (λ t a. let at = a.at in cc) (scan-Scanned untraced n flag))
    | inr (t, at) ↦ rw at (
        looked_at untraced n flag t at (scan-Scanned untraced n flag)
          (scan-Scanned untraced n true))
  ]

-- What `sys_waitpid` does: it reaps a zombie that is waited for, whose slot is empty after it and
-- whose times the caller gets, and stores its exit code; it reports a stopped child, where that is
-- asked for, and stores 127; or no zombie is waited for, and it returns 0 or -ECHILD with the table as it
-- was, or puts the caller to sleep.
pub data WaitedFor (cur : ℕ) (current : Task) (pid : ℤ) (table : Table) (r : Waited) : Type 0 where
  reaped :
      (i : ℕ) (t : Task)
      → Awaited cur current pid table i t
      → is_zombie t ≡ true
      → r
        ≡ returns
            (update (update table cur (some (add_times t current))) i none)
            (pos t.pid)
            (some t.exit_code)
      → WaitedFor cur current pid table r
  reported :
      (i : ℕ) (t : Task)
      → Awaited cur current pid table i t
      → is_stopped t ≡ true
      → r ≡ returns table (pos t.pid) (some 127)
      → WaitedFor cur current pid table r
  none_dead :
      ((i : ℕ) (t : Task)
        → 1 ≤ i
        → i < nr_tasks
        → Awaited cur current pid table i t
        → is_zombie t ≡ false)
      → (r ≡ returns table (pos 0) none)
        ⊎ (r ≡ returns table echild none)
        ⊎ (r
            ≡ sleeps (update table cur (some (record current { state = TaskState.interruptible }))))
      → WaitedFor cur current pid table r

module _ (cur : ℕ) (current : Task) (pid : ℤ) (nohang untraced : Bool) (table : Table) where
  reaps :
      (i : ℕ) (t : Task)
      → (1 ≤ i) × (i ≤ nr_tasks - 1)
      → Awaited cur current pid table i t
      → release i (update table cur (some (add_times t current)))
        ≡ some (update (update table cur (some (add_times t current))) i none)
  reaps i t low a =
      let other : (cur == i) ≡ false = let h = a.other in ground arith in
      let in_range : (leb 1 i && ltb i nr_tasks) ≡ true = ground arith in
      let at = a.at in rw (in_range, other, at) refl

  finish-WaitedFor :
      (s : Scan)
      → Scanned cur current pid table (nr_tasks - 1) false s
      → WaitedFor cur current pid table (finish cur current nohang table s)
  finish-WaitedFor s (found_zombie i t e low a dead) =
      reaped i t a dead (rw (e, finish, reaps i t low a) refl)
  finish-WaitedFor s (found_stopped i t e low a still) = reported i t a still (rw (e, finish) refl)
  finish-WaitedFor s (found_none false e all) =
      none_dead (λ i t low high. all i t low (omega arith)) (inr (inl (rw (e, finish) refl)))
  finish-WaitedFor s (found_none true e all) = elim (Bool-cases nohang) [
    | inl at_once ↦
        none_dead (λ i t low high. all i t low (omega arith)) (inl (rw (e, finish, at_once) refl))
    | inr patient ↦
        none_dead (λ i t low high. all i t low (omega arith))
          (inr (inr (rw (e, finish, patient) refl)))
  ]

  -- A scan by `sys_waitpid` never panics. It reaps a zombie that is waited for: its slot is empty then,
  -- the caller gets its times, and the result is its number; or it reports a stopped child and
  -- changes nothing; or no zombie that is waited for is in the slots 1 to 63, and the result is 0 or
  -- -ECHILD with the table as it was, or the caller sleeps.
  pub sys_waitpid-WaitedFor :
      WaitedFor cur current pid table (sys_waitpid cur current pid nohang untraced table)
  unfolding sys_waitpid
  sys_waitpid-WaitedFor =
      finish-WaitedFor _ (scan-Scanned cur current pid table untraced (nr_tasks - 1) false)
