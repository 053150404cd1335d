-- ===== src/Signals/Kill.antt =====
-- Whom `sys_kill` signals.
use learn_linux.Common.{
  ℕ, zero, suc, ◌+◌, ◌-◌, ◌<◌, ◌≡◌, refl, sym, ap, ◌∙◌, inl, inr, Bool, true, false, not, ◌&&◌,
  ◌||◌, Option, none, some, arith, ◌==◌, ltb, leb, Bool-cases, if◌then◌else◌, update,
}
use learn_linux.Common.Int.{ℤ, pos, neg, pos_part, is_pos, eq_pos, eq_ℤ}
use learn_linux.Common.Words.{with_bit}
use learn_linux.Task.{Task, Table, nr_tasks}
use learn_linux.Ids.{suser}
use learn_linux.Signals.{bit_of, send_sig, send_to, accepts, kill_where, kill_all, sys_kill}

-- What `kill_where` leaves in a slot.
abbrev pub signalled :
    (current : Task) (sig : ℤ) (priv : Bool) → (Task → Bool) → Option Task → Option Task
signalled current sig priv test o = if accepts test o then (send_sig current sig o priv).0 else o

-- The slots up to n are scanned.
abbrev scanned : (n i : ℕ) → Bool
scanned n i = not (i == 0) && leb i n

module _ (current : Task) (sig : ℤ) (priv : Bool) (test : Task → Bool) where
  -- The slot suc n has been dealt with, and is not scanned again.
  accepted_step :
      (n : ℕ) (table : Table) (i : ℕ)
      → accepts test (table (suc n)) ≡ true
      → (let o = (send_sig current sig (table (suc n)) priv).0 in
          let t = update table (suc n) o in
          if scanned n i then signalled current sig priv test (t i) else t i)
        ≡ (if scanned (suc n) i then signalled current sig priv test (table i) else table i)
  accepted_step n table i acc = elim (Bool-cases (suc n == i)) [
    | inl here ↦
        let e : suc n ≡ i = ground arith in
        let acc' : accepts test (table i) ≡ true = rw e at acc in
        let low : scanned n i ≡ false = ground arith in
        let high : scanned (suc n) i ≡ true = ground arith in rw (low, high, here, acc', e)
    | inr other ↦ let e : scanned (suc n) i ≡ scanned n i = ground arith in rw (other, e)
  ]

  passed_step :
      (n : ℕ) (table : Table) (i : ℕ)
      → accepts test (table (suc n)) ≡ false
      → (if scanned n i then signalled current sig priv test (table i) else table i)
        ≡ (if scanned (suc n) i then signalled current sig priv test (table i) else table i)
  passed_step n table i pass = elim (Bool-cases (suc n == i)) [
    | inl here ↦
        let e : suc n ≡ i = ground arith in
        let pass' : accepts test (table i) ≡ false = rw e at pass in
        let low : scanned n i ≡ false = ground arith in
        let high : scanned (suc n) i ≡ true = ground arith in rw (low, high, pass')
    | inr other ↦ let e : scanned (suc n) i ≡ scanned n i = ground arith in rw e
  ]

  kill_where_at :
      (n : ℕ) (table : Table) (r : ℤ) (i : ℕ)
      → (kill_where current sig priv test n (table, r)).0 i
        ≡ (if scanned n i then signalled current sig priv test (table i) else table i)
  unfolding kill_where
  kill_where_at zero table r i = ground arith
  kill_where_at (suc n) table r i = elim (Bool-cases (accepts test (table (suc n)))) [
    | inl acc ↦
        rw (acc, kill_where)
          (kill_where_at n (update table (suc n) (send_sig current sig (table (suc n)) priv).0) _ i
            ∙ accepted_step n table i acc)
    | inr pass ↦ rw (pass, kill_where) (kill_where_at n table r i ∙ passed_step n table i pass)
  ]

-- What a task must satisfy for `sys_kill` with the process number p, which is not negative.
abbrev pub target : (current : Task) (p : ℕ) → Task → Bool
target current p t = if p == 0 then eq_ℤ t.pgrp (pos current.pid) else p == t.pid

-- May the current task signal this one, with a signal from 1 to 32?
abbrev pub may_signal : (current : Task) (sig : ℤ) (p : ℕ) → Task → Bool
may_signal current sig p t =
    (is_pos sig && leb (pos_part sig) 32) && (p == 0 || current.euid == t.euid || suser current)

signalled-may_signal :
    (current : Task) (sig : ℤ) (p : ℕ) (priv : Bool) (test : Task → Bool) (t : Task)
    → priv ≡ (p == 0)
    → test t ≡ target current p t
    → signalled current sig priv test (some t)
      ≡ some (
          if target current p t && may_signal current sig p t
          then record t { signal = with_bit t.signal (bit_of sig) }
          else t)
unfolding send_sig
signalled-may_signal current sig p priv test t e e' = ground arith

-- The first task that is signalled hands the rest to the loop of the group.
kill_all_hands_over :
    (current : Task) (sig : ℤ) (n : ℕ) (s : Table × ℤ)
    → eq_pos (send_sig current sig (s.0 (suc n)) false).1 0 ≡ true
    → kill_all current sig (suc n) s
      ≡ kill_where current sig false
          (λ t. eq_ℤ t.pgrp (pos 1))
          n
          (send_to current sig false (suc n) s)
unfolding kill_all
kill_all_hands_over current sig n s sent = rw (sent, kill_all) refl

may_signal-sent :
    (current : Task) (sig : ℤ) (p : ℕ) (t : Task)
    → may_signal current sig (suc p) t ≡ true
    → eq_pos (send_sig current sig (some t) false).1 0 ≡ true
unfolding send_sig
may_signal-sent current sig p t may = ground arith

-- What sys_kill with the process number p, which is not negative, makes of a slot of the table
abbrev pub after_kill : (current : Task) (sig : ℤ) (p : ℕ) → Option Task → Option Task
after_kill current sig p none = none
after_kill current sig p (some t) = some (
    if target current p t && may_signal current sig p t
    then record t { signal = with_bit t.signal (bit_of sig) }
    else t)

module _ (current : Task) (sig : ℤ) (table : Table) where
  signalled-after_kill :
      (p : ℕ) (priv : Bool) (test : Task → Bool) (o : Option Task)
      → priv ≡ (p == 0)
      → ((t : Task) → test t ≡ target current p t)
      → signalled current sig priv test o ≡ after_kill current sig p o
  signalled-after_kill p priv test none e e' = refl
  signalled-after_kill p priv test (some t) e e' =
      signalled-may_signal current sig p priv test t e (e' t)

  scan_at :
      (p i : ℕ) (priv : Bool) (test : Task → Bool)
      → priv ≡ (p == 0)
      → ((t : Task) → test t ≡ target current p t)
      → (kill_where current sig priv test (nr_tasks - 1) (table, pos 0)).0 i
        ≡ (if not (i == 0) && ltb i nr_tasks then after_kill current sig p (table i) else table i)
  scan_at p i priv test e e' =
      let same : scanned (nr_tasks - 1) i ≡ (not (i == 0) && ltb i nr_tasks) = ground arith in
      kill_where_at current sig priv test (nr_tasks - 1) table (pos 0) i
      ∙ ap (λ b. if b then signalled current sig priv test (table i) else table i) same
      ∙ ap (λ o. if not (i == 0) && ltb i nr_tasks then o else table i)
          (signalled-after_kill p priv test (table i) e e')

  -- For every slot of the table, full or empty: sys_kill with a process number p that is not
  -- negative sets the signal's bit, and changes nothing else, in exactly the tasks of the slots 1 to
  -- 63 that it is for: the tasks of the group numbered as the caller if p is 0, and else those with
  -- the number p that have the caller's effective user or that a superuser signals; and only if the
  -- signal is from 1 to 32. Slot 0, the empty slots and every other slot are as they were.
  pub sys_kill_at :
      (p i : ℕ)
      → (sys_kill current (pos p) sig table).0 i
        ≡ (if not (i == 0) && ltb i nr_tasks then after_kill current sig p (table i) else table i)
  unfolding sys_kill
  sys_kill_at p i = elim (Bool-cases (p == 0)) [
    | inl none_given ↦
        let test : Task → Bool = λ u. eq_ℤ u.pgrp (pos current.pid) in
        let e : sys_kill current (pos p) sig table
            ≡ kill_where current sig true test (nr_tasks - 1) (table, pos 0) =
          rw (none_given, sys_kill) refl in
        ap (λ (s : Table × ℤ). s.0 i) e
        ∙ scan_at p i true test (sym none_given) (λ t. rw none_given refl)
    | inr given ↦
        let test : Task → Bool = λ u. eq_pos (pos p) u.pid in
        let positive : ltb 0 (p + 0) ≡ true = ground arith in
        let e : sys_kill current (pos p) sig table
            ≡ kill_where current sig false test (nr_tasks - 1) (table, pos 0) =
          rw (given, positive, sys_kill) refl in
        ap (λ (s : Table × ℤ). s.0 i) e ∙ scan_at p i false test (sym given) (λ t. rw given refl)
  ]

  -- With the process number -1, the tasks below the first one that is signalled are passed over,
  -- but for those of group 1: if the task in the last slot may be signalled, a task in another slot
  -- that is not of group 1 is left as it was.
  pub broadcast_stops :
      (last : Task) (i : ℕ) (t : Task)
      → table (nr_tasks - 1) ≡ some last
      → may_signal current sig 1 last ≡ true
      → i < nr_tasks - 1
      → table i ≡ some t
      → eq_ℤ t.pgrp (pos 1) ≡ false
      → (sys_kill current (neg 1) sig table).0 i ≡ some t
  unfolding sys_kill
  broadcast_stops last i t top may below at other =
      let n = nr_tasks - 2 in
      let sent = may_signal-sent current sig 0 last may in
      ap (λ (s : Table × ℤ). s.0 i) (kill_all_hands_over current sig n (table, pos 0) (rw top sent))
      ∙ kill_where_at current sig false (λ t. eq_ℤ t.pgrp (pos 1)) n _ _ i
      ∙ (let apart : (nr_tasks - 1 == i) ≡ false = ground arith in
          elim (Bool-cases (scanned n i)) [
            | inl seen ↦ rw (apart, seen, at, other) refl
            | inr low ↦ rw (apart, low) at
          ])
