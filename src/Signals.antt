-- ===== src/Signals.antt =====
-- linux-0.11/kernel/signal.c, and the sending of signals in linux-0.11/kernel/exit.c. Signal n is bit
-- n - 1 of a word. User memory is not part of the state: the `sigaction` that a call reads there is
-- an argument, and what it writes there is part of its result.
pub mod Killable
pub mod Kill
mod Tests
use learn_linux.Common.{
  ℕ, zero, suc, ◌+◌, ◌-◌, ◌*◌, ◌%◌, ◌^◌, Bool, false, true, not, ◌&&◌, ◌||◌, Option, none, some,
  List, [], ◌∷◌, ◌==◌, ltb, leb, if◌then◌else◌, update, length,
}
use learn_linux.Common.Int.{ℤ, pos, neg, pos_part, ltb_ℤ, is_pos, eq_pos, eq_ℤ}
use learn_linux.Common.Words.{Word, with_bit, without_bit, no_bits}
use learn_linux.Task.{
  Task, SigAction, Table, nr_tasks, sigkill_bit, sighup_bit, sigchld_bit, eperm, einval,
}
use learn_linux.Ids.{suser}

unfoldable pub sys_ssetmask : (newmask : Word) → Task → Task × Word
sys_ssetmask newmask t = (record t { blocked = without_bit newmask sigkill_bit }, t.blocked)

-- signum<1 || signum>32 || signum==SIGKILL
abbrev pub not_settable : ℤ → Bool
not_settable signum = not (is_pos signum) || ltb 32 (pos_part signum) || eq_pos signum 9

-- signum - 1
abbrev pub bit_of : ℤ → ℕ
bit_of signum = pos_part signum - 1

-- The old handler, or none for the result -1.
unfoldable pub sys_signal : (signum : ℤ) (handler restorer : ℕ) → Task → Task × Option ℕ
sys_signal signum handler restorer t = if not_settable signum then (t, none) else (
  record t {
    sigaction = update t.sigaction (bit_of signum) (record {
      sa_handler = handler;
      sa_mask = no_bits;
      sa_nomask = true;
      sa_oneshot = true;
      sa_restorer = restorer;
    });
  },
  some (t.sigaction (bit_of signum)).sa_handler,
)

-- The mask of a new action: its own signal is added, or all is cleared.
abbrev pub with_own_mask : (bit : ℕ) → SigAction → SigAction
with_own_mask bit action = record action {
  sa_mask = if action.sa_nomask then no_bits else with_bit action.sa_mask bit;
}

-- The old action, which is written to `oldaction`, or none for the result -1.
unfoldable pub sys_sigaction : (signum : ℤ) (action : SigAction) → Task → Task × Option SigAction
sys_sigaction signum action t = if not_settable signum then (t, none) else (
  record t {
    sigaction = update t.sigaction (bit_of signum) (with_own_mask (bit_of signum) action);
  },
  some (t.sigaction (bit_of signum)),
)

-- The registers that `do_signal` saves on the user's stack.
pub record Registers : Type 0 where
  pub eax : ℕ
  pub ecx : ℕ
  pub edx : ℕ
  pub eflags : ℕ
  pub eip : ℕ
  pub esp : ℕ

-- One word on the user's stack: a number or a mask.
pub data Pushed : Type 0 where
  number : ℕ → Pushed
  mask : Word → Pushed

-- The signal is passed over; the task ends with the code; or it goes on in the handler, with the
-- words on the stack from `esp` on.
pub data Delivered : Type 0 where
  passed_over : Delivered
  exits : (code : ℕ) → Delivered
  handled : Task → (eip esp : ℕ) → List Pushed → Delivered

-- if (!(sa->sa_flags & SA_NOMASK)) put_fs_long(current->blocked,tmp_esp++);
abbrev pub push_mask : SigAction → Word → List Pushed → List Pushed
push_mask sa blocked rest = if sa.sa_nomask then rest else mask blocked ∷ rest

abbrev pub frame : (signr : ℕ) (sa : SigAction) → Task → Registers → List Pushed
frame signr sa t r =
    number sa.sa_restorer
    ∷ number signr
    ∷ push_mask sa t.blocked
        (number r.eax ∷ number r.ecx ∷ number r.edx ∷ number r.eflags ∷ number r.eip ∷ [])

-- Once its handler is called, a one-shot action has none; its mask is blocked meanwhile.
abbrev pub in_handler : (bit : ℕ) (sa : SigAction) → Task → Task
in_handler bit sa t = record t {
  sigaction =
      if sa.sa_oneshot then update t.sigaction bit (record sa { sa_handler = 0 }) else t.sigaction;
  blocked = λ i. t.blocked i || sa.sa_mask i;
}

-- The stack pointer is a word of 32 bits.
abbrev pub call_handler : (signr : ℕ) (sa : SigAction) → Task → Registers → Delivered
call_handler signr sa t r =
    let longs = if sa.sa_nomask then 7 else 8 in
    handled (in_handler (signr - 1) sa t) sa.sa_handler ((r.esp + 2 ^ 32 - longs * 4) % 2 ^ 32)
      (frame signr sa t r)

-- Signal 17 is SIGCHLD.
unfoldable pub do_signal : (signr : ℕ) → Task → Registers → Delivered
do_signal signr t r =
    let sa = t.sigaction (signr - 1) in
    if sa.sa_handler == 1
    then passed_over
    else if sa.sa_handler == 0
    then (if signr == 17 then passed_over else exits (2 ^ (signr - 1)))
    else call_handler signr sa t r

-- A null pointer to a task is none.
unfoldable pub send_sig : (current : Task) (sig : ℤ) → Option Task → (priv : Bool) → Option Task × ℤ
send_sig current sig none priv = (none, einval)
send_sig current sig (some p) priv =
    if not (is_pos sig) || ltb 32 (pos_part sig)
    then (some p, einval)
    else if priv || current.euid == p.euid || suser current
    then (some (record p { signal = with_bit p.signal (bit_of sig) }), pos 0)
    else (some p, eperm)

-- if (err = send_sig(sig,*p,priv)) retval = err, for the slot i
abbrev pub send_to : (current : Task) (sig : ℤ) (priv : Bool) (i : ℕ) → Table × ℤ → Table × ℤ
send_to current sig priv i (table, retval) =
    let (o, err) = send_sig current sig (table i) priv in
    (update table i o, if eq_pos err 0 then retval else err)

abbrev pub accepts : (Task → Bool) → Option Task → Bool
accepts test none = false
accepts test (some t) = test t

-- The slots n, n - 1, ..., 1 that hold a task which the test accepts.
unfoldable pub kill_where :
    (current : Task) (sig : ℤ) (priv : Bool) → (Task → Bool) → (n : ℕ) → Table × ℤ → Table × ℤ
kill_where current sig priv test zero s = s
kill_where current sig priv test (suc n) s =
    kill_where current sig priv test n
      (if accepts test (s.0 (suc n)) then send_to current sig priv (suc n) s else s)

-- pid == -1. The `else` of the source belongs to the inner `if`: after the first signal that is
-- sent, only the tasks of group 1 (`-pid`) are signalled.
unfoldable pub kill_all : (current : Task) (sig : ℤ) → (n : ℕ) → Table × ℤ → Table × ℤ
kill_all current sig zero s = s
kill_all current sig (suc n) s =
    let more = kill_all current sig n (send_to current sig false (suc n) s) in
    let group =
      kill_where current sig false (λ t. eq_ℤ t.pgrp (pos 1)) n
        (send_to current sig false (suc n) s) in
    if eq_pos (send_sig current sig (s.0 (suc n)) false).1 0 then group else more

unfoldable pub sys_kill : (current : Task) (pid sig : ℤ) → Table → Table × ℤ
sys_kill current pid sig table =
    if eq_pos pid 0
    then kill_where current sig true (λ t. eq_ℤ t.pgrp (pos current.pid)) (nr_tasks - 1)
        (table, pos 0)
    else if is_pos pid
    then kill_where current sig false (λ t. eq_pos pid t.pid) (nr_tasks - 1) (table, pos 0)
    else if eq_ℤ pid (neg 1)
    then kill_all current sig (nr_tasks - 1) (table, pos 0)
    else (table, pos 0)
