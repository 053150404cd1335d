-- ===== src/Signals/Killable.antt =====
-- Can SIGKILL be blocked or caught?
use learn_linux.Common.{
  ℕ, ◌-◌, ◌≤◌, ◌≡◌, refl, ◌≢◌, inl, inr, true, false, arith, ◌==◌, ==_refl, Bool-cases, update,
}
use learn_linux.Common.Int.{ℤ, pos}
use learn_linux.Common.Words.{Word}
use learn_linux.Task.{Task, SigAction, sigkill_bit}
use learn_linux.Signals.{
  sys_ssetmask, sys_signal, sys_sigaction, do_signal, in_handler, bit_of, not_settable, Registers,
  Delivered, passed_over, exits, handled,
}

-- SIGKILL is not blocked, has no handler, and no handler runs with it blocked.
pub record IsKillable (t : Task) : Type 0 where
  pub open_bit : t.blocked sigkill_bit ≡ false
  pub no_handler : (t.sigaction sigkill_bit).sa_handler ≡ 0
  pub no_mask : (i : ℕ) → (t.sigaction i).sa_mask sigkill_bit ≡ false

-- The task after a signal is handled.
abbrev pub after : Task → Delivered → Task
after t passed_over = t
after t (exits code) = t
after t (handled t' eip esp pushed) = t'

module _ (t : Task) (k : IsKillable t) where
  ssetmask-IsKillable : (newmask : Word) → IsKillable (sys_ssetmask newmask t).0
  unfolding sys_ssetmask
  ssetmask-IsKillable newmask = record {
    open_bit = refl;
    no_handler = k.no_handler;
    no_mask = k.no_mask;
  }

  set_action-IsKillable :
      (bit : ℕ) (action : SigAction)
      → (bit == sigkill_bit) ≡ false
      → action.sa_mask sigkill_bit ≡ false
      → IsKillable (record t { sigaction = update t.sigaction bit action })
  set_action-IsKillable bit action other clear = record {
    open_bit = k.open_bit;
    no_handler = rw other k.no_handler;
    no_mask = λ i. ground (arith, k.no_mask i);
  }

  settable-ne : (signum : ℤ) → not_settable signum ≡ false → (bit_of signum == sigkill_bit) ≡ false
  settable-ne signum h = ground arith

  signal-IsKillable :
      (signum : ℤ) (handler restorer : ℕ) → IsKillable (sys_signal signum handler restorer t).0
  unfolding sys_signal
  signal-IsKillable signum handler restorer = elim (Bool-cases (not_settable signum)) [
    | inl bad ↦ rw bad k
    | inr settable ↦
        rw settable (set_action-IsKillable (bit_of signum) _ (settable-ne signum settable) refl)
  ]

  sigaction-IsKillable :
      (signum : ℤ) (action : SigAction)
      → action.sa_mask sigkill_bit ≡ false
      → IsKillable (sys_sigaction signum action t).0
  unfolding sys_sigaction
  sigaction-IsKillable signum action clear = elim (Bool-cases (not_settable signum)) [
    | inl bad ↦ rw bad k
    | inr settable ↦ rw settable (
        set_action-IsKillable (bit_of signum) _ (settable-ne signum settable)
          (let ne = settable-ne signum settable in ground arith))
  ]

  in_handler-IsKillable : (bit : ℕ) → IsKillable (in_handler bit (t.sigaction bit) t)
  in_handler-IsKillable bit = record {
    open_bit = rw (k.open_bit, k.no_mask bit);
    no_handler = ground (arith, k.no_handler);
    no_mask = λ i. ground (arith, k.no_mask i, k.no_mask bit);
  }

  do_signal-IsKillable : (signr : ℕ) (r : Registers) → IsKillable (after t (do_signal signr t r))
  unfolding do_signal
  do_signal-IsKillable signr r =
      let sa = t.sigaction (signr - 1) in
      elim (Bool-cases (sa.sa_handler == 1)) [
        | inl ignored ↦ rw (ignored, after) k
        | inr used ↦ elim (Bool-cases (sa.sa_handler == 0)) [
          | inl default ↦ elim (Bool-cases (signr == 17)) [
            | inl child ↦ rw (used, default, child, after) k
            | inr other ↦ rw (used, default, other, after) k
          ]
          | inr own ↦ rw (used, own, after) (in_handler-IsKillable (signr - 1))
        ]
      ]

-- No call lets a task escape SIGKILL, as long as no action with SIGKILL in its mask is installed: if
-- SIGKILL is not blocked, has no handler and is in no mask, that stays so under `sys_ssetmask`,
-- `sys_signal`, `sys_sigaction` of such an action, and the delivery of any signal.
pub calls-IsKillable :
    (t : Task) (newmask : Word) (signum : ℤ) (handler restorer : ℕ) (action : SigAction) (signr : ℕ)
    (r : Registers)
    → IsKillable t
    → action.sa_mask sigkill_bit ≡ false
    → IsKillable (sys_ssetmask newmask t).0
      × IsKillable (sys_signal signum handler restorer t).0
      × IsKillable (sys_sigaction signum action t).0
      × IsKillable (after t (do_signal signr t r))
calls-IsKillable t newmask signum handler restorer action signr r k clear = (
  ssetmask-IsKillable t k newmask,
  signal-IsKillable t k signum handler restorer,
  sigaction-IsKillable t k signum action clear,
  do_signal-IsKillable t k signr r,
)

-- But `sys_sigaction` takes a mask with SIGKILL in it as it is: a task that installs such an action
-- for another signal, with a handler and without SA_NOMASK, has SIGKILL blocked while it is in the
-- handler.
pub mask_blocks_kill :
    (t : Task) (n : ℕ) (action : SigAction) (r : Registers)
    → 1 ≤ n
    → n ≤ 32
    → n ≢ 9
    → 2 ≤ action.sa_handler
    → action.sa_nomask ≡ false
    → action.sa_mask sigkill_bit ≡ true
    → (after t (do_signal n (sys_sigaction (pos n) action t).0 r)).blocked sigkill_bit ≡ true
unfolding do_signal sys_sigaction
mask_blocks_kill t n action r low high ne own nomask kill =
    let settable : not_settable (pos n) ≡ false = ground arith in
    let h0 : (action.sa_handler == 0) ≡ false = ground arith in
    let h1 : (action.sa_handler == 1) ≡ false = ground arith in
    simp (settable, ==_refl, h0, h1, nomask, kill) (ground arith)
