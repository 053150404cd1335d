-- ===== src/Sched/Sleep/Wakeup.antt =====
-- Is a task that sleeps always found again by a wake-up?
use mathlib.Core.Path.{subst}
use learn_linux.Common.{
  ℕ, ◌≡◌, refl, ◌≢◌, ◌⊎◌, inl, inr, false, Option, none, some, arith, ◌==◌, ==_refl, Bool-cases,
}
use learn_linux.Task.{TaskState}
use learn_linux.Sched.Sleep.{
  Queue, enqueue, leave, wake_tmp, wake_head, sleep_on, sleep_on_resume, interruptible_sleep_on,
  interruptible_resume, wake_up,
}

-- What the tasks that use `sleep_on` and the code that calls `wake_up` can do to a queue: a running
-- task outside goes to sleep, a running task inside goes on, the queue is woken.
pub data Step (q : Queue) : Queue → Type 0 where
  sleep :
      (i : ℕ) {r : Queue}
      → q.state i ≡ TaskState.running
      → q.tmp i ≡ none
      → sleep_on i q ≡ some r
      → Step q r
  resume :
      (i : ℕ) (o : Option ℕ)
      → q.state i ≡ TaskState.running
      → q.tmp i ≡ some o
      → Step q (sleep_on_resume i q)
  wake : Step q (wake_up q)

pub data Reach (q : Queue) : Queue → Type 0 where
  here : Reach q q
  next : {r s : Queue} → Reach q r → Step r s → Reach q s

-- Whoever sleeps is the head of the queue, or a task inside a call will wake it.
abbrev pub IsHeld : Queue → ℕ → Type 0
IsHeld q i = (q.head ≡ some i) ⊎ ((k : ℕ) × (q.tmp k ≡ some (some i)))

-- No task sleeps that nobody will wake.
abbrev pub NoneLost : Queue → Type 0
NoneLost q = (i : ℕ) → q.state i ≡ TaskState.uninterruptible → IsHeld q i

enqueue-NoneLost :
    (q : Queue) (n : ℕ)
    → q.tmp n ≡ none
    → NoneLost q
    → NoneLost (enqueue n TaskState.uninterruptible q)
enqueue-NoneLost q n out safe i s = elim (Bool-cases (n == i)) [
  | inl same ↦ inl (ground arith)
  | inr other ↦ elim (safe i (rw other at s)) [
    | inl at_head ↦ inr (n, ground (arith, ==_refl n))
    | inr (k, held) ↦
        inr (k, elim (Bool-cases (n == k)) [ inl e ↦ ground arith | inr e ↦ rw e held ])
  ]
]

leave-NoneLost :
    (q : Queue) (n : ℕ) (o : Option ℕ)
    → q.tmp n ≡ some o
    → NoneLost q
    → NoneLost (leave n (wake_tmp o q))
leave-NoneLost q n none inside safe i s = elim (safe i s) [
  | inl at_head ↦ inl at_head
  | inr (k, held) ↦ inr (k, ground arith)
]
leave-NoneLost q n (some j) inside safe i s = elim (Bool-cases (j == i)) [
  | inl woken ↦ let bad : TaskState.running ≡ TaskState.uninterruptible = rw woken at s in cc
  | inr other ↦ elim (safe i (rw other at s)) [
    | inl at_head ↦ inl at_head
    | inr (k, held) ↦ inr (k, ground arith)
  ]
]

wake_head-NoneLost : (q : Queue) (o : Option ℕ) → q.head ≡ o → NoneLost q → NoneLost (wake_head o q)
wake_head-NoneLost q none empty safe i s = safe i s
wake_head-NoneLost q (some h) at_head safe i s = elim (Bool-cases (h == i)) [
  | inl woken ↦ let bad : TaskState.running ≡ TaskState.uninterruptible = rw woken at s in cc
  | inr other ↦ elim (safe i (rw other at s)) [
    | inl at_i ↦ absurd (ground arith)
    | inr held ↦ inr held
  ]
]

Step-NoneLost : {q r : Queue} → Step q r → NoneLost q → NoneLost r
unfolding sleep_on sleep_on_resume wake_up
Step-NoneLost {q} (sleep n {r} run out e) safe =
    let e' : enqueue n TaskState.uninterruptible q ≡ r = ground arith in
    subst NoneLost e' (enqueue-NoneLost q n out safe)
Step-NoneLost {q} (resume n o run inside) safe = rw inside (leave-NoneLost q n o inside safe)
Step-NoneLost {q} wake safe = wake_head-NoneLost q q.head refl safe

-- However tasks sleep by `sleep_on`, go on and are woken, from a queue where nobody who sleeps is
-- lost: each task that sleeps is the head of the queue, or is held by a task inside the call, which
-- wakes it when it goes on.
pub Reach-NoneLost : {q r : Queue} → Reach q r → NoneLost q → NoneLost r
Reach-NoneLost here safe = safe
Reach-NoneLost (next steps step) safe = Step-NoneLost step (Reach-NoneLost steps safe)

-- Task a sleeps by `interruptible_sleep_on` and is woken; before it runs, task b sleeps; then a goes
-- on, and then b.
pub race : (a b : ℕ) → Queue → Option Queue
race a b q = elim (interruptible_sleep_on a q) [
  | none ↦ none
  | some q1 ↦ elim (interruptible_sleep_on b (wake_up q1)) [
    | none ↦ none
    | some q2 ↦ some (interruptible_resume b (interruptible_resume a q2))
  ]
]

-- Two tasks that sleep by `interruptible_sleep_on` on an empty queue can lose a wake-up: in the run
-- `race` the first one sleeps again in the end, while the queue is empty and no task inside a call
-- holds it.
pub interruptible_lost :
    (a b : ℕ) (q : Queue)
    → a ≢ 0
    → b ≢ 0
    → a ≢ b
    → q.head ≡ none
    → ((k : ℕ) → q.tmp k ≡ none)
    → (r : Queue) × (race a b q ≡ some r)
      × (r.state a ≡ TaskState.interruptible)
      × (r.head ≡ none)
      × ((k : ℕ) → r.tmp k ≢ some (some a))
unfolding race interruptible_sleep_on interruptible_resume wake_up
interruptible_lost a b q ha hb ne empty outside =
    let st = TaskState.interruptible in
    let q2 = enqueue b st (wake_up (enqueue a st q)) in
    let ba : (b == a) ≡ false = ground arith in
    let ab : (a == b) ≡ false = ground arith in
    (
      interruptible_resume b (interruptible_resume a q2),
      ground arith,
      simp (ba, ab, ==_refl, empty, outside),
      simp (ba, ab, ==_refl, empty, outside),
      λ k. simp (ba, ab, ==_refl, empty, outside) (ground (arith, outside k)),
    )
