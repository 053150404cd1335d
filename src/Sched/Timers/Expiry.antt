-- ===== src/Sched/Timers/Expiry.antt =====
-- When the timers of a list run out, in ticks from now.
use learn_linux.Common.{
  ℕ, ◌+◌, ◌-◌, ◌<◌, ◌≡◌, refl, sym, ◌∙◌, false, ap, some, List, [], ◌∷◌, ◌++◌, arith, ◌==◌, ltb,
  leb, Bool-cases, inl, inr, if◌then◌else◌, length,
}
use learn_linux.Common.Int.{pos}
use learn_linux.Sched.Timers.{Timer, time_requests, sink, listed, add_timer, run_due, tick_timers}

-- The time of each entry, `now` being the time of the entry before the list.
pub times : (now : ℕ) → List Timer → List (ℕ × ℕ)
times now [] = []
times now (t ∷ rest) = (now + t.jiffies, t.fn) ∷ times (now + t.jiffies) rest

-- The entries that run out by the time `now`, and those after it with the time made less by it.
pub fired : (now : ℕ) → List (ℕ × ℕ) → List ℕ
fired now [] = []
fired now ((e, fn) ∷ rest) = if leb e now then fn ∷ fired now rest else fired now rest

pub later : (now : ℕ) → List (ℕ × ℕ) → List (ℕ × ℕ)
later now [] = []
later now ((e, fn) ∷ rest) = if leb e now then later now rest else (e - now, fn) ∷ later now rest

-- From the place of the new entry on, each time is later by `d`.
pub delay : (d : ℕ) → List (ℕ × ℕ) → List (ℕ × ℕ)
delay d [] = []
delay d ((e, fn) ∷ rest) = (e + d, fn) ∷ delay d rest

-- The entries before the time `t`, and those from it on.
pub before : (t : ℕ) → List (ℕ × ℕ) → List (ℕ × ℕ)
before t [] = []
before t ((e, fn) ∷ rest) = if ltb e t then (e, fn) ∷ before t rest else []

pub from_time : (t : ℕ) → List (ℕ × ℕ) → List (ℕ × ℕ)
from_time t [] = []
from_time t ((e, fn) ∷ rest) = if ltb e t then from_time t rest else (e, fn) ∷ rest

-- The wait between the last entry before the time `t` and `t` itself.
pub gap : (t : ℕ) → List Timer → ℕ
gap t [] = t
gap t (next ∷ rest) = if ltb next.jiffies t then gap (t - next.jiffies) rest else t

times-delay : (now d : ℕ) (l : List Timer) → times (now + d) l ≡ delay d (times now l)
unfolding times delay
times-delay now d [] = refl
times-delay now d (t ∷ rest) =
    let e : now + d + t.jiffies ≡ now + t.jiffies + d = omega arith in
    rw (e, times-delay (now + t.jiffies) d rest)

ltb-add : (n a b : ℕ) → ltb (n + a) (n + b) ≡ ltb a b
ltb-add n a b = ground arith

leb-add : (n a b : ℕ) → leb (a + n) (b + n) ≡ leb a b
leb-add n a b = ground arith

-- What `sink` does to the times: the new entry runs out when it should, and each entry behind it
-- runs out later than before by the new entry's wait.
pub times-sink :
    (now j fn : ℕ) (l : List Timer)
    → times now (sink (record { jiffies = j; fn = fn }) l)
      ≡ before (now + j) (times now l)
        ++ (now + j, fn) ∷ delay (gap j l) (from_time (now + j) (times now l))
unfolding times before from_time gap delay sink
times-sink now j fn [] = refl
times-sink now j fn (next ∷ rest) = elim (Bool-cases (ltb next.jiffies j)) [
  | inl first ↦
      let e : now + next.jiffies + (j - next.jiffies) ≡ now + j = ground arith in
      let rest_of = times-sink (now + next.jiffies) (j - next.jiffies) fn rest in
      rw (ltb-add now next.jiffies j, first)
        (ap (λ l. (now + next.jiffies, next.fn) ∷ l) (rw e at rest_of))
  | inr not_first ↦
      rw (ltb-add now next.jiffies j, not_first)
        (ap (λ l. (now + j, fn) ∷ l) (times-delay now j (next ∷ rest)))
]

-- A new timer with a wait of j > 0 ticks, in a list with a place left, runs out in j ticks; the timers
-- that run out earlier keep their times; but each timer that runs out no earlier than the new one is
-- delayed, by the new timer's wait after the entry before it.
pub add_timer-times :
    (j fn : ℕ) (l : List Timer)
    → 0 < j
    → length l < time_requests
    → (l' : List Timer) × (add_timer (pos j) (some fn) l ≡ listed l')
      × (times 0 l' ≡ before j (times 0 l) ++ (j, fn) ∷ delay (gap j l) (from_time j (times 0 l)))
unfolding add_timer
add_timer-times j fn l h place =
    let e : 0 + j ≡ j = omega arith in
    (sink (record { jiffies = j; fn = fn }) l, ground arith, rw e at (times-sink 0 j fn l))

-- What lies in the future has not run out.
fired-times : (n now : ℕ) (l : List Timer) → n < now → fired n (times now l) ≡ []
unfolding fired times
fired-times n now [] h = refl
fired-times n now (t ∷ rest) h = ground (arith, fired-times n (now + t.jiffies) rest)

later-times : (n now : ℕ) (l : List Timer) → n < now → later n (times now l) ≡ times (now - n) l
unfolding later times
later-times n now [] h = refl
later-times n now (t ∷ rest) h =
    let e : now + t.jiffies - n ≡ now - n + t.jiffies = omega arith in
    let late : leb (now + t.jiffies) n ≡ false = ground arith in
    rw (late, later-times n (now + t.jiffies) rest (omega arith), e)

-- `run_due` runs what has run out now.
run_due-fired :
    (l : List Timer)
    → ((run_due l).0 ≡ fired 0 (times 0 l)) × (times 0 (run_due l).1 ≡ later 0 (times 0 l))
unfolding run_due fired later times
run_due-fired [] = (refl, refl)
run_due-fired (t ∷ rest) = elim (Bool-cases (t.jiffies == 0)) [
  | inl now ↦
      let e : t.jiffies ≡ 0 = ground arith in
      rw e (ap (λ l. t.fn ∷ l) (run_due-fired rest).0, (run_due-fired rest).1)
  | inr waits ↦
      let late : leb (0 + t.jiffies) 0 ≡ false = ground arith in
      let e : 0 + t.jiffies - 0 ≡ 0 + t.jiffies = omega arith in
      let less : 0 < 0 + t.jiffies = ground arith in
      rw (waits, late)
        (
          sym (fired-times 0 (0 + t.jiffies) rest less),
          rw (later-times 0 (0 + t.jiffies) rest less, e),
        )
]

fired-add :
    (n d now : ℕ) (l : List Timer) → fired (n + d) (times (now + d) l) ≡ fired n (times now l)
unfolding fired times
fired-add n d now [] = refl
fired-add n d now (t ∷ rest) =
    let e : now + d + t.jiffies ≡ now + t.jiffies + d = omega arith in
    rw (e, leb-add d (now + t.jiffies) n, fired-add n d (now + t.jiffies) rest)

later-add :
    (n d now : ℕ) (l : List Timer) → later (n + d) (times (now + d) l) ≡ later n (times now l)
unfolding later times
later-add n d now [] = refl
later-add n d now (t ∷ rest) =
    let e : now + d + t.jiffies ≡ now + t.jiffies + d = omega arith in
    let e' : now + t.jiffies + d - (n + d) ≡ now + t.jiffies - n = omega arith in
    rw (e, leb-add d (now + t.jiffies) n, later-add n d (now + t.jiffies) rest, e')

-- The first timer has a tick or more to wait, as after each tick.
abbrev pub IsWaiting : List Timer → Type 0
IsWaiting [] = Unit {0}
IsWaiting (t ∷ rest) = 0 < t.jiffies

-- One tick, on a list whose first timer has a wait, runs the functions of the timers that run out
-- within one tick, in their order in the list, and brings the times of the others one tick nearer.
pub tick_timers-fired :
    (l : List Timer)
    → IsWaiting l
    → ((tick_timers l).0 ≡ fired 1 (times 0 l)) × (times 0 (tick_timers l).1 ≡ later 1 (times 0 l))
unfolding tick_timers
tick_timers-fired [] h = unfold fired later times in (refl, refl)
tick_timers-fired (t ∷ rest) h =
    let t' : Timer = record t { jiffies = t.jiffies - 1 } in
    let due = run_due-fired (t' ∷ rest) in
    let e : times 1 (t' ∷ rest) ≡ times 0 (t ∷ rest) =
      unfold times in let e : 1 + (t.jiffies - 1) ≡ 0 + t.jiffies = omega arith in rw e in
    (
      due.0 ∙ sym (fired-add 0 1 0 (t' ∷ rest)) ∙ ap (fired 1) e,
      due.1 ∙ sym (later-add 0 1 0 (t' ∷ rest)) ∙ ap (later 1) e,
    )
