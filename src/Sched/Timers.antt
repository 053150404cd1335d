-- ===== src/Sched/Timers.antt =====
-- linux-0.11/kernel/sched.c: `add_timer` and the timers' part of `do_timer`. The list that
-- `next_timer` heads is a list of entries, each with the ticks that are left after the entry before
-- it has run out. The entries lie in an array of `time_requests` places, and one with a null `fn` is
-- free: the free places are those that the list does not hold. A function is known by its number.
pub mod Expiry
use learn_linux.Common.{
  ℕ, zero, suc, ◌+◌, ◌-◌, not, Option, none, some, List, [], ◌∷◌, ◌==◌, ltb, leb, if◌then◌else◌,
  length,
}
use learn_linux.Common.Int.{ℤ, pos, pos_part, is_pos}

pub record Timer : Type 0 where
  pub jiffies : ℕ
  pub fn : ℕ

abbrev pub time_requests : ℕ
time_requests = 64

-- while (p->next && p->next->jiffies < p->jiffies): the new entry and the next one exchange their
-- contents. `p` is the entry at hand, in front of the list.
unfoldable pub sink : Timer → List Timer → List Timer
sink p [] = p ∷ []
sink p (next ∷ rest) =
    if ltb next.jiffies p.jiffies
    then next ∷ sink (record p { jiffies = p.jiffies - next.jiffies }) rest
    else p ∷ next ∷ rest

-- The list after the call, or that the function runs at once, or a halt of the kernel.
pub data Added : Type 0 where
  listed : List Timer → Added
  ran : (fn : ℕ) → Added
  no_place : Added

abbrev pub add_function : (jiffies : ℤ) (fn : ℕ) → List Timer → Added
add_function jiffies fn timers =
    if not (is_pos jiffies)
    then ran fn
    else if leb time_requests (length timers)
    then no_place
    else listed (sink (record { jiffies = pos_part jiffies; fn = fn }) timers)

-- A null `fn` is none.
unfoldable pub add_timer : (jiffies : ℤ) (fn : Option ℕ) → List Timer → Added
unfolding sink
add_timer jiffies none timers = listed timers
add_timer jiffies (some fn) timers = add_function jiffies fn timers

-- while (next_timer && next_timer->jiffies <= 0): the functions that run, and the timers left.
unfoldable pub run_due : List Timer → List ℕ × List Timer
run_due [] = ([], [])
run_due (t ∷ rest) =
    let (more, left) = run_due rest in
    if t.jiffies == 0 then (t.fn ∷ more, left) else ([], t ∷ rest)

-- One tick.
unfoldable pub tick_timers : List Timer → List ℕ × List Timer
unfolding run_due
tick_timers [] = ([], [])
tick_timers (t ∷ rest) = run_due (record t { jiffies = t.jiffies - 1 } ∷ rest)
