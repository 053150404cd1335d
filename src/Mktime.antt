-- ===== src/Mktime.antt =====
-- linux-0.11/kernel/mktime.c: `kernel_mktime`, seconds since 1970 from a broken-down time. The C
-- `int` and `long` values are integers without a bound here.
pub mod Calendar
mod Tests
use learn_linux.Common.{
  ℕ, zero, suc, ◌+◌, ◌-◌, ◌*◌, ◌%◌, Bool, not, ◌&&◌, List, [], ◌∷◌, ◌==◌, ltb, if◌then◌else◌,
}
use learn_linux.Common.Int.{ℤ, pos, negsuc, neg, ◌+ℤ◌, ◌-ℤ◌, quotient}

pub record Tm : Type 0 where
  pub tm_sec : ℕ
  pub tm_min : ℕ
  pub tm_hour : ℕ
  pub tm_mday : ℕ
  pub tm_mon : ℕ
  pub tm_year : ℕ

abbrev pub minute : ℕ
minute = 60

abbrev pub hour : ℕ
hour = 60 * minute

abbrev pub day : ℕ
day = 24 * hour

abbrev pub year_seconds : ℕ
year_seconds = 365 * day

-- The table `month`: the seconds of a leap year before each month. An index past the table is
-- outside the program's use; it reads as 0 here.
unfoldable pub month : ℕ → ℕ
month m = entry m (
    0
    ∷ day * 31
    ∷ day * (31 + 29)
    ∷ day * (31 + 29 + 31)
    ∷ day * (31 + 29 + 31 + 30)
    ∷ day * (31 + 29 + 31 + 30 + 31)
    ∷ day * (31 + 29 + 31 + 30 + 31 + 30)
    ∷ day * (31 + 29 + 31 + 30 + 31 + 30 + 31)
    ∷ day * (31 + 29 + 31 + 30 + 31 + 30 + 31 + 31)
    ∷ day * (31 + 29 + 31 + 30 + 31 + 30 + 31 + 31 + 30)
    ∷ day * (31 + 29 + 31 + 30 + 31 + 30 + 31 + 31 + 30 + 31)
    ∷ day * (31 + 29 + 31 + 30 + 31 + 30 + 31 + 31 + 30 + 31 + 30)
    ∷ [])
  where
    entry : ℕ → List ℕ → ℕ
    entry i [] = 0
    entry zero (x ∷ xs) = x
    entry (suc i) (x ∷ xs) = entry i xs

-- k * z, and C's z % k == 0, for a constant k
abbrev pub times : ℕ → ℤ → ℤ
times k (pos n) = pos (k * n)
times k (negsuc n) = neg (k * suc n)

abbrev pub divides : ℕ → ℤ → Bool
divides k (pos n) = n % k == 0
divides k (negsuc n) = suc n % k == 0

-- The body of `kernel_mktime`, from the line that has computed `year` on.
pub seconds_from_year : ℤ → Tm → ℤ
seconds_from_year year tm =
    let start : ℤ = times year_seconds year +ℤ times day (quotient (year +ℤ pos 1) 4) in
    let with_month : ℤ = start +ℤ pos (month tm.tm_mon) in
    let res : ℤ =
      if ltb 1 tm.tm_mon && not (divides 4 (year +ℤ pos 2))
      then with_month -ℤ pos day
      else with_month in
    res
    +ℤ times day (pos tm.tm_mday -ℤ pos 1)
    +ℤ pos (hour * tm.tm_hour)
    +ℤ pos (minute * tm.tm_min)
    +ℤ pos tm.tm_sec

pub kernel_mktime : Tm → ℤ
unfolding seconds_from_year
kernel_mktime tm = seconds_from_year (pos tm.tm_year -ℤ pos 70) tm
