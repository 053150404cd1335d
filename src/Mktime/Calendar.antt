-- ===== src/Mktime/Calendar.antt =====
-- The Gregorian calendar, year by year and month by month, and `kernel_mktime` against it.
use native.Mathlib.Decide.{dec_le}
use learn_linux.Common.{
  ℕ, zero, suc, ◌+◌, ◌-◌, ◌*◌, ◌/◌, ◌%◌, ◌≤◌, ◌<◌, ◌^◌, ◌≡◌, refl, Bool, not, ◌&&◌, ◌||◌, arith,
  ◌==◌, ltb, if◌then◌else◌,
}
use learn_linux.Common.Int.{pos, ◌+ℤ◌, ◌-ℤ◌}
use learn_linux.Mktime.{
  Tm, minute, hour, day, year_seconds, month, seconds_from_year, kernel_mktime,
}

-- Is the year 1970 + y a leap year?
abbrev pub is_leap : ℕ → Bool
is_leap y = (1970 + y) % 4 == 0 && (not ((1970 + y) % 100 == 0) || (1970 + y) % 400 == 0)

-- The days of month m, 0 for January.
abbrev pub days_in_month : Bool → ℕ → ℕ
days_in_month leap m =
    if m == 1
    then (if leap then 29 else 28)
    else if m == 3 || m == 5 || m == 8 || m == 10
    then 30
    else 31

pub days_before_month : Bool → ℕ → ℕ
days_before_month leap zero = 0
days_before_month leap (suc m) = days_before_month leap m + days_in_month leap m

-- The days from the start of 1970 to the start of the year 1970 + y.
pub days_before_year : ℕ → ℕ
days_before_year zero = 0
days_before_year (suc y) = days_before_year y + (if is_leap y then 366 else 365)

-- The seconds from the start of 1970, for a year from 1970.
abbrev pub seconds_since_1970 : Tm → ℕ
seconds_since_1970 tm =
    let y : ℕ = tm.tm_year - 70 in
    let days : ℕ =
      days_before_year y + days_before_month (is_leap y) tm.tm_mon + (tm.tm_mday - 1) in
    ((days * 24 + tm.tm_hour) * 60 + tm.tm_min) * 60 + tm.tm_sec

-- A date and time that a calendar has, from 1970 to 2037.
pub record IsDate (tm : Tm) : Type 0 where
  pub year_from : 70 ≤ tm.tm_year
  pub year_to : tm.tm_year ≤ 137
  pub mon : tm.tm_mon < 12
  pub mday_from : 1 ≤ tm.tm_mday
  pub mday_to : tm.tm_mday ≤ days_in_month (is_leap (tm.tm_year - 70)) tm.tm_mon
  pub hour : tm.tm_hour < 24
  pub min : tm.tm_min < 60
  pub sec : tm.tm_sec < 60

is_leap_by_four : (y : ℕ) → y < 130 → is_leap y ≡ ((y + 2) % 4 == 0)
is_leap_by_four y h = ground arith

days_before_year_closed : (y : ℕ) → y < 130 → days_before_year y ≡ 365 * y + (y + 1) / 4
unfolding days_before_year
days_before_year_closed zero h = refl
days_before_year_closed (suc y) h =
    ground (arith, days_before_year_closed y (omega arith), is_leap_by_four y (omega arith))

-- The month table is the calendar of a leap year; another year has one day less from March on.
month_closed :
    (leap : Bool) (m : ℕ)
    → m < 12
    → month m ≡ day * (days_before_month leap m + (if not leap && ltb 1 m then 1 else 0))
unfolding days_before_month month
month_closed leap zero h = ground arith
month_closed leap (suc zero) h = ground arith
month_closed leap (suc (suc zero)) h = ground arith
month_closed leap (suc (suc (suc zero))) h = ground arith
month_closed leap (suc (suc (suc (suc zero)))) h = ground arith
month_closed leap (suc (suc (suc (suc (suc zero))))) h = ground arith
month_closed leap (suc (suc (suc (suc (suc (suc zero)))))) h = ground arith
month_closed leap (suc (suc (suc (suc (suc (suc (suc zero))))))) h = ground arith
month_closed leap (suc (suc (suc (suc (suc (suc (suc (suc zero)))))))) h = ground arith
month_closed leap (suc (suc (suc (suc (suc (suc (suc (suc (suc zero))))))))) h = ground arith
month_closed leap (suc (suc (suc (suc (suc (suc (suc (suc (suc (suc zero)))))))))) h = ground arith
month_closed leap (suc (suc (suc (suc (suc (suc (suc (suc (suc (suc (suc zero))))))))))) h =
    ground arith
month_closed leap (suc (suc (suc (suc (suc (suc (suc (suc (suc (suc (suc (suc m)))))))))))) h =
    absurd (omega arith)

pos_sub : (a b c : ℕ) → a ≡ b + c → pos a -ℤ pos b ≡ pos c
pos_sub a b c h = ground arith

pos_add : (a b : ℕ) → pos a +ℤ pos b ≡ pos (a + b)
pos_add a b = ground arith

-- The code's arithmetic on a year from 1970, with no negative number left.
seconds_from_year_closed :
    (tm : Tm) (y : ℕ)
    → 1 ≤ tm.tm_mday
    → seconds_from_year (pos y) tm
      ≡ (if ltb 1 tm.tm_mon && not ((y + 2) % 4 == 0)
          then pos (year_seconds * y + day * ((y + 1) / 4) + month tm.tm_mon) -ℤ pos day
          else pos (year_seconds * y + day * ((y + 1) / 4) + month tm.tm_mon))
        +ℤ pos (day * (tm.tm_mday - 1))
        +ℤ pos (hour * tm.tm_hour)
        +ℤ pos (minute * tm.tm_min)
        +ℤ pos tm.tm_sec
unfolding seconds_from_year
seconds_from_year_closed tm y from = rw (
  pos_sub tm.tm_mday 1 (tm.tm_mday - 1) (omega arith),
  pos_add y 1,
  pos_add y 2,
  pos_add (year_seconds * y) (day * ((y + 1) / 4)),
  pos_add (year_seconds * y + day * ((y + 1) / 4)) (month tm.tm_mon),
)

-- What is left when the month table and the leap years are read off the calendar.
assemble :
    (leap after : Bool) (years before mday h mi se m : ℕ)
    → m ≡ day * (before + (if not leap && after then 1 else 0))
    → (if after && not leap then pos (day * years + m) -ℤ pos day else pos (day * years + m))
        +ℤ pos (day * mday)
        +ℤ pos (hour * h)
        +ℤ pos (minute * mi)
        +ℤ pos se
      ≡ pos ((((years + before + mday) * 24 + h) * 60 + mi) * 60 + se)
assemble leap after years before mday h mi se m e = ground arith

days_before_month-le :
    (leap : Bool) (n m : ℕ) → m ≤ n → days_before_month leap m ≤ days_before_month leap n
unfolding days_before_month
days_before_month-le leap zero zero h = omega arith
days_before_month-le leap zero (suc m) h = absurd (omega arith)
days_before_month-le leap (suc n) m h = elim (dec_le m n) [
  | yes le ↦ omega (arith, days_before_month-le leap n m le)
  | no gt ↦ let e : m ≡ suc n = omega arith in rw e (omega arith)
]

-- A month of a year ends by day 366.
month_end : (leap : Bool) (m : ℕ) → m < 12 → days_before_month leap m + days_in_month leap m ≤ 366
month_end leap m h =
    let last = days_before_month-le leap 12 (suc m) h in
    unfold days_before_month in ground (arith, last)

-- On every date from 1970 to 2037, `kernel_mktime` is the number of seconds since the start of
-- 1970 by the Gregorian calendar, its leap-year rule for centuries included, and a 32-bit `long`
-- holds it.
pub kernel_mktime-seconds_since_1970 :
    (tm : Tm)
    → IsDate tm
    → (kernel_mktime tm ≡ pos (seconds_since_1970 tm)) × (seconds_since_1970 tm < 2 ^ 31)
unfolding kernel_mktime
kernel_mktime-seconds_since_1970 tm d =
    let y : ℕ = tm.tm_year - 70 in
    let yr : y < 130 = omega arith in
    let start : year_seconds * y + day * ((y + 1) / 4) ≡ day * days_before_year y =
      omega (arith, days_before_year_closed y yr) in
    (
      rw
          (
            pos_sub tm.tm_year 70 y (omega arith),
            seconds_from_year_closed tm y d.mday_from,
            ← is_leap_by_four y yr,
            start,
          )
          (assemble (is_leap y) (ltb 1 tm.tm_mon) (days_before_year y) _ (tm.tm_mday - 1) tm.tm_hour
            tm.tm_min tm.tm_sec _ (month_closed (is_leap y) tm.tm_mon d.mon)),
      omega (arith, month_end (is_leap y) tm.tm_mon d.mon, days_before_year_closed y yr),
    )
