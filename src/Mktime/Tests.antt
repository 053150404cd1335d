-- ===== src/Mktime/Tests.antt =====
-- Runs of `kernel_mktime`, and its theorem at a date.
use learn_linux.Common.{◌≡◌, refl, ◌<◌, ◌^◌, arith}
use learn_linux.Common.Int.{pos}
use learn_linux.Mktime.{Tm, month, kernel_mktime}
use learn_linux.Mktime.Calendar.{IsDate, seconds_since_1970, kernel_mktime-seconds_since_1970}

-- 1 March 2000, 12:34:56
abbrev leap_day_after : Tm
leap_day_after = record {
  tm_sec = 56;
  tm_min = 34;
  tm_hour = 12;
  tm_mday = 1;
  tm_mon = 2;
  tm_year = 100;
}

leap_day_after_seconds : kernel_mktime leap_day_after ≡ pos 951914096
unfolding kernel_mktime month
leap_day_after_seconds = refl

leap_day_after-IsDate : IsDate leap_day_after
leap_day_after-IsDate = omega arith

kernel_mktime-seconds_since_1970_example :
    (kernel_mktime leap_day_after ≡ pos (seconds_since_1970 leap_day_after))
    × (seconds_since_1970 leap_day_after < 2 ^ 31)
kernel_mktime-seconds_since_1970_example =
    kernel_mktime-seconds_since_1970 leap_day_after leap_day_after-IsDate
