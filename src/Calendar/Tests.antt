-- ===== src/Calendar/Tests.antt =====
-- Runs of the calendar at known dates.
use razos.Base.{◌≡◌, refl, ◌+◌, ◌%◌, u32_mod, arith}
use razos.Calendar.{
  Tm, mktime, gmtime, gmtime_static, carry, month_loop, year_loop, get_dow, add_months, is_leap,
}
use razos.Calendar.Epoch.{day_number, days_of_months}
use razos.Calendar.Weekday.{get_dow_lem}
use razos.Calendar.Carry.{IsInput, InRange, seconds_of}
use razos.Calendar.Normal.{mktime_lem, mktime_days, gmtime_second}

-- 2016-02-29 23:59:60, normalised to the first of March.
abbrev leap_end : Tm
leap_end = record {
  tm_sec = 60;
  tm_min = 59;
  tm_hour = 23;
  tm_mday = 29;
  tm_mon = 1;
  tm_year = 116;
  tm_wday = 0;
  tm_yday = 0;
}

mktime-leap_end : mktime leap_end ≡ (
  1456790400,
  record {
    tm_sec = 0;
    tm_min = 0;
    tm_hour = 0;
    tm_mday = 1;
    tm_mon = 2;
    tm_year = 116;
    tm_wday = 2;
    tm_yday = 61;
  },
)
unfolding mktime carry month_loop year_loop get_dow add_months is_leap
mktime-leap_end = refl

leap_end-IsInput : IsInput leap_end
leap_end-IsInput = omega arith

mktime_example :
    ((mktime leap_end).0 ≡ seconds_of leap_end % u32_mod)
    × (seconds_of (mktime leap_end).1 ≡ seconds_of leap_end)
    × InRange (mktime leap_end).1
mktime_example = mktime_lem leap_end leap_end-IsInput

mktime_days_example :
    ((mktime leap_end).1.tm_wday
      ≡ (day_number
            ((mktime leap_end).1.tm_year + 1900)
            (mktime leap_end).1.tm_mon
            (mktime leap_end).1.tm_mday
          + 4)
        % 7)
    × ((mktime leap_end).1.tm_yday
        ≡ days_of_months (is_leap ((mktime leap_end).1.tm_year + 1900)) (mktime leap_end).1.tm_mon
          + (mktime leap_end).1.tm_mday)
mktime_days_example = mktime_days leap_end leap_end-IsInput

-- The second call is a day late after a first call a day into the Epoch.
gmtime_second_example : seconds_of (gmtime (gmtime gmtime_static 86400) 5) ≡ 86405
gmtime_second_example = gmtime_second 86400 5 (omega arith) (omega arith)

get_dow_example : get_dow 2016 1 29 ≡ (day_number 2016 1 29 + 4) % 7
get_dow_example = get_dow_lem 2016 1 29 (omega arith) (omega arith) (omega arith)
