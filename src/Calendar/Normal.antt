-- ===== src/Calendar/Normal.antt =====
-- What `mktime` and `gmtime` return.
use razos.Base.{◌^◌, ℕ, ◌+◌, ◌-◌, ◌*◌, ◌/◌, ◌%◌, ◌<◌, ◌≡◌, refl, arith, ◌∙◌, u32_mod}
use razos.Calendar.{
  Tm, is_leap, normalize, day_fields, epoch_seconds, mktime, gmtime, gmtime_static,
}
use razos.Calendar.Epoch.{
  days_of_years, days_of_months, day_number, days_of_years_lem, add_months_lem,
}
use razos.Calendar.Weekday.{get_dow_lem}
use razos.Calendar.Months.{InYear, Settles, day_of, mdays_bounds, days_of_months-zero}
use razos.Calendar.Carry.{
  seconds_of, InRange, IsInput, carry-days, carry-seconds, normalize-Settles,
}

-- The closed form of `mktime` counts the days of a date that exists.
epoch_seconds_lem :
    (t : Tm)
    → InYear t
    → epoch_seconds (day_fields t)
      ≡ (86400 * day_of t + 3600 * t.tm_hour + 60 * t.tm_min + t.tm_sec) % u32_mod
unfolding epoch_seconds day_fields day_number
epoch_seconds_lem t v = ground (
  arith,
  days_of_years_lem (t.tm_year - 1970),
  add_months_lem (is_leap t.tm_year) t.tm_mon 0 t.tm_mday,
  days_of_months-zero (is_leap t.tm_year),
)

last_day-small : (r : Tm) {t : Tm} → Settles t r → r.tm_mday < 2 ^ 30
last_day-small r s = omega (arith, s.fits, mdays_bounds (is_leap r.tm_year) r.tm_mon s.date.mon)

-- The month and day that `mktime` leaves exist in the calendar.
module _ (t : Tm) (v : IsInput t) where
  mktime_seconds : (mktime t).0 ≡ seconds_of t % u32_mod
  unfolding mktime
  mktime_seconds =
      let s = normalize-Settles t v in
      omega (
        arith,
        epoch_seconds_lem (normalize t) s.date,
        s.day,
        s.sec,
        s.min,
        s.hour,
        carry-seconds t v,
      )

  mktime_left : seconds_of (mktime t).1 ≡ seconds_of t
  unfolding mktime seconds_of
  mktime_left =
      let s = normalize-Settles t v in
      let e : (normalize t).tm_year - 1900 + 1900 ≡ (normalize t).tm_year =
        omega (arith, s.date.year) in
      rw e (omega (arith, s.day, s.sec, s.min, s.hour, carry-seconds t v))

  mktime-InRange : InRange (mktime t).1
  unfolding mktime
  mktime-InRange =
      let s = normalize-Settles t v in
      let e : (normalize t).tm_year - 1900 + 1900 ≡ (normalize t).tm_year =
        omega (arith, s.date.year) in
      let c = carry-seconds t v in
      record {
        sec = omega (arith, s.sec);
        min = omega (arith, s.min);
        hour = omega (arith, s.hour);
        mon = s.date.mon;
        first = s.date.day;
        last = rw e s.fits;
      }

  -- From a month of a year since 1970, a day from the first on, and fields that are not negative, with the seconds
  -- below 2^31 and the minutes, hours, days and years below 2^30, `mktime` returns the seconds that
  -- the fields stand for, modulo `2 ^ 32`, and leaves in `*tmp` the same moment with the seconds,
  -- minutes, hours and the month in their ranges and a day that the month has.
  pub mktime_lem :
      ((mktime t).0 ≡ seconds_of t % u32_mod)
      × (seconds_of (mktime t).1 ≡ seconds_of t)
      × InRange (mktime t).1
  mktime_lem = (mktime_seconds, mktime_left, mktime-InRange)

  -- What `mktime` leaves is an input again, if the year stays small.
  pub mktime-IsInput :
      t.tm_year + t.tm_mday + t.tm_hour + t.tm_min + t.tm_sec / 60 < 2 ^ 30 → IsInput (mktime t).1
  unfolding mktime
  mktime-IsInput near =
      let s = normalize-Settles t v in
      let (_, sec, min, hour) = carry-seconds t v in
      let size = carry-days t v in
      record {
        mon = s.date.mon;
        day = s.date.day;
        year = omega (arith, s.date.year);
        sec_small = omega (arith, s.sec);
        min_small = omega (arith, s.min);
        hour_small = omega (arith, s.hour);
        day_small = last_day-small (normalize t) s;
        year_small = omega (arith, s.size, s.date.day);
      }

-- From a month of a year since 1970, a day from the first on, and fields that are not negative, with the seconds
-- below 2^31 and the minutes, hours, days and years below 2^30, `mktime` sets `tm_wday` to the day of the week,
-- counted from Sunday, and `tm_yday` to the day of the year, counted from 1.
pub mktime_days :
    (t : Tm)
    → IsInput t
    → let r = (mktime t).1 in
      (r.tm_wday ≡ (day_number (r.tm_year + 1900) r.tm_mon r.tm_mday + 4) % 7)
      × (r.tm_yday ≡ days_of_months (is_leap (r.tm_year + 1900)) r.tm_mon + r.tm_mday)
unfolding mktime
mktime_days t v =
    let n = normalize t in
    let s = normalize-Settles t v in
    let e : n.tm_year - 1900 + 1900 ≡ n.tm_year = omega (arith, s.date.year) in
    rw e (
      get_dow_lem n.tm_year n.tm_mon n.tm_mday s.date.year s.date.mon s.date.day,
      ground (
        arith,
        add_months_lem (is_leap n.tm_year) n.tm_mon 0 n.tm_mday,
        days_of_months-zero (is_leap n.tm_year),
      ),
    )

abbrev pub with_sec : Tm → ℕ → Tm
with_sec t n = record t { tm_sec = n }

with_sec-IsInput : (t : Tm) (n : ℕ) → n < 2 ^ 31 → IsInput t → IsInput (with_sec t n)
with_sec-IsInput t n h v = record {
  mon = v.mon;
  day = v.day;
  year = v.year;
  sec_small = h;
  min_small = v.min_small;
  hour_small = v.hour_small;
  day_small = v.day_small;
  year_small = v.year_small;
}

pub gmtime_static-IsInput : IsInput gmtime_static
gmtime_static-IsInput = omega arith

seconds_of-with_sec : (t : Tm) (n : ℕ) → seconds_of (with_sec t n) + t.tm_sec ≡ seconds_of t + n
unfolding seconds_of
seconds_of-with_sec t n = omega arith

seconds_of_whole : (t : Tm) → (seconds_of t - t.tm_sec) % 60 ≡ 0
unfolding seconds_of
seconds_of_whole t = omega arith

seconds_of-static : seconds_of gmtime_static ≡ 0
unfolding seconds_of day_number days_of_years days_of_months
seconds_of-static = refl

-- The first call of `gmtime`, with a `time_t` that is not negative, breaks the time down: its result
-- stands for the same second, is in range, and `mktime` takes it back.
pub gmtime_first :
    (timer : ℕ)
    → timer < 2 ^ 31
    → let t = gmtime gmtime_static timer in
      (seconds_of t ≡ timer) × InRange t × ((mktime t).0 ≡ timer)
unfolding gmtime
gmtime_first timer h =
    let start = with_sec gmtime_static timer in
    let v = with_sec-IsInput gmtime_static timer h gmtime_static-IsInput in
    let (a, b, c) = mktime_lem start v in
    let d : seconds_of start ≡ timer =
      omega (arith, seconds_of-with_sec gmtime_static timer, seconds_of-static) in
    let (a', _, _) = mktime_lem (mktime start).1 (mktime-IsInput start v (omega arith)) in
    (b ∙ d, c, omega arith)

-- The static of `gmtime` is not reset between calls: for two times that are not negative, the second call is
-- right only if the first was within the first minute since the Epoch. Its result stands for the time asked for,
-- plus the whole minutes of the first call.
pub gmtime_second :
    (first timer : ℕ)
    → first < 2 ^ 31
    → timer < 2 ^ 31
    → seconds_of (gmtime (gmtime gmtime_static first) timer) ≡ timer + first / 60 * 60
unfolding gmtime seconds_of
gmtime_second first timer h h' =
    let r = gmtime gmtime_static first in
    let v =
      mktime-IsInput (with_sec gmtime_static first)
        (with_sec-IsInput gmtime_static first h gmtime_static-IsInput) (omega arith) in
    let (a, b, _) = gmtime_first first h in
    mktime_left (with_sec r timer) (with_sec-IsInput r timer h' v)
    ∙ omega (arith, a, b.sec, seconds_of-with_sec r timer, seconds_of_whole r)
