-- ===== src/Calendar.antt =====
-- The broken-down times of rlibc/time/mktime.c and gmtime.c (kernel/lib/mktime.c is the same
-- text). The fields are the bit patterns of C `int`s, and `time_t` is one too; the carries, the tests and the
-- conversion of a `time_t` treat them as signed. The year does not wrap in the model, and a month that
-- is negative reads 0 days where the source reads beside its table.
pub mod Epoch
pub mod Months
pub mod Carry
pub mod Normal
pub mod Weekday
mod Tests
use razos.Base.{
  ℕ, zero, suc, ◌+◌, ◌-◌, ◌*◌, ◌/◌, ◌%◌, Bool, true, false, ◌&&◌, ◌||◌, List, [], ◌∷◌, ltb, leb,
  ◌==◌, ◌!=◌, if◌then◌else◌, get_or, u32_mod, add32, sub32, int_lt, int_div, int_mod,
}

pub record Tm : Type 0 where
  pub tm_sec : ℕ
  pub tm_min : ℕ
  pub tm_hour : ℕ
  pub tm_mday : ℕ
  pub tm_mon : ℕ
  pub tm_year : ℕ
  pub tm_wday : ℕ
  pub tm_yday : ℕ

-- `isleap(y)`
pub is_leap : ℕ → Bool
is_leap y = (y % 4 == 0 && y % 100 != 0) || y % 400 == 0

abbrev common_days : List ℕ
common_days = 31 ∷ 28 ∷ 31 ∷ 30 ∷ 31 ∷ 30 ∷ 31 ∷ 31 ∷ 30 ∷ 31 ∷ 30 ∷ 31 ∷ []

abbrev leap_days : List ℕ
leap_days = 31 ∷ 29 ∷ 31 ∷ 30 ∷ 31 ∷ 30 ∷ 31 ∷ 31 ∷ 30 ∷ 31 ∷ 30 ∷ 31 ∷ []

-- `mdays[leap][m]`
pub mdays : Bool → ℕ → ℕ
mdays false m = get_or common_days m 0
mdays true m = get_or leap_days m 0

abbrev dow_table : List ℕ
dow_table = 0 ∷ 3 ∷ 2 ∷ 5 ∷ 0 ∷ 3 ∷ 5 ∷ 1 ∷ 4 ∷ 6 ∷ 2 ∷ 4 ∷ []

-- The sum of `get_dow`, once the year is settled.
abbrev dow_sum : ℕ → ℕ → ℕ → ℕ
dow_sum y m d = (y + y / 4 - y / 100 + y / 400 + get_or dow_table m 0 + d) % 7

pub get_dow : ℕ → ℕ → ℕ → ℕ
get_dow y m d = dow_sum (if ltb m 2 then y - 1 else y) m d

-- The carries from seconds to minutes, hours and days.
pub carry : Tm → Tm
carry t =
    let min = add32 t.tm_min (int_div t.tm_sec 60) in
    let hour = add32 t.tm_hour (int_div min 60) in
    record t {
      tm_sec = int_mod t.tm_sec 60;
      tm_min = int_mod min 60;
      tm_hour = int_mod hour 24;
      tm_mday = add32 t.tm_mday (int_div hour 24);
    }

-- `if (tm_mon >= 12) { tm_year++; tm_mon -= 12; }`
pub wrap_year : Tm → Tm
wrap_year t =
    if int_lt t.tm_mon 12 then t else record t { tm_year = t.tm_year + 1; tm_mon = t.tm_mon - 12 }

-- One round of the loop over months: its year is read before it is changed.
pub next_month : ℕ → Tm → Tm
unfolding wrap_year mdays is_leap
next_month mon t = wrap_year (record t {
  tm_mon = add32 t.tm_mon 1;
  tm_mday = sub32 t.tm_mday (mdays (is_leap t.tm_year) (int_mod mon 12));
})

-- `while (tm_mday > mdays[isleap(tm_year)][mon % 12])`: each round takes off 28 days or more.
pub month_loop : ℕ → ℕ → Tm → Tm
unfolding next_month mdays is_leap
month_loop zero mon t = t
month_loop (suc fuel) mon t = elim (int_lt (mdays (is_leap t.tm_year) (int_mod mon 12)) t.tm_mday) [
  | true ↦ month_loop fuel (add32 mon 1) (next_month mon t)
  | false ↦ t
]

-- `while (tm_mon >= 12)`
pub year_loop : ℕ → Tm → Tm
unfolding wrap_year
year_loop zero t = t
year_loop (suc fuel) t = elim (int_lt t.tm_mon 12) [
  | true ↦ t
  | false ↦ year_loop fuel (wrap_year t)
]

-- The loop that adds the whole months before month `m + left`.
pub add_months : Bool → ℕ → ℕ → ℕ → ℕ
unfolding mdays
add_months leap zero m yday = yday
add_months leap (suc left) m yday = add_months leap left (m + 1) (yday + mdays leap m)

-- The first half: `tm_year` counts from year 0 until the end of `mktime`.
pub normalize : Tm → Tm
normalize tmp =
    let t = carry (record tmp { tm_year = tmp.tm_year + 1900 }) in
    let u = month_loop t.tm_mday tmp.tm_mon t in year_loop u.tm_mon u

-- The second half, on a normalised time: `tm_wday`, `tm_yday` and the seconds since the Epoch.
pub day_fields : Tm → Tm
day_fields t = record t {
  tm_wday = get_dow t.tm_year t.tm_mon t.tm_mday;
  tm_yday = add_months (is_leap t.tm_year) t.tm_mon 0 t.tm_mday;
}

pub leaps_since_1970 : ℕ → ℕ
leaps_since_1970 year =
    let y = year - 1 in y / 4 - y / 100 + y / 400 - (1970 / 4 - 1970 / 100 + 1970 / 400)

pub epoch_seconds : Tm → ℕ
unfolding leaps_since_1970
epoch_seconds t =
    (t.tm_sec
      + 60 * t.tm_min
      + 60 * 60 * t.tm_hour
      + 24 * 60 * 60 * (t.tm_yday - 1)
      + 365 * 24 * 60 * 60 * (t.tm_year - 1970)
      + 24 * 60 * 60 * leaps_since_1970 t.tm_year)
    % u32_mod

-- The value returned, and what is left in `*tmp`.
unfoldable pub mktime : Tm → ℕ × Tm
unfolding normalize day_fields epoch_seconds
mktime tmp =
    let t = day_fields (normalize tmp) in (epoch_seconds t, record t { tm_year = t.tm_year - 1900 })

-- The static `ret` of `gmtime` before the first call.
abbrev pub gmtime_static : Tm
gmtime_static = record {
  tm_sec = 0;
  tm_min = 0;
  tm_hour = 0;
  tm_mday = 1;
  tm_mon = 0;
  tm_year = 70;
  tm_wday = 0;
  tm_yday = 0;
}

-- `gmtime` on its static: what it leaves there is what it returns. `timer` is the pattern of a `time_t`.
unfoldable pub gmtime : Tm → ℕ → Tm
gmtime ret timer = (mktime (record ret { tm_sec = timer })).1
