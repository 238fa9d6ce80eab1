-- ===== src/Calendar/Weekday.antt =====
-- `get_dow`, the day of the week by Sakamoto's table, against the days since 1970-01-01.
use razos.Base.{
  ℕ, ◌+◌, ◌-◌, ◌%◌, ◌<◌, ◌≤◌, ◌≡◌, refl, Bool, true, false, arith, if◌then◌else◌, ltb, get_or, ◌==◌,
  every_below, every_below-holds, ==_iff,
}
use razos.Calendar.{is_leap, get_dow, dow_table, mdays, leaps_since_1970}
use razos.Calendar.Epoch.{days_of_months, day_number, days_of_years_lem}

-- Each entry of the table is the days before its month, less a shift from March on.
abbrev shift : Bool → ℕ → ℕ
shift leap m = if ltb m 2 then 0 else if leap then 2 else 1

abbrev entry_fits : Bool → ℕ → Bool
entry_fits leap m = (get_or dow_table m 0 + shift leap m) % 7 == days_of_months leap m % 7

table_fits : (leap : Bool) → every_below 12 (entry_fits leap) ≡ true
unfolding every_below days_of_months mdays
table_fits true = refl
table_fits false = refl

table_lem :
    (leap : Bool) (m : ℕ)
    → m < 12
    → (get_or dow_table m 0 + shift leap m) % 7 ≡ days_of_months leap m % 7
table_lem leap m h = (==_iff _ _).0 (every_below-holds 12 (entry_fits leap) m (table_fits leap) h)

-- The day of the week of a date since 1970 is that of its day number: day 0 was a Thursday.
pub get_dow_lem :
    (y m d : ℕ) → 1970 ≤ y → m < 12 → 1 ≤ d → get_dow y m d ≡ (day_number y m d + 4) % 7
unfolding get_dow day_number leaps_since_1970 is_leap
get_dow_lem y m d hy hm hd =
    ground (arith, table_lem (is_leap y) m hm, days_of_years_lem (y - 1970))
