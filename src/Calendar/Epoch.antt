-- ===== src/Calendar/Epoch.antt =====
-- Days since 1970-01-01, counted year by year and month by month, and the closed forms of
-- `mktime`.
use razos.Base.{ℕ, zero, suc, ◌+◌, ◌-◌, ◌*◌, ◌≡◌, refl, Bool, arith, if◌then◌else◌, ap}
use razos.Calendar.{is_leap, mdays, add_months, leaps_since_1970}

unfoldable pub year_length : ℕ → ℕ
year_length y = if is_leap y then 366 else 365

-- The days of the years from 1970 to before `1970 + k`.
unfoldable pub days_of_years : ℕ → ℕ
days_of_years zero = 0
days_of_years (suc k) = days_of_years k + year_length (1970 + k)

-- The days of the months before month `m`.
unfoldable pub days_of_months : Bool → ℕ → ℕ
days_of_months leap zero = 0
days_of_months leap (suc m) = days_of_months leap m + mdays leap m

-- Month 0 is January, day 1 the first.
unfoldable pub day_number : ℕ → ℕ → ℕ → ℕ
day_number y m d = days_of_years (y - 1970) + days_of_months (is_leap y) m + (d - 1)

pub leaps_step :
    (k : ℕ)
    → 365 + leaps_since_1970 (1970 + suc k) ≡ leaps_since_1970 (1970 + k) + year_length (1970 + k)
unfolding leaps_since_1970 year_length is_leap
leaps_step k = ground arith

pub days_of_years_lem : (k : ℕ) → 365 * k + leaps_since_1970 (1970 + k) ≡ days_of_years k
unfolding days_of_years leaps_since_1970
days_of_years_lem zero = refl
days_of_years_lem (suc k) = omega (arith, leaps_step k, days_of_years_lem k)

pub add_months_lem :
    (leap : Bool) (left m yday : ℕ)
    → add_months leap left m yday + days_of_months leap m ≡ yday + days_of_months leap (m + left)
unfolding add_months days_of_months
add_months_lem leap zero m yday = ap (λ n. yday + days_of_months leap n) (omega arith)
add_months_lem leap (suc left) m yday = omega (
  arith,
  add_months_lem leap left (m + 1) (yday + mdays leap m),
  ap (days_of_months leap) (let e : m + 1 ≡ suc m = omega arith in e),
  ap (days_of_months leap) (let e : m + 1 + left ≡ m + suc left = omega arith in e),
)
