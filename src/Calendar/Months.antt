-- ===== src/Calendar/Months.antt =====
-- The loops of `mktime` over months: what they keep, and that their fuel is enough.
use razos.Base.{
  ℕ, zero, suc, ◌+◌, ◌-◌, ◌%◌, ◌<◌, ◌≤◌, ◌≡◌, refl, Bool, true, false, arith, ap, ◌∙◌, Bool-cases,
  inl, inr, leb, every_below, every_below-holds, ◌&&◌, sym, int_lt, int_mod, add32, sub32, ◌^◌,
  if◌then◌else◌,
}
use mathlib.Core.Path.{subst}
use razos.Calendar.{wrap_year, Tm, is_leap, mdays, next_month, month_loop, year_loop}
use razos.Calendar.Epoch.{year_length, days_of_years, days_of_months, day_number}

-- A date of a year since 1970 whose day may still run over the end of its month.
pub record InYear (t : Tm) : Type 0 where
  pub mon : t.tm_mon < 12
  pub day : 1 ≤ t.tm_mday
  pub year : 1970 ≤ t.tm_year
  pub small : t.tm_mday < 2 ^ 31

abbrev pub day_of : Tm → ℕ
day_of t = day_number t.tm_year t.tm_mon t.tm_mday

mdays_table :
    (leap : Bool) → every_below 12 (λ m. leb 28 (mdays leap m) && leb (mdays leap m) 31) ≡ true
unfolding mdays every_below
mdays_table true = refl
mdays_table false = refl

pub mdays_bounds : (leap : Bool) (m : ℕ) → m < 12 → (28 ≤ mdays leap m) × (mdays leap m ≤ 31)
mdays_bounds leap m h = ground (
  arith,
  every_below-holds 12 (λ m. leb 28 (mdays leap m) && leb (mdays leap m) 31) m (mdays_table leap) h,
)

-- The months make up the year.
pub year_of_months : (y : ℕ) → days_of_months (is_leap y) 12 ≡ year_length y
unfolding days_of_months year_length mdays
year_of_months y = elim (Bool-cases (is_leap y)) [ inl e ↦ rw e refl | inr e ↦ rw e refl ]

december :
    (y : ℕ) → 1970 ≤ y → days_of_years (y + 1 - 1970) ≡ days_of_years (y - 1970) + year_length y
unfolding days_of_years
december y h =
    let e : y + 1 - 1970 ≡ suc (y - 1970) = omega arith in
    let f : 1970 + (y - 1970) ≡ y = omega arith in
    rw e (ap (λ z. days_of_years (y - 1970) + year_length z) f)

days_of_months-add_one :
    (leap : Bool) (m : ℕ) → days_of_months leap (m + 1) ≡ days_of_months leap m + mdays leap m
unfolding days_of_months
days_of_months-add_one leap m = let e : m + 1 ≡ suc m = omega arith in rw e refl

pub days_of_months-zero : (leap : Bool) → days_of_months leap 0 ≡ 0
unfolding days_of_months
days_of_months-zero leap = refl

-- A round of the month loop where nothing wraps around.
abbrev plain_wrap : Tm → Tm
plain_wrap t =
    if leb 12 t.tm_mon then record t { tm_year = t.tm_year + 1; tm_mon = t.tm_mon - 12 } else t

abbrev plain_next : Tm → Tm
plain_next t =
    plain_wrap
      (record t { tm_mon = t.tm_mon + 1; tm_mday = t.tm_mday - mdays (is_leap t.tm_year) t.tm_mon })

wrap_year-plain : (t : Tm) → t.tm_mon < 2 ^ 31 → wrap_year t ≡ plain_wrap t
unfolding wrap_year
wrap_year-plain t lt = ground arith

longer_than :
    (days mday : ℕ) → days < 2 ^ 31 → mday < 2 ^ 31 → int_lt days mday ≡ true → days < mday
longer_than days mday h g e = ground arith

shorter_than :
    (days mday : ℕ) → days < 2 ^ 31 → mday < 2 ^ 31 → int_lt days mday ≡ false → mday ≤ days
shorter_than days mday h g e = ground arith

runs_over :
    (mon : ℕ) (t : Tm)
    → int_mod mon 12 ≡ t.tm_mon
    → int_lt (mdays (is_leap t.tm_year) (int_mod mon 12)) t.tm_mday ≡ true
    → InYear t
    → mdays (is_leap t.tm_year) t.tm_mon < t.tm_mday
runs_over mon t e h v =
    let b = mdays_bounds (is_leap t.tm_year) t.tm_mon v.mon in
    longer_than (mdays (is_leap t.tm_year) t.tm_mon) t.tm_mday (omega arith) v.small
      (ap (λ m. int_lt (mdays (is_leap t.tm_year) m) t.tm_mday) (sym e) ∙ h)

next_month-plain :
    (mon : ℕ) (t : Tm)
    → int_mod mon 12 ≡ t.tm_mon
    → mdays (is_leap t.tm_year) t.tm_mon < t.tm_mday
    → InYear t
    → next_month mon t ≡ plain_next t
unfolding next_month
next_month-plain mon t e h v =
    let next : add32 t.tm_mon 1 ≡ t.tm_mon + 1 = omega (arith, v.mon) in
    let less : sub32 t.tm_mday (mdays (is_leap t.tm_year) t.tm_mon)
        ≡ t.tm_mday - mdays (is_leap t.tm_year) t.tm_mon =
      omega (arith, v.small) in
    ap
      (λ m. wrap_year (record t {
        tm_mon = add32 t.tm_mon 1;
        tm_mday = sub32 t.tm_mday (mdays (is_leap t.tm_year) m);
      }))
      e
    ∙ ap
        (λ m.
          wrap_year (record t {
            tm_mon = m;
            tm_mday = sub32 t.tm_mday (mdays (is_leap t.tm_year) t.tm_mon);
          }))
        next
    ∙ ap (λ m. wrap_year (record t { tm_mon = t.tm_mon + 1; tm_mday = m })) less
    ∙ wrap_year-plain
        (record t {
          tm_mon = t.tm_mon + 1;
          tm_mday = t.tm_mday - mdays (is_leap t.tm_year) t.tm_mon;
        })
        (omega (arith, v.mon))

plain_next-day :
    (t : Tm)
    → mdays (is_leap t.tm_year) t.tm_mon < t.tm_mday
    → InYear t
    → InYear (plain_next t)
      × (day_of (plain_next t) ≡ day_of t)
      × ((plain_next t).tm_mon ≡ (t.tm_mon + 1) % 12)
      × ((plain_next t).tm_mday + 28 ≤ t.tm_mday)
      × ((plain_next t).tm_year + (plain_next t).tm_mday ≤ t.tm_year + t.tm_mday)
unfolding day_number
plain_next-day t h v = ground (
  arith,
  december t.tm_year v.year,
  year_of_months t.tm_year,
  days_of_months-add_one (is_leap t.tm_year) t.tm_mon,
  mdays_bounds (is_leap t.tm_year) t.tm_mon v.mon,
  days_of_months-zero (is_leap (t.tm_year + 1)),
)

next_mod :
    (mon m : ℕ) → mon < 2 ^ 31 - 1 → int_mod mon 12 ≡ m → int_mod (add32 mon 1) 12 ≡ (m + 1) % 12
next_mod mon m h e = ground arith

-- A round of the month loop is the same day, written with the next month.
abbrev NextDay : ℕ → Tm → Tm → Type 0
NextDay mon t n =
    InYear n
    × (day_of n ≡ day_of t)
    × (n.tm_mon ≡ int_mod (add32 mon 1) 12)
    × (n.tm_mday + 28 ≤ t.tm_mday)
    × (n.tm_year + n.tm_mday ≤ t.tm_year + t.tm_mday)

next_month-day :
    (mon : ℕ) (t : Tm)
    → int_mod mon 12 ≡ t.tm_mon
    → int_lt (mdays (is_leap t.tm_year) (int_mod mon 12)) t.tm_mday ≡ true
    → mon < 2 ^ 31 - 1
    → InYear t
    → NextDay mon t (next_month mon t)
next_month-day mon t e h lt v =
    let over = runs_over mon t e h v in
    let (a, b, c, d, f) = plain_next-day t over v in
    subst (NextDay mon t) (sym (next_month-plain mon t e over v))
      (a, b, c ∙ sym (next_mod mon t.tm_mon lt e), d, f)

-- `r` is the day of `t`, written as a date that exists, at the same time of day.
pub record Settles (t r : Tm) : Type 0 where
  pub date : InYear r
  pub fits : r.tm_mday ≤ mdays (is_leap r.tm_year) r.tm_mon
  pub size : r.tm_year + r.tm_mday ≤ t.tm_year + t.tm_mday
  pub day : day_of r ≡ day_of t
  pub sec : r.tm_sec ≡ t.tm_sec
  pub min : r.tm_min ≡ t.tm_min
  pub hour : r.tm_hour ≡ t.tm_hour

next_month-time :
    (mon : ℕ) (t : Tm)
    → ((next_month mon t).tm_sec ≡ t.tm_sec)
      × ((next_month mon t).tm_min ≡ t.tm_min)
      × ((next_month mon t).tm_hour ≡ t.tm_hour)
unfolding next_month
next_month-time mon t = ground arith

stays_in :
    (mon : ℕ) (t : Tm)
    → int_mod mon 12 ≡ t.tm_mon
    → int_lt (mdays (is_leap t.tm_year) (int_mod mon 12)) t.tm_mday ≡ false
    → InYear t
    → t.tm_mday ≤ mdays (is_leap t.tm_year) t.tm_mon
stays_in mon t e h v =
    let b = mdays_bounds (is_leap t.tm_year) t.tm_mon v.mon in
    shorter_than (mdays (is_leap t.tm_year) t.tm_mon) t.tm_mday (omega arith) v.small
      (ap (λ m. int_lt (mdays (is_leap t.tm_year) m) t.tm_mday) (sym e) ∙ h)

pub month_loop-Settles :
    (fuel mon : ℕ) (t : Tm)
    → t.tm_mday ≤ fuel
    → mon + t.tm_mday < 2 ^ 31 + 12
    → int_mod mon 12 ≡ t.tm_mon
    → InYear t
    → Settles t (month_loop fuel mon t)
unfolding month_loop
month_loop-Settles zero mon t h sm e v = absurd (omega arith)
month_loop-Settles (suc fuel) mon t h sm e v =
    elim (Bool-cases (int_lt (mdays (is_leap t.tm_year) (int_mod mon 12)) t.tm_mday)) [
      | inl more ↦
          rw (more, month_loop)
            (let over = runs_over mon t e more v in
              let bound = mdays_bounds (is_leap t.tm_year) t.tm_mon v.mon in
              let (v', d, m, l, size) = next_month-day mon t e more (omega arith) v in
              let near : add32 mon 1 ≡ mon + 1 = omega arith in
              let s =
                month_loop-Settles fuel (add32 mon 1) (next_month mon t) (omega arith) (omega arith)
                  (sym m) v' in
              let (a, b, c) = next_month-time mon t in
              record {
                date = s.date;
                fits = s.fits;
                size = omega (arith, s.size);
                day = s.day ∙ d;
                sec = s.sec ∙ a;
                min = s.min ∙ b;
                hour = s.hour ∙ c;
              })
      | inr done ↦
          rw (done, month_loop)
            (record {
              date = v;
              fits = stays_in mon t e done v;
              size = omega arith;
              day = refl;
              sec = refl;
              min = refl;
              hour = refl;
            })
    ]

-- On a month of the year the second loop does nothing.
pub year_loop-settled : (fuel : ℕ) (t : Tm) → t.tm_mon < 12 → year_loop fuel t ≡ t
unfolding year_loop
year_loop-settled zero t h = refl
year_loop-settled (suc fuel) t h = ground arith
