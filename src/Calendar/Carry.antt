-- ===== src/Calendar/Carry.antt =====
-- What the fields of a `struct tm` stand for, and how `mktime` carries them in rlibc/time/mktime.c.
use mathlib.Core.Path.{subst}
use razos.Base.{
  false, sym, ap, ◌^◌, is_neg, int_div, int_mod, add32, ℕ, ◌+◌, ◌*◌, ◌/◌, ◌%◌, ◌<◌, ◌≤◌, ◌≡◌, refl,
  arith, ◌∙◌,
}
use razos.Calendar.{Tm, is_leap, mdays, carry, normalize, month_loop}
use razos.Calendar.Epoch.{day_number}
use razos.Calendar.Months.{InYear, Settles, day_of, month_loop-Settles, year_loop-settled}

-- The seconds since the Epoch that a time with a month of the year stands for, its other fields
-- being of any size.
unfoldable pub seconds_of : Tm → ℕ
seconds_of t =
    86400 * day_number (t.tm_year + 1900) t.tm_mon t.tm_mday
    + 3600 * t.tm_hour
    + 60 * t.tm_min
    + t.tm_sec

-- The ranges that <time.h> states, for the fields from the seconds to the month.
pub record InRange (t : Tm) : Type 0 where
  pub sec : t.tm_sec < 60
  pub min : t.tm_min < 60
  pub hour : t.tm_hour < 24
  pub mon : t.tm_mon < 12
  pub first : 1 ≤ t.tm_mday
  pub last : t.tm_mday ≤ mdays (is_leap (t.tm_year + 1900)) t.tm_mon

abbrev pub add_century : Tm → Tm
add_century t = record t { tm_year = t.tm_year + 1900 }

-- An input to `mktime`: a month of a year since 1970, a day from the first on, and no field negative or
-- so large that the carries or the year could overflow an `int`.
pub record IsInput (t : Tm) : Type 0 where
  pub mon : t.tm_mon < 12
  pub day : 1 ≤ t.tm_mday
  pub year : 70 ≤ t.tm_year
  pub sec_small : t.tm_sec < 2 ^ 31
  pub min_small : t.tm_min < 2 ^ 30
  pub hour_small : t.tm_hour < 2 ^ 30
  pub day_small : t.tm_mday < 2 ^ 30
  pub year_small : t.tm_year < 2 ^ 30

-- The carries where nothing is negative and nothing wraps around.
abbrev plain_carry : Tm → Tm
plain_carry t =
    let min = t.tm_min + t.tm_sec / 60 in
    let hour = t.tm_hour + min / 60 in
    record t {
      tm_sec = t.tm_sec % 60;
      tm_min = min % 60;
      tm_hour = hour % 24;
      tm_mday = t.tm_mday + hour / 24;
    }

plain_div : (w d : ℕ) → w < 2 ^ 31 → int_div w d ≡ w / d
plain_div w d h = let e : is_neg w ≡ false = ground arith in rw e refl

plain_mod : (w d : ℕ) → w < 2 ^ 31 → int_mod w d ≡ w % d
plain_mod w d h = let e : is_neg w ≡ false = ground arith in rw e refl

plain_add : (a b : ℕ) → a + b < 2 ^ 31 → add32 a b ≡ a + b
plain_add a b h = omega arith

-- The four carried fields, as a function of those that change.
abbrev carried : Tm → (sec min hour day : ℕ) → Tm
carried t sec min hour day = record t { tm_sec = sec; tm_min = min; tm_hour = hour; tm_mday = day }

carry-plain : (t : Tm) → IsInput t → carry (add_century t) ≡ plain_carry (add_century t)
unfolding carry
carry-plain t v =
    let min = t.tm_min + t.tm_sec / 60 in
    let hour = t.tm_hour + min / 60 in
    let min_carry : add32 t.tm_min (int_div t.tm_sec 60) ≡ min =
      ap (add32 t.tm_min) (plain_div t.tm_sec 60 v.sec_small)
      ∙ plain_add t.tm_min (t.tm_sec / 60) (omega arith) in
    let hour_carry : add32 t.tm_hour (int_div (add32 t.tm_min (int_div t.tm_sec 60)) 60) ≡ hour =
      ap (λ m. add32 t.tm_hour (int_div m 60)) min_carry
      ∙ ap (add32 t.tm_hour) (plain_div min 60 (omega arith))
      ∙ plain_add t.tm_hour (min / 60) (omega arith) in
    let day_carry : add32 t.tm_mday (int_div hour 24) ≡ t.tm_mday + hour / 24 =
      ap (add32 t.tm_mday) (plain_div hour 24 (omega arith))
      ∙ plain_add t.tm_mday (hour / 24) (omega arith) in
    let year = add_century t in
    ap
      (λ h.
        carried year (int_mod t.tm_sec 60) (int_mod (add32 t.tm_min (int_div t.tm_sec 60)) 60)
          (int_mod h 24) (add32 t.tm_mday (int_div h 24)))
      hour_carry
    ∙ ap
        (λ m.
          carried year (int_mod t.tm_sec 60) (int_mod m 60) (int_mod hour 24)
            (add32 t.tm_mday (int_div hour 24)))
        min_carry
    ∙ ap (λ d. carried year (int_mod t.tm_sec 60) (int_mod min 60) (int_mod hour 24) d) day_carry
    ∙ ap (λ x. carried year x (int_mod min 60) (int_mod hour 24) (t.tm_mday + hour / 24))
        (plain_mod t.tm_sec 60 v.sec_small)
    ∙ ap (λ x. carried year (t.tm_sec % 60) x (int_mod hour 24) (t.tm_mday + hour / 24))
        (plain_mod min 60 (omega arith))
    ∙ ap (λ x. carried year (t.tm_sec % 60) (min % 60) x (t.tm_mday + hour / 24))
        (plain_mod hour 24 (omega arith))

carry-InYear : (t : Tm) → IsInput t → InYear (carry (add_century t))
carry-InYear t v =
    let year : 1970 ≤ t.tm_year + 1900 = omega (arith, v.year) in
    subst InYear (sym (carry-plain t v))
      (record { mon = v.mon; day = omega arith; year = year; small = omega arith })

carry-mon : (t : Tm) → IsInput t → int_mod t.tm_mon 12 ≡ (carry (add_century t)).tm_mon
unfolding carry
carry-mon t v = plain_mod t.tm_mon 12 (omega arith) ∙ omega (arith, v.mon)

-- The days that the fields run to, after the carries.
pub carry-days :
    (t : Tm)
    → IsInput t
    → (carry (add_century t)).tm_year + (carry (add_century t)).tm_mday
      ≤ t.tm_year + 1900 + t.tm_mday + t.tm_hour + t.tm_min + t.tm_sec / 60
carry-days t v =
    subst
      (λ c.
        c.tm_year + c.tm_mday ≤ t.tm_year + 1900 + t.tm_mday + t.tm_hour + t.tm_min + t.tm_sec / 60)
      (sym (carry-plain t v)) (omega arith)

carry-small : (t : Tm) → IsInput t → t.tm_mon + (carry (add_century t)).tm_mday < 2 ^ 31 + 12
carry-small t v = omega (arith, v.mon, (carry-InYear t v).small)

pub normalize-Settles : (t : Tm) → IsInput t → Settles (carry (add_century t)) (normalize t)
unfolding normalize
normalize-Settles t v =
    let start = carry (add_century t) in
    let s =
      month_loop-Settles start.tm_mday t.tm_mon start (omega arith) (carry-small t v)
        (carry-mon t v) (carry-InYear t v) in
    let u = month_loop start.tm_mday t.tm_mon start in
    rw (year_loop-settled u.tm_mon u s.date.mon) s

-- The carries keep the time, and leave the seconds, minutes and hours in range.
abbrev pub Carries : Tm → Tm → Type 0
Carries t c =
    (86400 * day_of c + 3600 * c.tm_hour + 60 * c.tm_min + c.tm_sec ≡ seconds_of t)
    × (c.tm_sec < 60)
    × (c.tm_min < 60)
    × (c.tm_hour < 24)

plain_carry-Carries : (t : Tm) → IsInput t → Carries t (plain_carry (add_century t))
unfolding seconds_of day_number
plain_carry-Carries t v = ground arith

pub carry-seconds : (t : Tm) → IsInput t → Carries t (carry (add_century t))
carry-seconds t v = subst (Carries t) (sym (carry-plain t v)) (plain_carry-Carries t v)
