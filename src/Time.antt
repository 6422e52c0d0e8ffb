-- ===== src/Time.antt =====
-- newland/src/time.c: the seconds since 1970 of a date. `time_t` is taken to be wide
-- enough for the sum.
use stardustos.Prelude.{
  Bool, [], get_or, if◌then◌else◌, not, suc, zero, ℕ, ◌%◌, ◌&&◌, ◌*◌, ◌+◌, ◌-◌, ◌==◌, ◌||◌, ◌∷◌,
}
pub mod Dates
pub mod Examples

-- `datetime_t`
pub record Datetime : Type 0 where
  pub yr : ℕ
  pub mon : ℕ
  pub day : ℕ
  pub hr : ℕ
  pub min : ℕ
  pub sec : ℕ

abbrev pub seconds_per_day : ℕ
seconds_per_day = 86400

unfoldable pub is_leap_year : ℕ → Bool
is_leap_year year = year % 4 == 0 && not (year % 100 == 0) || year % 400 == 0

unfoldable pub dpy : Bool → ℕ
dpy leap = if leap then 366 else 365

unfoldable pub dpm : Bool → ℕ → ℕ
dpm leap month =
    get_or (31 ∷ (if leap then 29 else 28) ∷ 31 ∷ 30 ∷ 31 ∷ 30 ∷ 31 ∷ 31 ∷ 30 ∷ 31 ∷ 30 ∷ 31 ∷ [])
      month 0

-- The loops, with `n` rounds left from a year or a month on; `t` is what they have added up.
unfoldable pub years_from : ℕ → ℕ → ℕ → ℕ
years_from t year zero = t
years_from t year (suc n) = years_from (t + dpy (is_leap_year year) * seconds_per_day) (year + 1) n

unfoldable pub months_from : Bool → ℕ → ℕ → ℕ → ℕ
months_from leap t month zero = t
months_from leap t month (suc n) =
    months_from leap (t + dpm leap month * seconds_per_day) (month + 1) n

-- The sums do not wrap before 2038, and the day and the month count from 1.
unfoldable pub dt2t : Datetime → ℕ
dt2t dt =
    let t = years_from 0 1970 (dt.yr - 1970) in
    let t' = months_from (is_leap_year dt.yr) t 0 (dt.mon - 1) in
    t' + (dt.day - 1) * seconds_per_day + dt.hr * 3600 + dt.min * 60 + dt.sec
