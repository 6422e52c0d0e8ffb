-- ===== src/Time/Dates.antt =====
-- Dates and seconds of newland/src/time.c.
use stardustos.Prelude.{
  Bool-cases, ap, arith, inl, inr, refl, suc, zero, ℕ, ◌*◌, ◌+◌, ◌-◌, ◌<◌, ◌∙◌, ◌≡◌, ◌≤◌,
}
use stardustos.Time.{
  Datetime, dpm, dpy, dt2t, is_leap_year, months_from, seconds_per_day, years_from,
}

years_from-step :
    (n t year : ℕ)
    → years_from t year (suc n)
      ≡ years_from t year n + dpy (is_leap_year (year + n)) * seconds_per_day
unfolding years_from
years_from-step zero t year = let here : year + 0 ≡ year = omega arith in rw here refl
years_from-step (suc n) t year =
    let there : year + 1 + n ≡ year + suc n = omega arith in
    years_from-step n (t + dpy (is_leap_year year) * seconds_per_day) (year + 1)
    ∙ ap
        (λ y.
          years_from (t + dpy (is_leap_year year) * seconds_per_day) (year + 1) n
          + dpy (is_leap_year y) * seconds_per_day)
        there

-- From 1970 on, the first second of a year follows the last second of the year before.
pub dt2t-next_year :
    (dt : Datetime)
    → 1970 ≤ dt.yr
    → dt2t (record { yr = dt.yr + 1; mon = 1; day = 1; hr = 0; min = 0; sec = 0 })
      ≡ dt2t (record { yr = dt.yr; mon = 12; day = 31; hr = 23; min = 59; sec = 59 }) + 1
unfolding dt2t months_from dpm dpy
dt2t-next_year dt late =
    let n = dt.yr - 1970 in
    let more : dt.yr + 1 - 1970 ≡ suc (dt.yr - 1970) = omega arith in
    let last : 1970 + (dt.yr - 1970) ≡ dt.yr = omega arith in
    let step = years_from-step (dt.yr - 1970) 0 1970 in
    let sum =
      ap (λ k. years_from 0 1970 k) more
      ∙ step
      ∙ ap (λ y. years_from 0 1970 (dt.yr - 1970) + dpy (is_leap_year y) * seconds_per_day) last in
    elim (Bool-cases (is_leap_year dt.yr)) [
      | inl leap ↦ ground (arith, leap, sum)
      | inr common ↦ ground (arith, common, sum)
    ]

-- The years of two digits, which the clock gives, count for nothing but the leap day.
pub dt2t-two_digits :
    (dt : Datetime) (yr : ℕ)
    → dt.yr < 100
    → yr < 100
    → is_leap_year dt.yr ≡ is_leap_year yr
    → dt2t (record dt { yr = yr }) ≡ dt2t dt
unfolding dt2t
dt2t-two_digits dt yr two two' same =
    let none_yet : yr - 1970 ≡ 0 = omega arith in
    let none_then : dt.yr - 1970 ≡ 0 = omega arith in rw (none_yet, none_then, same) refl
