-- ===== src/Time/Examples.antt =====
-- Dates of newland/src/time.c.
use stardustos.Prelude.{refl, ◌≡◌}
use stardustos.Time.{Datetime, dpm, dpy, dt2t, is_leap_year, months_from, years_from}

-- Noon of the tenth of May 2019.
abbrev may : Datetime
may = record { yr = 2019; mon = 5; day = 10; hr = 12; min = 0; sec = 0 }

may_in_seconds : dt2t may ≡ 1557489600
unfolding dt2t months_from years_from dpy is_leap_year dpm
may_in_seconds = refl
