-- ===== src/Clock/Runs.antt =====
-- clock.rs at concrete days.
use wsblast.Common.{◌≡◌, refl}
use wsblast.Clock.{civil_from_days, date_after}
use wsblast.Clock.Calendar.{civil_from_days-date_after}

-- 951,782,400 seconds are this many days.
leap_day : civil_from_days 11016 ≡ (2000, 2, 29)
unfolding civil_from_days
leap_day = refl

civil_from_days-date_after_example : civil_from_days 11016 ≡ date_after 11016
civil_from_days-date_after_example = civil_from_days-date_after 11016
