-- ===== src/Clock.antt =====
-- src/clock.rs: the date of a timestamp. A timestamp is not before 1970, so days are natural numbers.
pub mod Calendar
mod Runs
use wsblast.Common.{
  ℕ, zero, suc, ◌+◌, ◌-◌, ◌*◌, ◌/◌, ◌%◌, Bool, true, false, ◌&&◌, ◌||◌, not, ltb, leb, ◌==◌,
  if◌then◌else◌, ◌≡◌, refl,
}

-- Of a day in its era of 400 years, counted from a first of March.
abbrev pub year_of_era : ℕ → ℕ
year_of_era doe = (doe - doe / 1460 + doe / 36524 - doe / 146096) / 365

abbrev pub day_of_year : ℕ → ℕ → ℕ
day_of_year doe yoe = doe - (365 * yoe + yoe / 4 - yoe / 100)

abbrev pub month_of : ℕ → ℕ
month_of mp = if ltb mp 10 then mp + 3 else mp - 9

abbrev pub date_of_year : ℕ → ℕ → ℕ × ℕ × ℕ
date_of_year year doy =
    let mp = (5 * doy + 2) / 153 in
    let month = month_of mp in
    (year + (if leb month 2 then 1 else 0), month, doy - (153 * mp + 2) / 5 + 1)

unfoldable pub civil_from_days : ℕ → ℕ × ℕ × ℕ
civil_from_days days =
    let z = days + 719468 in
    let doe = z % 146097 in
    let yoe = year_of_era doe in date_of_year (yoe + z / 146097 * 400) (day_of_year doe yoe)

-- The Gregorian calendar.
abbrev pub is_leap : ℕ → Bool
is_leap year = (year % 4 == 0) && (not (year % 100 == 0) || (year % 400 == 0))

abbrev pub days_in : ℕ → ℕ → ℕ
days_in year month =
    if month == 2
    then (if is_leap year then 29 else 28)
    else if (month == 4) || ((month == 6) || ((month == 9) || (month == 11)))
    then 30
    else 31

unfoldable pub next_date : ℕ × ℕ × ℕ → ℕ × ℕ × ℕ
next_date (year, month, day) =
    if ltb day (days_in year month)
    then (year, month, day + 1)
    else if ltb month 12
    then (year, month + 1, 1)
    else (year + 1, 1, 1)

-- The date some days after 1970-01-01.
unfoldable pub date_after : ℕ → ℕ × ℕ × ℕ
unfolding next_date
date_after zero = (1970, 1, 1)
date_after (suc n) = next_date (date_after n)
