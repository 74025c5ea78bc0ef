-- ===== src/Clock/Calendar.antt =====
-- clock.rs: `civil_from_days` against the Gregorian calendar.
use wsblast.Common.{
  ℕ, zero, suc, ◌+◌, ◌-◌, ◌*◌, ◌/◌, ◌%◌, ◌≤◌, ◌<◌, Bool, true, false, Bool-cases, inl, inr, ◌&&◌,
  ◌||◌, and_left, and_right, ltb, ltb→lt, ◌==◌, if◌then◌else◌, ◌≡◌, refl, sym, ap, ap₂, subst, ◌∙◌,
  arith,
}
use wsblast.Common.Tables.{passes, passes_everywhere}
use wsblast.Clock.{
  year_of_era, day_of_year, month_of, date_of_year, civil_from_days, is_leap, days_in, next_date,
  date_after,
}

abbrev same_date : ℕ × ℕ × ℕ → ℕ × ℕ × ℕ → Bool
same_date (y, m, d) (y', m', d') = (y == y') && ((m == m') && (d == d'))

same_date_sound : (a b : ℕ × ℕ × ℕ) → same_date a b ≡ true → a ≡ b
same_date_sound (y, m, d) (y', m', d') h =
    let years : y ≡ y' = ground (arith, and_left (y == y') ((m == m') && (d == d')) h) in
    let rest = and_right (y == y') ((m == m') && (d == d')) h in
    let months : m ≡ m' = ground (arith, and_left (m == m') (d == d') rest) in
    let days : d ≡ d' = ground (arith, and_right (m == m') (d == d') rest) in
    rw (years, months, days) refl

-- The date of a day in its era, with the year in the era.
abbrev in_era : ℕ → ℕ × ℕ × ℕ
in_era doe = date_of_year (year_of_era doe) (day_of_year doe (year_of_era doe))

-- The next day of an era has the next date.
unfoldable follows : ℕ → Bool
unfolding next_date
follows doe = same_date (next_date (in_era doe)) (in_era (doe + 1))

-- The days of an era, in ten parts.
era_0 : passes (λ i. follows (i + 0)) 14610 ≡ true
unfolding passes follows next_date
era_0 = refl

era_1 : passes (λ i. follows (i + 14610)) 14610 ≡ true
unfolding passes follows next_date
era_1 = refl

era_2 : passes (λ i. follows (i + 29220)) 14610 ≡ true
unfolding passes follows next_date
era_2 = refl

era_3 : passes (λ i. follows (i + 43830)) 14610 ≡ true
unfolding passes follows next_date
era_3 = refl

era_4 : passes (λ i. follows (i + 58440)) 14610 ≡ true
unfolding passes follows next_date
era_4 = refl

era_5 : passes (λ i. follows (i + 73050)) 14610 ≡ true
unfolding passes follows next_date
era_5 = refl

era_6 : passes (λ i. follows (i + 87660)) 14610 ≡ true
unfolding passes follows next_date
era_6 = refl

era_7 : passes (λ i. follows (i + 102270)) 14610 ≡ true
unfolding passes follows next_date
era_7 = refl

era_8 : passes (λ i. follows (i + 116880)) 14610 ≡ true
unfolding passes follows next_date
era_8 = refl

era_9 : passes (λ i. follows (i + 131490)) 14606 ≡ true
unfolding passes follows next_date
era_9 = refl

part :
    (from n doe : ℕ)
    → passes (λ i. follows (i + from)) n ≡ true
    → from ≤ doe
    → doe < from + n
    → follows doe ≡ true
part from n doe h low high =
    subst (λ d. follows d ≡ true) (omega arith)
      (passes_everywhere (λ i. follows (i + from)) n (doe - from) h (omega arith))

follows_below : (k doe : ℕ) → doe / 14610 ≡ k → doe < 146096 → follows doe ≡ true
follows_below zero doe e h = part 0 14610 doe era_0 (omega arith) (omega arith)
follows_below (suc zero) doe e h = part 14610 14610 doe era_1 (omega arith) (omega arith)
follows_below (suc (suc zero)) doe e h = part 29220 14610 doe era_2 (omega arith) (omega arith)
follows_below (suc (suc (suc zero))) doe e h =
    part 43830 14610 doe era_3 (omega arith) (omega arith)
follows_below (suc (suc (suc (suc zero)))) doe e h =
    part 58440 14610 doe era_4 (omega arith) (omega arith)
follows_below (suc (suc (suc (suc (suc zero))))) doe e h =
    part 73050 14610 doe era_5 (omega arith) (omega arith)
follows_below (suc (suc (suc (suc (suc (suc zero)))))) doe e h =
    part 87660 14610 doe era_6 (omega arith) (omega arith)
follows_below (suc (suc (suc (suc (suc (suc (suc zero))))))) doe e h =
    part 102270 14610 doe era_7 (omega arith) (omega arith)
follows_below (suc (suc (suc (suc (suc (suc (suc (suc zero)))))))) doe e h =
    part 116880 14610 doe era_8 (omega arith) (omega arith)
follows_below (suc (suc (suc (suc (suc (suc (suc (suc (suc zero))))))))) doe e h =
    part 131490 14606 doe era_9 (omega arith) (omega arith)
follows_below (suc (suc (suc (suc (suc (suc (suc (suc (suc (suc k)))))))))) doe e h =
    absurd (omega arith)

next_in_era : (doe : ℕ) → doe < 146096 → next_date (in_era doe) ≡ in_era (doe + 1)
unfolding follows
next_in_era doe h =
    same_date_sound (next_date (in_era doe)) (in_era (doe + 1))
      (follows_below (doe / 14610) doe refl h)

later_by : ℕ → ℕ × ℕ × ℕ → ℕ × ℕ × ℕ
later_by years (y, m, d) = (y + years, m, d)

leap_again : (y e : ℕ) → is_leap (y + e * 400) ≡ is_leap y
leap_again y e =
    let four : (y + e * 400) % 4 ≡ y % 4 = omega arith in
    let hundred : (y + e * 400) % 100 ≡ y % 100 = omega arith in
    let all : (y + e * 400) % 400 ≡ y % 400 = omega arith in rw (four, hundred, all) refl

-- The next date, by whether the day and the month have another one after them.
abbrev stepped : Bool → Bool → ℕ × ℕ × ℕ → ℕ × ℕ × ℕ
stepped more_days more_months (y, m, d) =
    if more_days then (y, m, d + 1) else if more_months then (y, m + 1, 1) else (y + 1, 1, 1)

stepped-later_by :
    (e : ℕ) (more_days more_months : Bool) (y m d : ℕ)
    → stepped more_days more_months (later_by (e * 400) (y, m, d))
      ≡ later_by (e * 400) (stepped more_days more_months (y, m, d))
unfolding later_by
stepped-later_by e true more_months y m d = refl
stepped-later_by e false true y m d = refl
stepped-later_by e false false y m d = ap (λ (year : ℕ). (year, 1, 1)) (omega arith)

days_again : (y e m : ℕ) → days_in (y + e * 400) m ≡ days_in y m
days_again y e m =
    ap
      (λ (leap : Bool).
        if m == 2
        then (if leap then 29 else 28)
        else if (m == 4) || ((m == 6) || ((m == 9) || (m == 11)))
        then 30
        else 31)
      (leap_again y e)

next_date-later_by :
    (e y m d : ℕ)
    → next_date (later_by (e * 400) (y, m, d)) ≡ later_by (e * 400) (next_date (y, m, d))
unfolding next_date later_by
next_date-later_by e y m d =
    ap (λ (days : ℕ). stepped (ltb d days) (ltb m 12) (y + e * 400, m, d)) (days_again y e m)
    ∙ stepped-later_by e (ltb d (days_in y m)) (ltb m 12) y m d

date_of_year-later_by :
    (e y doy : ℕ) → date_of_year (y + e * 400) doy ≡ later_by (e * 400) (date_of_year y doy)
unfolding later_by
date_of_year-later_by e y doy =
    let month = month_of ((5 * doy + 2) / 153) in
    ap (λ (year : ℕ). (year, month, doy - (153 * ((5 * doy + 2) / 153) + 2) / 5 + 1)) (omega arith)

civil_from_days-in_era :
    (days : ℕ)
    → civil_from_days days
      ≡ later_by ((days + 719468) / 146097 * 400) (in_era ((days + 719468) % 146097))
unfolding civil_from_days
civil_from_days-in_era days =
    let doe = (days + 719468) % 146097 in
    date_of_year-later_by ((days + 719468) / 146097) (year_of_era doe)
      (day_of_year doe (year_of_era doe))

-- The last day of an era is a 29th of February.
last_of_era :
    (e : ℕ) → next_date (later_by (e * 400) (in_era 146096)) ≡ later_by ((e + 1) * 400) (in_era 0)
unfolding later_by next_date
last_of_era e = next_date-later_by e 400 2 29 ∙ ap (λ (year : ℕ). (year, 3, 1)) (omega arith)

civil_first : civil_from_days 0 ≡ (1970, 1, 1)
unfolding civil_from_days
civil_first = refl

civil_from_days-suc : (days : ℕ) → civil_from_days (suc days) ≡ next_date (civil_from_days days)
civil_from_days-suc days =
    let z = days + 719468 in
    let e = z / 146097 in
    rw (civil_from_days-in_era (suc days), civil_from_days-in_era days)
      (elim (Bool-cases (ltb (z % 146097) 146096)) [
        | inl t ↦
            let doe : (suc days + 719468) % 146097 ≡ z % 146097 + 1 = ground arith in
            let era : (suc days + 719468) / 146097 ≡ e = ground arith in
            ap₂ (λ (k d : ℕ). later_by (k * 400) (in_era d)) era doe
            ∙ ap (later_by (e * 400)) (sym (next_in_era (z % 146097) (ltb→lt _ _ t)))
            ∙ sym (next_date-later_by e _ _ _)
        | inr t ↦
            let last : z % 146097 ≡ 146096 = ground arith in
            let doe : (suc days + 719468) % 146097 ≡ 0 = ground arith in
            let era : (suc days + 719468) / 146097 ≡ e + 1 = ground arith in
            ap₂ (λ (k d : ℕ). later_by (k * 400) (in_era d)) era doe
            ∙ sym (last_of_era e)
            ∙ ap (λ (d : ℕ). next_date (later_by (e * 400) (in_era d))) (sym last)
      ])

-- The date of a day is the one that the Gregorian calendar gives, counting from 1970-01-01.
pub civil_from_days-date_after : (days : ℕ) → civil_from_days days ≡ date_after days
unfolding date_after
civil_from_days-date_after zero = civil_first
civil_from_days-date_after (suc days) =
    civil_from_days-suc days ∙ ap next_date (civil_from_days-date_after days)
