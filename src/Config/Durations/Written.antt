-- ===== src/Config/Durations/Written.antt =====
-- config.rs: durations as they are written, a whole number and a unit.
use mathlib.Core.List.{reverse, reverse-append, reverse-reverse}
use wsblast.Common.{
  ℕ, zero, suc, ◌*◌, ◌-◌, ◌^◌, ◌<◌, ◌≡◌, refl, sym, ap, subst, ◌∙◌, Bool, true, false, not, ◌&&◌,
  and_left, and_right, Option, none, some, List, [], ◌∷◌, ◌++◌, All, Bytes, codes, get_elem?, ◌==◌,
  if◌then◌else◌, arith,
}
use wsblast.Common.Text.{
  All-reverse, is_digit, trim, strip_prefix, strip_prefix_append, turned, strip_suffix,
}
use wsblast.Common.Decimal.{decimal, IsDigit, decimal-IsDigit, decimal_cons, parse_unsigned-decimal}
use wsblast.Config.Durations.Trimming.{starts_visible, trim_between}
use wsblast.Config.Durations.{
  units, duration_range, or_invalid, scale_duration, by_unit, try_unit, scale_read,
  parse_human_duration, trimmed_duration,
}

-- Whether no number before `s` makes a text that ends in `p`; both are backwards.
differs : Bytes → Bytes → Bool
differs [] s = false
differs (p ∷ ps) [] = not (is_digit p)
differs (p ∷ ps) (c ∷ cs) = let rest = differs ps cs in if p == c then rest else true

no_digit_starts :
    (p : ℕ) (ps digits : Bytes)
    → not (is_digit p) ≡ true
    → All IsDigit digits
    → strip_prefix (p ∷ ps) digits ≡ none
no_digit_starts p ps [] e h = refl
no_digit_starts p ps (d ∷ ds) e h = let other : (p == d) ≡ false = ground arith in rw other

strip_prefix-differs :
    (p s digits : Bytes)
    → differs p s ≡ true
    → All IsDigit digits
    → strip_prefix p (s ++ digits) ≡ none
unfolding differs
strip_prefix-differs [] s digits e h = cc
strip_prefix-differs (p ∷ ps) [] digits e h = no_digit_starts p ps digits e h
strip_prefix-differs (p ∷ ps) (c ∷ cs) digits e h =
    ground (arith, strip_prefix-differs ps cs digits)

strip_suffix-differs :
    (p suffix digits : Bytes)
    → differs (reverse p) (reverse suffix) ≡ true
    → All IsDigit digits
    → strip_suffix p (digits ++ suffix) ≡ none
strip_suffix-differs p suffix digits e h =
    ap (λ (s : Bytes). turned (strip_prefix (reverse p) s)) (reverse-append digits suffix)
    ∙ ap turned (
        strip_prefix-differs (reverse p) (reverse suffix) (reverse digits) e
          (All-reverse IsDigit digits h))

strip_suffix_append : (front p : Bytes) → strip_suffix p (front ++ p) ≡ some front
strip_suffix_append front p =
    ap (λ (s : Bytes). turned (strip_prefix (reverse p) s)) (reverse-append front p)
    ∙ ap turned (strip_prefix_append (reverse p) (reverse front))
    ∙ ap some (reverse-reverse front)

-- Whether a number before the suffix of the unit at an index is not taken for an earlier unit's.
reaches : List (Bytes × ℕ) → ℕ → Bytes → Bool
unfolding differs
reaches [] i suffix = false
reaches (u ∷ us) zero suffix = true
reaches (u ∷ us) (suc i) suffix =
    let rest = reaches us i suffix in differs (reverse u.0) (reverse suffix) && rest

fits : ℕ → Bytes → Bool
unfolding reaches starts_visible
fits i suffix = reaches units i suffix && starts_visible (reverse suffix)

same_fits :
    (i : ℕ) (unit u : Bytes × ℕ) → fits i unit.0 ≡ true → some unit ≡ some u → fits i u.0 ≡ true
same_fits i unit u e same =
    let one : unit ≡ u = cc in subst (λ (v : Bytes × ℕ). fits i v.0 ≡ true) one e

units_fit : (i : ℕ) (u : Bytes × ℕ) → get_elem? units i ≡ some u → fits i u.0 ≡ true
unfolding fits
units_fit zero u e = same_fits 0 (codes "ns", 1) u refl e
units_fit (suc zero) u e = same_fits 1 (codes "us", 1000) u refl e
units_fit (suc (suc zero)) u e = same_fits 2 (194 ∷ 181 ∷ b's' ∷ [], 1000) u refl e
units_fit (suc (suc (suc zero))) u e = same_fits 3 (codes "ms", 1000000) u refl e
units_fit (suc (suc (suc (suc zero)))) u e = same_fits 4 (codes "s", 1000000000) u refl e
units_fit (suc (suc (suc (suc (suc zero))))) u e = same_fits 5 (codes "m", 60000000000) u refl e
units_fit (suc (suc (suc (suc (suc (suc zero)))))) u e =
    same_fits 6 (codes "h", 3600000000000) u refl e
units_fit (suc (suc (suc (suc (suc (suc (suc i))))))) u e = cc

fits-reaches : (i : ℕ) (s : Bytes) → fits i s ≡ true → reaches units i s ≡ true
unfolding fits
fits-reaches i s h = and_left (reaches units i s) (starts_visible (reverse s)) h

fits-visible : (i : ℕ) (s : Bytes) → fits i s ≡ true → starts_visible (reverse s) ≡ true
unfolding fits
fits-visible i s h = and_right (reaches units i s) (starts_visible (reverse s)) h

-- A number with its unit has no blanks around it.
pub trim_unit :
    (i n : ℕ) (u : Bytes × ℕ)
    → get_elem? units i ≡ some u
    → trim (decimal n ++ u.0) ≡ decimal n ++ u.0
trim_unit i n u found = trim_between n [] u.0 (fits-visible i u.0 (units_fit i u found))

module _ (fractional : Bytes → ℕ → Option ℕ) where
  scale_whole :
      (n unit : ℕ)
      → n < 2 ^ 64
      → scale_duration fractional (decimal n) unit ≡ duration_range (n * unit)
  unfolding scale_duration
  scale_whole n unit h =
      ap (scale_read fractional (decimal n) unit)
        (parse_unsigned-decimal (2 ^ 64 - 1) n (omega arith) (omega arith))

  by_unit_here :
      (us : List (Bytes × ℕ)) (p : Bytes) (n k : ℕ)
      → n < 2 ^ 64
      → by_unit fractional (decimal n ++ p) ((p, k) ∷ us)
        ≡ or_invalid (decimal n ++ p) (duration_range (n * k))
  unfolding by_unit try_unit
  by_unit_here us p n k h =
      ap (try_unit fractional (decimal n ++ p) k (by_unit fractional (decimal n ++ p) us))
        (strip_suffix_append (decimal n) p)
      ∙ ap (or_invalid (decimal n ++ p)) (scale_whole n k h)

  by_unit_taken :
      (us : List (Bytes × ℕ)) (i n : ℕ) (u : Bytes × ℕ)
      → n < 2 ^ 64
      → get_elem? us i ≡ some u
      → reaches us i u.0 ≡ true
      → by_unit fractional (decimal n ++ u.0) us
        ≡ or_invalid (decimal n ++ u.0) (duration_range (n * u.1))
  unfolding by_unit try_unit reaches
  by_unit_taken [] i n u h found reach = cc
  by_unit_taken (v ∷ us) zero n u h found reach =
      let same : v ≡ u = cc in
      subst
        (λ (w : Bytes × ℕ).
          by_unit fractional (decimal n ++ u.0) (w ∷ us)
          ≡ or_invalid (decimal n ++ u.0) (duration_range (n * u.1)))
        (sym same) (by_unit_here us u.0 n u.1 h)
  by_unit_taken (v ∷ us) (suc i) n u h found reach =
      let differ = and_left (differs (reverse v.0) (reverse u.0)) (reaches us i u.0) reach in
      let reach' = and_right (differs (reverse v.0) (reverse u.0)) (reaches us i u.0) reach in
      ap (try_unit fractional (decimal n ++ u.0) v.1 (by_unit fractional (decimal n ++ u.0) us))
        (strip_suffix-differs v.0 u.0 (decimal n) differ (decimal-IsDigit n))
      ∙ by_unit_taken us i n u h found reach'

  read_trimmed :
      (s : Bytes) (d : ℕ) (ds : Bytes)
      → s ≡ d ∷ ds
      → trim s ≡ s
      → trimmed_duration fractional (trim s) ≡ by_unit fractional s units
  read_trimmed s d ds form trimmed =
      ap (trimmed_duration fractional) (trimmed ∙ form)
      ∙ ap (λ (t : Bytes). by_unit fractional t units) (sym form)

  -- A whole number of 64 bits and a unit is read as that many units, and is refused only where
  -- its seconds do not have 64 bits; no unit is taken for the end of another.
  pub parse_human_duration-decimal :
      (i n : ℕ) (u : Bytes × ℕ)
      → n < 2 ^ 64
      → get_elem? units i ≡ some u
      → parse_human_duration fractional (decimal n ++ u.0)
        ≡ or_invalid (decimal n ++ u.0) (duration_range (n * u.1))
  unfolding parse_human_duration
  parse_human_duration-decimal i n u h found =
      let reach : reaches units i u.0 ≡ true = fits-reaches i u.0 (units_fit i u found) in
      let (d, ds, form) = decimal_cons n in
      let whole : decimal n ++ u.0 ≡ d ∷ (ds ++ u.0) = ap (λ (t : Bytes). t ++ u.0) form in
      read_trimmed (decimal n ++ u.0) d (ds ++ u.0) whole (trim_unit i n u found)
      ∙ by_unit_taken units i n u h found reach
