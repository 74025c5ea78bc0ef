-- ===== src/Lag/Summary.antt =====
-- lag.rs: totals that add up across phases, and the summary of a run.
use wsblast.Common.{
  ℕ, ◌+◌, ◌-◌, ◌*◌, ◌≤◌, ◌<◌, ◌≡◌, ap, ◌∙◌, ◌⊎◌, ◌↔◌, Bool, true, false, ◌&&◌, ◌||◌, Option, none,
  some, length, ltb, leb, ◌==◌, if◌then◌else◌, arith,
}
use wsblast.Lag.{probe_period_us, interval_share_percent, min_late_in_run, LagHistogram, LagRecord}

pub record LagTotals (H : Type 0) : Type 0 where
  pub total_hist : Option H
  pub total_intervals : ℕ
  pub total_over : ℕ
  pub threshold_us : Option ℕ

-- The report's part about the generator.
pub record GeneratorLag : Type 0 where
  pub probe_interval_us : ℕ
  pub lag_samples : ℕ
  pub p50_us : ℕ
  pub p99_lag_us : ℕ
  pub max_lag_us : ℕ
  pub checked_against_us : ℕ
  pub intervals_seen : ℕ
  pub intervals_over_threshold : ℕ
  pub saturated : Bool

module _ {H : Type 0} where
  pub totals : LagRecord H → LagTotals H
  totals r = record {
    total_hist = r.hist;
    total_intervals = length r.intervals;
    total_over = r.intervals_over;
    threshold_us = none;
  }

  pub totals_from_parts : H → ℕ → ℕ → ℕ → LagTotals H
  totals_from_parts h intervals over threshold = record {
    total_hist = some h;
    total_intervals = intervals;
    total_over = over;
    threshold_us = some threshold;
  }

abbrev threshold_or : ℕ → Option ℕ → ℕ
threshold_or threshold none = threshold
threshold_or threshold (some own) = own

abbrev first_of : Option ℕ → Option ℕ → Option ℕ
first_of none other = other
first_of (some own) other = some own

-- `threshold` is the default threshold of the machine that summarises.
module _ {H : Type 0} (histogram : LagHistogram H) (threshold : ℕ) where
  abbrev added_hist : Option H → Option H → Option H
  added_hist (some h) (some other) = some (histogram.add_all h other)
  added_hist none (some other) = some other
  added_hist own none = own

  pub add : LagTotals H → LagTotals H → LagTotals H
  add t other = record {
    total_hist = added_hist t.total_hist other.total_hist;
    total_intervals = t.total_intervals + other.total_intervals;
    total_over = t.total_over + other.total_over;
    threshold_us = first_of t.threshold_us other.threshold_us;
  }

  abbrev pub late_of : LagTotals H → H → ℕ
  late_of t h =
      histogram.len h - histogram.count_between 1 (threshold_or threshold t.threshold_us) h

  abbrev p99_over : LagTotals H → H → Bool
  p99_over t h =
      ltb (threshold_or threshold t.threshold_us) (histogram.p99 h)
      && leb min_late_in_run (late_of t h)

  abbrev share_over : LagTotals H → Bool
  share_over t =
      ltb 0 t.total_over && leb (t.total_intervals * interval_share_percent) (t.total_over * 100)

  unfoldable pub summary_of : LagTotals H → H → GeneratorLag
  summary_of t h = record {
    probe_interval_us = probe_period_us;
    lag_samples = histogram.len h;
    p50_us = histogram.p50 h;
    p99_lag_us = histogram.p99 h;
    max_lag_us = histogram.largest h;
    checked_against_us = threshold_or threshold t.threshold_us;
    intervals_seen = t.total_intervals;
    intervals_over_threshold = t.total_over;
    saturated = p99_over t h || share_over t;
  }

  abbrev summary_from : LagTotals H → Option H → Option GeneratorLag
  summary_from t none = none
  summary_from t (some h) = if histogram.len h == 0 then none else some (summary_of t h)

  unfoldable pub summary : LagTotals H → Option GeneratorLag
  summary t = summary_from t t.total_hist

  -- A percentile over the threshold with three late samples, or a tenth of the intervals.
  abbrev pub IsSaturated : LagTotals H → H → Type 0
  IsSaturated t h =
      ((threshold_or threshold t.threshold_us < histogram.p99 h) × (3 ≤ late_of t h))
      ⊎ ((0 < t.total_over) × (t.total_intervals ≤ 10 * t.total_over))

  -- A run with samples has a summary, and its flag is set exactly where the percentile of 99 in 100
  -- is above the threshold with three later samples at least, or a tenth of the intervals or more
  -- are over it.
  pub summary-IsSaturated :
      (t : LagTotals H) (h : H)
      → t.total_hist ≡ some h
      → 1 ≤ histogram.len h
      → (g : GeneratorLag) × (summary t ≡ some g) × ((g.saturated ≡ true) ↔ IsSaturated t h)
  unfolding summary summary_of
  summary-IsSaturated t h kept some_sample =
      let full : (histogram.len h == 0) ≡ false = ground arith in
      (summary_of t h, ap (summary_from t) kept ∙ rw full, ground arith)
