-- ===== src/Lag/Runs.antt =====
-- lag.rs at concrete samples.
use wsblast.Common.{true, ℕ, ◌+◌, ◌≡◌, refl, none, some, List, [], ◌∷◌, length, arith}
use wsblast.Lag.{
  LagHistogram, LagRecord, insert, put, sort, count, p99_rank, p99_of, max_of, close_sorted,
  close_samples, close_interval, new_record, move_to, push_sample, record_lag, record_all,
}
use wsblast.Lag.Ranks.{IsRank, closed_with, close_interval-IsRank}
use wsblast.Lag.Summary.{LagTotals, summary, summary_of}
use wsblast.Lag.Totals.{total, total-record_all}

-- A histogram that keeps only the number of its samples.
abbrev counter : LagHistogram ℕ
counter = record {
  new = some 0;
  record_sample = λ h us. h + 1;
  add_all = ◌+◌;
  len = λ h. h;
  count_between = λ low high h. 0;
  p50 = λ h. 1;
  p99 = λ h. 1;
  largest = λ h. 1;
}

-- Two samples in the first second, the second of them late, and one in the third.
abbrev three_samples : List (ℕ × ℕ)
three_samples = (10000000, 1500000) ∷ (20000000, 30000000) ∷ (2010000000, 25000000) ∷ []

three_recorded :
    record_all counter 20000 (new_record counter 20000 0 1000000000) three_samples ≡ record {
      start = 0;
      interval = 1000000000;
      hist = some 3;
      intervals = (0, record { samples = 2; p99_us = 30000; max_us = 30000 }) ∷ [];
      intervals_over = 0;
      current = 25000 ∷ [];
      current_index = 2;
    }
unfolding record_all record_lag new_record move_to push_sample close_interval close_samples
    close_sorted insert sort put count p99_of max_of
three_recorded = refl

abbrev two_late : LagRecord ℕ
two_late = record {
  start = 0;
  interval = 1000000000;
  hist = none;
  intervals = [];
  intervals_over = 0;
  current = 25000 ∷ 1000 ∷ 30000 ∷ [];
  current_index = 4;
}

close_interval-IsRank_example :
    (p : ℕ) × (m : ℕ) × (close_interval 20000 two_late ≡ closed_with 20000 two_late p m)
    × IsRank (p99_rank (length two_late.current)) two_late.current p
    × IsRank (length two_late.current) two_late.current m
close_interval-IsRank_example = close_interval-IsRank 20000 two_late (omega arith)

total-record_all_example :
    total
      (close_interval 20000
        (record_all counter 20000 (new_record counter 20000 0 1000000000) three_samples)).intervals
    ≡ length three_samples
total-record_all_example =
    total-record_all counter 20000 0 1000000000 three_samples
      (omega arith, (omega arith, (omega arith, tt)))

abbrev one_in_ten : LagTotals ℕ
one_in_ten = record {
  total_hist = some 500;
  total_intervals = 10;
  total_over = 1;
  threshold_us = none;
}

tenth_flagged :
    summary counter 20000 one_in_ten
    ≡ some (record {
      probe_interval_us = 10000;
      lag_samples = 500;
      p50_us = 1;
      p99_lag_us = 1;
      max_lag_us = 1;
      checked_against_us = 20000;
      intervals_seen = 10;
      intervals_over_threshold = 1;
      saturated = true;
    })
unfolding summary summary_of
tenth_flagged = refl
