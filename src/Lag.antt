-- ===== src/Lag.antt =====
-- src/lag.rs: the lag of the generator's own wake-ups. Instants and durations are nanoseconds, and
-- an interval's index has 64 bits. The probe that sleeps and records is I/O.
pub mod Ranks
pub mod Totals
pub mod Summary
mod Runs
use wsblast.Common.{
  ℕ, suc, ◌+◌, ◌-◌, ◌*◌, ◌/◌, ◌%◌, ◌^◌, min, max, Bool, true, false, ◌&&◌, ◌||◌, Option, none, some,
  List, [], ◌∷◌, ◌++◌, length, get_or, ltb, leb, ◌==◌, if◌then◌else◌,
}

abbrev pub probe_period_us : ℕ
probe_period_us = 10000

abbrev pub interval_share_percent : ℕ
interval_share_percent = 10

abbrev pub min_late_in_run : ℕ
min_late_in_run = 3

abbrev pub min_late_in_interval : ℕ
min_late_in_interval = 2

-- hdrhistogram's `Histogram`: `record` and `add` leave it as it is where they fail.
pub record LagHistogram (H : Type 0) : Type 0 where
  pub new : Option H
  pub record_sample : H → ℕ → H
  pub add_all : H → H → H
  pub len : H → ℕ
  pub count_between : ℕ → ℕ → H → ℕ
  pub p50 : H → ℕ
  pub p99 : H → ℕ
  pub largest : H → ℕ

pub record IntervalLag : Type 0 where
  pub samples : ℕ
  pub p99_us : ℕ
  pub max_us : ℕ

pub record LagRecord (H : Type 0) : Type 0 where
  pub start : ℕ
  pub interval : ℕ
  pub hist : Option H
  pub intervals : List (ℕ × IntervalLag)
  pub intervals_over : ℕ
  pub current : List ℕ
  pub current_index : ℕ

-- `BTreeMap::insert`: the keys are in order, and a key has one value.
unfoldable pub insert : ℕ → IntervalLag → List (ℕ × IntervalLag) → List (ℕ × IntervalLag)
insert key value [] = (key, value) ∷ []
insert key value ((k, v) ∷ entries) =
    let rest = insert key value entries in
    if ltb key k
    then (key, value) ∷ ((k, v) ∷ entries)
    else if key == k
    then (key, value) ∷ entries
    else (k, v) ∷ rest

-- `sort_unstable`
unfoldable pub put : ℕ → List ℕ → List ℕ
put x [] = x ∷ []
put x (y ∷ ys) = let rest = put x ys in if leb x y then x ∷ (y ∷ ys) else y ∷ rest

unfoldable pub sort : List ℕ → List ℕ
unfolding put
sort [] = []
sort (x ∷ xs) = put x (sort xs)

unfoldable pub count : (ℕ → Bool) → List ℕ → ℕ
count test [] = 0
count test (x ∷ xs) = let rest = count test xs in if test x then suc rest else rest

-- The number of samples that 99 in 100 round up to.
abbrev pub p99_rank : ℕ → ℕ
p99_rank n = max ((n * 99 + 99) / 100) 1

unfoldable pub p99_of : List ℕ → ℕ
p99_of sorted = get_or sorted (p99_rank (length sorted) - 1) 0

unfoldable pub max_of : List ℕ → ℕ
max_of sorted = get_or sorted (length sorted - 1) 0

abbrev pub is_over : ℕ → List ℕ → Bool
is_over threshold sorted =
    ltb threshold (p99_of sorted)
    && leb min_late_in_interval (count (λ us. ltb threshold us) sorted)

-- `threshold` is the default threshold of the platform, in microseconds.
module _ {H : Type 0} (threshold : ℕ) where
  -- The interval's samples in order.
  unfoldable pub close_sorted : LagRecord H → List ℕ → LagRecord H
  close_sorted r sorted = record r {
    intervals_over = if is_over threshold sorted then r.intervals_over + 1 else r.intervals_over;
    intervals =
        insert r.current_index
          (record { samples = length sorted; p99_us = p99_of sorted; max_us = max_of sorted })
          r.intervals;
    current = [];
  }

  unfoldable pub close_samples : LagRecord H → List ℕ → LagRecord H
  unfolding close_sorted
  close_samples r [] = r
  close_samples r (x ∷ xs) = close_sorted r (sort (x ∷ xs))

  unfoldable pub close_interval : LagRecord H → LagRecord H
  close_interval r = close_samples r r.current

abbrev pub index_of_due : ℕ → ℕ → ℕ → ℕ
index_of_due start interval due = (due - start) / interval % 2 ^ 64

module _ {H : Type 0} (histogram : LagHistogram H) (threshold : ℕ) where
  unfoldable pub new_record : ℕ → ℕ → LagRecord H
  new_record start interval = record {
    start = start;
    interval = max interval 1000000;
    hist = histogram.new;
    intervals = [];
    intervals_over = 0;
    current = [];
    current_index = 0;
  }

  abbrev pub record_in : Option H → ℕ → Option H
  record_in none micros = none
  record_in (some h) micros = some (histogram.record_sample h micros)

  abbrev pub clamped_micros : ℕ → ℕ
  clamped_micros lag = max 1 (min (lag / 1000) 60000000)

  -- Closes the interval before a sample of another one.
  unfoldable pub move_to : ℕ → LagRecord H → LagRecord H
  move_to index r =
      if index == r.current_index
      then r
      else record (close_interval threshold r) { current_index = index }

  unfoldable pub push_sample : ℕ → LagRecord H → LagRecord H
  push_sample micros r = record r { current = r.current ++ (micros ∷ []) }

  unfoldable pub record_lag : LagRecord H → ℕ → ℕ → LagRecord H
  unfolding move_to push_sample
  record_lag r due lag =
      let micros = clamped_micros lag in
      push_sample micros (
        move_to (index_of_due r.start r.interval due) (record r { hist = record_in r.hist micros }))

  -- The probe's samples, each with the instant at which it was due and its lag.
  unfoldable pub record_all : LagRecord H → List (ℕ × ℕ) → LagRecord H
  unfolding record_lag
  record_all r [] = r
  record_all r ((due, lag) ∷ samples) = record_all (record_lag r due lag) samples
