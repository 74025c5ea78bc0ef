-- ===== src/Lag/Totals.antt =====
-- lag.rs: every sample is counted in one interval.
use wsblast.Common.{
  false, ℕ, suc, ◌+◌, ◌≤◌, ◌<◌, max, ◌≡◌, refl, sym, ap, subst, ◌∙◌, if_intro, List, [], ◌∷◌, All,
  length, length-append, ltb, ◌==◌, arith,
}
use wsblast.Lag.{
  LagHistogram, LagRecord, IntervalLag, insert, sort, close_sorted, close_samples, close_interval,
  index_of_due, new_record, record_in, clamped_micros, move_to, push_sample, record_lag, record_all,
}
use wsblast.Lag.Ranks.{length-sort}

unfoldable pub total : List (ℕ × IntervalLag) → ℕ
total [] = 0
total ((key, lag) ∷ entries) = lag.samples + total entries

Below : ℕ → List (ℕ × IntervalLag) → Type 0
Below k entries = All (λ e. e.0 < k) entries

total-insert :
    (k : ℕ) (v : IntervalLag) (entries : List (ℕ × IntervalLag))
    → Below k entries
    → total (insert k v entries) ≡ total entries + v.samples
unfolding insert total Below
total-insert k v [] h = omega arith
total-insert k v ((j, w) ∷ entries) (h, t) =
    let smaller : ltb k j ≡ false = ground arith in
    let other : (k == j) ≡ false = ground arith in
    rw (smaller, other) (omega (arith, total-insert k v entries t))

insert-Below :
    (k : ℕ) (v : IntervalLag) (entries : List (ℕ × IntervalLag))
    → Below k entries
    → Below (suc k) (insert k v entries)
unfolding insert Below
insert-Below k v [] h = (omega arith, tt)
insert-Below k v ((j, w) ∷ entries) (h, t) =
    let smaller : ltb k j ≡ false = ground arith in
    let other : (k == j) ≡ false = ground arith in
    rw (smaller, other) (omega arith, insert-Below k v entries t)

Below-le : (j k : ℕ) (entries : List (ℕ × IntervalLag)) → j ≤ k → Below j entries → Below k entries
unfolding Below
Below-le j k [] le h = tt
Below-le j k (e ∷ entries) le (h, t) = (omega arith, Below-le j k entries le t)

module _ {H : Type 0} where
  -- A record of a probe with `n` samples so far, none of them in the interval in progress or a later
  -- one unless it is among the current ones.
  record Counted (start interval n : ℕ) (r : LagRecord H) : Type 0 where
    starts : r.start ≡ start
    steps : r.interval ≡ interval
    below : Below r.current_index r.intervals
    counts : total r.intervals + length r.current ≡ n

  record Closed (start interval index n : ℕ) (r : LagRecord H) : Type 0 where
    starts : r.start ≡ start
    steps : r.interval ≡ interval
    below : Below (suc index) r.intervals
    counts : total r.intervals ≡ n
    empties : r.current ≡ []

  counts_none :
      (r : LagRecord H) (n : ℕ)
      → r.current ≡ []
      → total r.intervals + length r.current ≡ n
      → total r.intervals ≡ n
  counts_none r n e h = let nothing : length r.current ≡ 0 = ap length e in omega arith

  counts_all :
      (r : LagRecord H) (n x : ℕ) (xs : List ℕ) (v : IntervalLag)
      → r.current ≡ x ∷ xs
      → Below r.current_index r.intervals
      → total r.intervals + length r.current ≡ n
      → v.samples ≡ length (sort (x ∷ xs))
      → total (insert r.current_index v r.intervals) ≡ n
  counts_all r n x xs v e below h own =
      let same : length r.current ≡ suc (length xs) = ap length e in
      omega (arith, total-insert r.current_index v r.intervals below, length-sort (x ∷ xs))

  after_closing :
      (r : LagRecord H) (n : ℕ)
      → total r.intervals ≡ n
      → r.current ≡ []
      → total r.intervals + length r.current ≡ n
  after_closing r n h e = let nothing : length r.current ≡ 0 = ap length e in omega arith

  close_samples-Closed :
      (threshold start interval n : ℕ) (r : LagRecord H) (current : List ℕ)
      → r.current ≡ current
      → Counted start interval n r
      → Closed start interval r.current_index n (close_samples threshold r current)
  unfolding close_samples close_sorted
  close_samples-Closed threshold start interval n r [] e h = record {
    starts = h.starts;
    steps = h.steps;
    below = Below-le r.current_index (suc r.current_index) r.intervals (omega arith) h.below;
    counts = counts_none r n e h.counts;
    empties = e;
  }
  close_samples-Closed threshold start interval n r (x ∷ xs) e h = record {
    starts = h.starts;
    steps = h.steps;
    below = insert-Below r.current_index _ r.intervals h.below;
    counts = counts_all r n x xs _ e h.below h.counts refl;
    empties = refl;
  }

module _ {H : Type 0} (histogram : LagHistogram H) (threshold : ℕ) where
  move_to-Counted :
      (start interval n index : ℕ) (r : LagRecord H)
      → r.current_index ≤ index
      → Counted start interval n r
      → Counted start interval n (move_to histogram threshold index r)
        × ((move_to histogram threshold index r).current_index ≡ index)
  unfolding move_to close_interval
  move_to-Counted start interval n index r le h =
      if_intro (λ (r' : LagRecord H). Counted start interval n r' × (r'.current_index ≡ index))
        (index == r.current_index) _ _ (λ same. (h, ground arith))
        (λ other.
          let closed = close_samples-Closed threshold start interval n r r.current refl h in
          (
            record {
              starts = closed.starts;
              steps = closed.steps;
              below =
                  Below-le (suc r.current_index) index
                    (close_samples threshold r r.current).intervals (ground arith) closed.below;
              counts =
                  after_closing (close_samples threshold r r.current) n closed.counts
                    closed.empties;
            },
            refl,
          ))

  push-Counted :
      (start interval n micros : ℕ) (r : LagRecord H)
      → Counted start interval n r
      → Counted start interval (suc n) (push_sample histogram threshold micros r)
  unfolding push_sample
  push-Counted start interval n micros r h = record {
    starts = h.starts;
    steps = h.steps;
    below = h.below;
    counts = omega (arith, h.counts, length-append r.current (micros ∷ []));
  }

  -- The instants at which the samples were due come interval by interval.
  abbrev pub InOrder : ℕ → ℕ → ℕ → List (ℕ × ℕ) → Type 0
  InOrder start interval low [] = Unit {0}
  InOrder start interval low ((due, lag) ∷ samples) =
      (low ≤ index_of_due start interval due)
      × InOrder start interval (index_of_due start interval due) samples

  due_index :
      (start interval n due : ℕ) (r : LagRecord H)
      → Counted start interval n r
      → index_of_due r.start r.interval due ≡ index_of_due start interval due
  due_index start interval n due r h =
      ap (λ s. index_of_due s r.interval due) h.starts ∙ ap (λ i. index_of_due start i due) h.steps

  record_lag-Counted :
      (start interval n due lag : ℕ) (r : LagRecord H)
      → Counted start interval n r
      → r.current_index ≤ index_of_due start interval due
      → Counted start interval (suc n) (record_lag histogram threshold r due lag)
        × ((record_lag histogram threshold r due lag).current_index
            ≡ index_of_due start interval due)
  unfolding record_lag push_sample
  record_lag-Counted start interval n due lag r h le =
      let index = index_of_due r.start r.interval due in
      let hist = record_in histogram threshold r.hist (clamped_micros histogram threshold lag) in
      let same = due_index start interval n due r h in
      let (moved, here) =
        move_to-Counted start interval n index (record r { hist = hist }) (omega arith)
          (record { starts = h.starts; steps = h.steps; below = h.below; counts = h.counts }) in
      (push-Counted start interval n (clamped_micros histogram threshold lag) _ moved, here ∙ same)

  record_all-Counted :
      (start interval n : ℕ) (samples : List (ℕ × ℕ)) (r : LagRecord H)
      → Counted start interval n r
      → InOrder start interval r.current_index samples
      → Counted start interval (n + length samples) (record_all histogram threshold r samples)
  unfolding record_all
  record_all-Counted start interval n [] r h rise =
      subst (λ m. Counted start interval m r) (omega arith) h
  record_all-Counted start interval n ((due, lag) ∷ samples) r h (le, rise) =
      let (counted, here) = record_lag-Counted start interval n due lag r h le in
      subst
        (λ m.
          Counted start interval m
            (record_all histogram threshold (record_lag histogram threshold r due lag) samples))
        (omega arith)
        (record_all-Counted start interval (suc n) samples
          (record_lag histogram threshold r due lag) counted
          (subst (λ low. InOrder start interval low samples) (sym here) rise))

  -- When the probe stops and closes the last interval, the samples of the intervals add up to the
  -- samples that were recorded, provided that they were due interval by interval.
  pub total-record_all :
      (start interval : ℕ) (samples : List (ℕ × ℕ))
      → InOrder start (max interval 1000000) 0 samples
      → total
          (close_interval threshold (
            record_all histogram threshold
              (new_record histogram threshold start interval)
              samples)).intervals
        ≡ length samples
  unfolding close_interval new_record Below total
  total-record_all start interval samples rise =
      let r =
        record_all histogram threshold (new_record histogram threshold start interval) samples in
      let counted =
        record_all-Counted start (max interval 1000000) 0 samples
          (new_record histogram threshold start interval)
          (record { starts = refl; steps = refl; below = tt; counts = refl }) rise in
      let closed =
        close_samples-Closed threshold start (max interval 1000000) (0 + length samples) r r.current
          refl counted in
      closed.counts ∙ omega arith
