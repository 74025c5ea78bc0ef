-- ===== src/Histogram/Recorded.antt =====
-- histogram.rs: a histogram gets the samples of the shards back.
use wsblast.Common.{
  ℕ, zero, suc, ◌+◌, ◌<◌, max, ◌≡◌, refl, sym, ap, ◌∙◌, ◌⊎◌, inl, inr, Bool, true, false,
  Bool-cases, none, some, List, [], ◌∷◌, All, get_or, ltb, ◌==◌, if◌then◌else◌, if_intro, arith,
}
use wsblast.Histogram.{
  Shard, InBounds, Reference, index_of, value_at, len, repeated, new_shards, get_or_init,
  record_samples, add_counts, add_to,
}
use wsblast.Histogram.Layout.{index_of-value_at, index_of-lt-len}
use wsblast.Histogram.Shards.{
  clamped, one_if, tally, counts_of, sum_at, Placed, IsShard, clamped_bounds, record_samples_total,
  length-repeated, empty-IsShard,
}

nothing_added : (n : ℕ) (b : Bool) → n ≡ n + (if b then 0 else 0)
nothing_added n true = omega arith
nothing_added n false = omega arith

-- Different counts have different lowest values.
value_at-test : (i j : ℕ) → i < len → j < len → (value_at i == value_at j) ≡ (i == j)
value_at-test i j h k = elim (Bool-cases (i == j)) [
  | inl t ↦
      let e : i ≡ j = ground arith in
      let same = ap value_at e in
      let yes_there : (value_at i == value_at j) ≡ true = ground arith in yes_there ∙ sym t
  | inr t ↦ elim (Bool-cases (value_at i == value_at j)) [
    | inl u ↦
        let same : value_at i ≡ value_at j = ground arith in
        let e : i ≡ j = sym (index_of-value_at i h) ∙ ap index_of same ∙ index_of-value_at j k in
        absurd (ground arith)
    | inr u ↦ u ∙ sym t
  ]
]

module _ {H : Type 0} (hdr : Reference H) where
  -- What a histogram is told when every sample is recorded in it directly.
  unfoldable pub record_directly : List (ℕ × ℕ) → H → H
  record_directly [] hist = hist
  record_directly ((shard, micros) ∷ samples) hist =
      record_directly samples (hdr.record_n hist (clamped micros) 1)

  same_lowest :
      (v at : ℕ)
      → InBounds v
      → InBounds at
      → (hdr.lowest_equivalent v == hdr.lowest_equivalent at) ≡ (index_of v == index_of at)
  same_lowest v at h k =
      rw (hdr.lowest_equivalent_lem v h, hdr.lowest_equivalent_lem at k)
        (value_at-test (index_of v) (index_of at) (index_of-lt-len v h.1) (index_of-lt-len at k.1))

  count_at-record_directly :
      (samples : List (ℕ × ℕ)) (hist : H) (at : ℕ)
      → InBounds at
      → hdr.count_at (record_directly samples hist) at
        ≡ hdr.count_at hist at + tally (index_of at) samples
  unfolding record_directly tally
  count_at-record_directly [] hist at h = omega arith
  count_at-record_directly ((shard, micros) ∷ samples) hist at h =
      let rest = count_at-record_directly samples (hdr.record_n hist (clamped micros) 1) at h in
      let first = hdr.count_at-record_n hist (clamped micros) 1 at (clamped_bounds micros) h in
      let test = same_lowest (clamped micros) at (clamped_bounds micros) h in
      omega (arith, rest, first, ap one_if test)

  -- One count of a shard.
  unfoldable added : ℕ → ℕ → H → H
  added index count hist = if ltb 0 count then hdr.record_n hist (value_at index) count else hist

  count_at-added :
      (index count : ℕ) (hist : H) (at : ℕ)
      → InBounds at
      → (count ≡ 0) ⊎ (InBounds (value_at index) × (index < len))
      → hdr.count_at (added index count hist) at
        ≡ hdr.count_at hist at + (if index == index_of at then count else 0)
  unfolding added
  count_at-added index count hist at h (inl e) =
      rw e (nothing_added (hdr.count_at hist at) (index == index_of at))
  count_at-added index count hist at h (inr (bounds, low)) =
      if_intro
        (λ (hist' : H).
          hdr.count_at hist' at
          ≡ hdr.count_at hist at + (if index == index_of at then count else 0))
        (ltb 0 count) _ _
        (λ t.
          hdr.count_at-record_n hist (value_at index) count at bounds h
          ∙ ap (λ b. hdr.count_at hist at + (if b then count else 0))
              (same_lowest (value_at index) at bounds h
                ∙ ap (λ i. i == index_of at) (index_of-value_at index low)))
        (λ t.
          let e : count ≡ 0 = ground arith in
          rw e (nothing_added (hdr.count_at hist at) (index == index_of at)))

  count_at-past :
      (index : ℕ) (counts : List ℕ) (hist : H) (at : ℕ)
      → InBounds at
      → Placed index counts
      → index_of at < index
      → hdr.count_at (add_counts hdr index counts hist) at ≡ hdr.count_at hist at
  unfolding add_counts Placed added
  count_at-past index [] hist at h p less = refl
  count_at-past index (count ∷ counts) hist at h (p, ps) less =
      let other : (index == index_of at) ≡ false = ground arith in
      count_at-past (suc index) counts (added index count hist) at h ps (omega arith)
      ∙ count_at-added index count hist at h p
      ∙ rw other (omega arith)

  count_at-add_counts :
      (index : ℕ) (counts : List ℕ) (hist : H) (at k : ℕ)
      → InBounds at
      → Placed index counts
      → index_of at ≡ index + k
      → hdr.count_at (add_counts hdr index counts hist) at
        ≡ hdr.count_at hist at + get_or counts k 0
  unfolding add_counts Placed added
  count_at-add_counts index [] hist at k h p e = omega arith
  count_at-add_counts index (count ∷ counts) hist at zero h (p, ps) e =
      let here : (index == index_of at) ≡ true = ground arith in
      count_at-past (suc index) counts (added index count hist) at h ps (omega arith)
      ∙ count_at-added index count hist at h p
      ∙ rw here refl
  count_at-add_counts index (count ∷ counts) hist at (suc k) h (p, ps) e =
      let other : (index == index_of at) ≡ false = ground arith in
      let not_here : hdr.count_at hist at + (if index == index_of at then count else 0)
          ≡ hdr.count_at hist at =
        rw other (omega arith) in
      count_at-add_counts (suc index) counts (added index count hist) at k h ps (omega arith)
      ∙ ap (λ n. n + get_or counts k 0) (count_at-added index count hist at h p ∙ not_here)
      ∙ omega arith

  Placed-counts_of : (shard : Shard) → IsShard shard → Placed 0 (counts_of shard)
  unfolding counts_of get_or_init Placed
  Placed-counts_of none h = tt
  Placed-counts_of (some counts) h = h.placed

  count_at-add_to :
      (shards : List Shard) (hist : H) (at : ℕ)
      → InBounds at
      → All IsShard shards
      → hdr.count_at (add_to hdr shards hist) at
        ≡ hdr.count_at hist at + sum_at (index_of at) shards
  unfolding add_to sum_at counts_of
  count_at-add_to [] hist at h k = omega arith
  count_at-add_to (none ∷ shards) hist at h (k, ks) =
      omega (arith, count_at-add_to shards hist at h ks)
  count_at-add_to (some counts ∷ shards) hist at h (k, ks) =
      let own =
        count_at-add_counts 0 counts hist at (index_of at) h (Placed-counts_of (some counts) k)
          (omega arith) in
      omega (arith, own, count_at-add_to shards (add_counts hdr 0 counts hist) at h ks)

  IsShard-repeated : (n : ℕ) → All IsShard (repeated n none)
  unfolding repeated
  IsShard-repeated zero = tt
  IsShard-repeated (suc n) = (empty-IsShard, IsShard-repeated n)

  sum_at-repeated : (j n : ℕ) → sum_at j (repeated n none) ≡ 0
  unfolding repeated sum_at counts_of
  sum_at-repeated j zero = refl
  sum_at-repeated j (suc n) = omega (arith, sum_at-repeated j n)

  -- Whatever the workers record, in any order and on any shards, recording succeeds, and adding the
  -- shards to a histogram gives a latency within the bounds the count that it has when the histogram
  -- records each of the samples itself.
  pub add_to-record_samples :
      (shards : ℕ) (samples : List (ℕ × ℕ)) (hist : H) (at : ℕ)
      → InBounds at
      → (recorded : List Shard) × (record_samples samples (new_shards shards) ≡ some recorded)
        × (hdr.count_at (add_to hdr recorded hist) at
            ≡ hdr.count_at (record_directly samples hist) at)
  unfolding new_shards
  add_to-record_samples shards samples hist at h =
      let n = max shards 1 in
      let (recorded, eq, good, sums) =
        record_samples_total samples (repeated n none)
          (omega (arith, length-repeated {A = Shard} none n)) (IsShard-repeated n) in
      (
        recorded,
        eq,
        count_at-add_to recorded hist at h good
            ∙ ap (λ m. hdr.count_at hist at + m)
                (sums (index_of at)
                  ∙ ap (λ z. z + tally (index_of at) samples) (sum_at-repeated (index_of at) n))
            ∙ omega (arith, count_at-record_directly samples hist at h),
      )
