-- ===== src/Histogram/Shards.antt =====
-- histogram.rs: the shards count every sample once.
use wsblast.Common.{
  ℕ, zero, suc, ◌+◌, ◌%◌, ◌<◌, min, max, ◌≡◌, refl, ap, subst, ◌∙◌, ◌⊎◌, inl, inr, Bool, none, some,
  List, [], ◌∷◌, All, length, get_or, ◌==◌, if◌then◌else◌, arith,
}
use native.Mathlib.Nat.{mod-lt}
use wsblast.Histogram.{
  Shard, InBounds, index_of, value_at, len, highest_us, lowest_us, repeated, get_or_init,
  fetch_add_at, record_at, record_sample, record_samples,
}
use wsblast.Histogram.Layout.{index_of-lt-len, value_at-index_of}

-- The latency that is counted for a sample.
abbrev pub clamped : ℕ → ℕ
clamped micros = max lowest_us (min micros highest_us)

abbrev pub one_if : Bool → ℕ
one_if test = if test then 1 else 0

-- The samples of the list that are counted at `index`.
unfoldable pub tally : ℕ → List (ℕ × ℕ) → ℕ
tally index [] = 0
tally index ((shard, micros) ∷ samples) =
    one_if (index_of (clamped micros) == index) + tally index samples

unfoldable pub counts_of : Shard → List ℕ
counts_of none = []
counts_of (some counts) = counts

unfoldable pub sum_at : ℕ → List Shard → ℕ
unfolding counts_of
sum_at index [] = 0
sum_at index (shard ∷ shards) = get_or (counts_of shard) index 0 + sum_at index shards

-- A shard's counts, each at its place, and only where a latency within the bounds is counted.
unfoldable pub Placed : ℕ → List ℕ → Type 0
Placed index [] = Unit {0}
Placed index (count ∷ counts) =
    ((count ≡ 0) ⊎ (InBounds (value_at index) × (index < len))) × Placed (suc index) counts

pub record IsShard (shard : Shard) : Type 0 where
  pub full : length (get_or_init shard) ≡ len
  pub placed : Placed 0 (get_or_init shard)

same_test : (a b : ℕ) → (a == b) ≡ (suc a == suc b)
same_test a b = ground arith

first_added :
    (c : ℕ) (counts : List ℕ) (j : ℕ)
    → get_or ((c + 1) ∷ counts) j 0 ≡ get_or (c ∷ counts) j 0 + one_if (0 == j)
first_added c counts zero = omega arith
first_added c counts (suc j) = ground arith

later_added :
    (at c : ℕ) (counts counts' : List ℕ)
    → ((j : ℕ) → get_or counts' j 0 ≡ get_or counts j 0 + one_if (at == j))
    → (j : ℕ) → get_or (c ∷ counts') j 0 ≡ get_or (c ∷ counts) j 0 + one_if (suc at == j)
later_added at c counts counts' h zero = ground arith
later_added at c counts counts' h (suc j) =
    h j ∙ ap (λ b. get_or counts j 0 + one_if b) (same_test at j)

fetch_add_at_total :
    (at : ℕ) (counts : List ℕ)
    → at < length counts
    → (counts' : List ℕ) × (fetch_add_at at counts ≡ some counts')
      × (length counts' ≡ length counts)
      × ((j : ℕ) → get_or counts' j 0 ≡ get_or counts j 0 + one_if (at == j))
      × ((k : ℕ) → InBounds (value_at (k + at)) → k + at < len → Placed k counts → Placed k counts')
unfolding fetch_add_at Placed
fetch_add_at_total at [] h = absurd (omega arith)
fetch_add_at_total zero (c ∷ counts) h = (
  (c + 1) ∷ counts,
  refl,
  refl,
  first_added c counts,
  λ k bounds low (p, ps).
      (inr (subst (λ n. InBounds (value_at n)) (omega arith) bounds, omega arith), ps),
)
fetch_add_at_total (suc at) (c ∷ counts) h =
    let (counts', eq, same, others, stays) = fetch_add_at_total at counts (omega arith) in
    (
      c ∷ counts',
      rw eq,
      ap suc same,
      later_added at c counts counts' others,
      λ k bounds low (p, ps). (
        p,
        stays (suc k) (subst (λ n. InBounds (value_at n)) (omega arith) bounds) (omega arith) ps,
      ),
    )

get_or-repeated : (n j : ℕ) → get_or {A = ℕ} (repeated n 0) j 0 ≡ 0
unfolding repeated
get_or-repeated zero j = refl
get_or-repeated (suc n) zero = refl
get_or-repeated (suc n) (suc j) = get_or-repeated n j

-- A shard that is set up counts what it counted.
get_or_init-same :
    (shard : Shard) (j : ℕ) → get_or (get_or_init shard) j 0 ≡ get_or (counts_of shard) j 0
unfolding get_or_init counts_of
get_or_init-same none j = get_or-repeated len j
get_or_init-same (some counts) j = refl

pub clamped_bounds : (micros : ℕ) → InBounds (clamped micros)
clamped_bounds micros = (omega arith, omega arith)

-- The lowest value of a count in use is within the bounds.
lowest-InBounds : (v : ℕ) → InBounds v → InBounds (value_at (index_of v))
lowest-InBounds v (low, high) =
    let (le, near) = value_at-index_of v high in (omega arith, omega arith)

pub length-repeated {ℓ} : {A : Type ℓ} (x : A) (n : ℕ) → length (repeated n x) ≡ n
unfolding repeated
length-repeated x zero = refl
length-repeated x (suc n) = ap suc (length-repeated x n)

Placed-repeated : (k n : ℕ) → Placed k (repeated n 0)
unfolding repeated Placed
Placed-repeated k zero = tt
Placed-repeated k (suc n) = (inl refl, Placed-repeated (suc k) n)

pub empty-IsShard : IsShard none
unfolding get_or_init
empty-IsShard = record { full = length-repeated {A = ℕ} 0 len; placed = Placed-repeated 0 len }

-- What recording does to the shard at an index of the list.
record_at_total :
    (index micros : ℕ) (shards : List Shard)
    → index < length shards
    → All IsShard shards
    → (shards' : List Shard) × (record_at index micros shards ≡ some shards')
      × All IsShard shards'
      × ((j : ℕ) → sum_at j shards' ≡ sum_at j shards + one_if (index_of (clamped micros) == j))
      × (length shards' ≡ length shards)
unfolding record_at sum_at
record_at_total index micros [] h k = absurd (omega arith)
record_at_total zero micros (shard ∷ shards) h (own, others) =
    let v = clamped micros in
    let bounds = clamped_bounds micros in
    let inside = index_of-lt-len v bounds.1 in
    let low : 0 + index_of v < len = omega (arith, inside) in
    let here : InBounds (value_at (0 + index_of v)) =
      subst (λ n. InBounds (value_at n)) (omega arith) (lowest-InBounds v bounds) in
    let (counts', eq, same, added, stays) =
      fetch_add_at_total (index_of v) (get_or_init shard) (omega (arith, own.full)) in
    (
      some counts' ∷ shards,
      rw eq,
      (record { full = same ∙ own.full; placed = stays 0 here low own.placed }, others),
      λ j. omega (arith, added j, get_or_init-same shard j),
      refl,
    )
record_at_total (suc index) micros (shard ∷ shards) h (own, others) =
    let (shards', eq, good, sums, same) =
      record_at_total index micros shards (omega arith) others in
    (shard ∷ shards', rw eq, (own, good), λ j. omega (arith, sums j), ap suc same)

record_sample_total :
    (shard micros : ℕ) (shards : List Shard)
    → 0 < length shards
    → All IsShard shards
    → (shards' : List Shard) × (record_sample shard micros shards ≡ some shards')
      × All IsShard shards'
      × ((j : ℕ) → sum_at j shards' ≡ sum_at j shards + one_if (index_of (clamped micros) == j))
      × (length shards' ≡ length shards)
unfolding record_sample
record_sample_total shard micros [] h k = absurd (omega arith)
record_sample_total shard micros (first ∷ shards) h k =
    record_at_total (shard % length (first ∷ shards)) micros (first ∷ shards)
      (mod-lt shard {m = length (first ∷ shards)} (omega arith)) k

-- Recording never fails, whatever worker records what: every sample is counted once.
pub record_samples_total :
    (samples : List (ℕ × ℕ)) (shards : List Shard)
    → 0 < length shards
    → All IsShard shards
    → (shards' : List Shard) × (record_samples samples shards ≡ some shards')
      × All IsShard shards'
      × ((j : ℕ) → sum_at j shards' ≡ sum_at j shards + tally j samples)
unfolding record_samples tally
record_samples_total [] shards h k = (shards, refl, k, λ j. omega arith)
record_samples_total ((shard, micros) ∷ samples) shards h k =
    let (next, eq, good, sums, same) = record_sample_total shard micros shards h k in
    let (shards', eq', good', sums') = record_samples_total samples next (omega arith) good in
    (shards', rw eq eq', good', λ j. omega (arith, sums j, sums' j))
