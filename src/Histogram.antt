-- ===== src/Histogram.antt =====
-- src/histogram.rs: the layout of the latency histograms, and the shards that workers record into.
-- A `None` of `record` is the panic of an index out of range; atomic counters are numbers, since
-- each of them is changed by one `fetch_add` at a time.
pub mod Layout
pub mod Shards
pub mod Recorded
mod Runs
use wsblast.Common.{
  Bytes, map, ℕ, zero, suc, ◌+◌, ◌-◌, ◌*◌, ◌/◌, ◌%◌, ◌^◌, ◌≤◌, min, max, bit_and, bit_or, ◌≡◌,
  Option, none, some, List, [], ◌∷◌, length, ltb, ◌==◌, if◌then◌else◌, ◌>>=◌, arith,
}

abbrev pub lowest_us : ℕ
lowest_us = 1

abbrev pub highest_us : ℕ
highest_us = 60000000

abbrev pub sub_bucket_half_count : ℕ
sub_bucket_half_count = 1024

abbrev pub sub_bucket_mask : ℕ
sub_bucket_mask = 2047

abbrev pub leading_zero_count_base : ℕ
leading_zero_count_base = 64 - 11

abbrev pub bucket_count : ℕ
bucket_count = 16

abbrev pub len : ℕ
len = (bucket_count + 1) * 1024

-- The digits of a number with at most `fuel` of them.
unfoldable pub bit_length : ℕ → ℕ → ℕ
bit_length zero value = 0
bit_length (suc fuel) value =
    let rest = bit_length fuel (value / 2) in if value == 0 then 0 else suc rest

-- `u64::leading_zeros`
unfoldable pub leading_zeros : ℕ → ℕ
leading_zeros value = 64 - bit_length 64 value

unfoldable pub bucket_of : ℕ → ℕ
bucket_of value = leading_zero_count_base - leading_zeros (bit_or value sub_bucket_mask)

unfoldable pub index_of : ℕ → ℕ
index_of value =
    let bucket = bucket_of value in
    let sub_bucket = value / 2 ^ bucket in (bucket + 1) * 1024 + sub_bucket - sub_bucket_half_count

unfoldable pub value_at : ℕ → ℕ
value_at index =
    let bucket = index / 1024 - 1 in
    let sub_bucket = bit_and index (sub_bucket_half_count - 1) + sub_bucket_half_count in
    let kept = if index / 1024 == 0 then sub_bucket - sub_bucket_half_count else sub_bucket in
    kept * 2 ^ bucket % 2 ^ 64

-- The counts of a shard, or nothing before its first value.
abbrev pub Shard : Type 0
Shard = Option (List ℕ)

unfoldable pub repeated {ℓ} : {A : Type ℓ} → ℕ → A → List A
repeated zero x = []
repeated (suc n) x = x ∷ repeated n x

unfoldable pub new_shards : ℕ → List Shard
unfolding repeated
new_shards shards = repeated (max shards 1) none

-- `get_or_init`
unfoldable pub get_or_init : Shard → List ℕ
unfolding repeated
get_or_init none = repeated len 0
get_or_init (some counts) = counts

-- `counts[index].fetch_add(1)`
unfoldable pub fetch_add_at : ℕ → List ℕ → Option (List ℕ)
fetch_add_at index [] = none
fetch_add_at zero (c ∷ counts) = some ((c + 1) ∷ counts)
fetch_add_at (suc index) (c ∷ counts) = do rest ← fetch_add_at index counts; some (c ∷ rest)

-- `counts` of the shard at an index.
unfoldable pub record_at : ℕ → ℕ → List Shard → Option (List Shard)
unfolding get_or_init fetch_add_at
record_at index micros [] = none
record_at zero micros (shard ∷ shards) = do
  counts ← fetch_add_at (index_of (max lowest_us (min micros highest_us))) (get_or_init shard)
  some (some counts ∷ shards)
record_at (suc index) micros (shard ∷ shards) = do
  rest ← record_at index micros shards
  some (shard ∷ rest)

unfoldable pub record_sample : ℕ → ℕ → List Shard → Option (List Shard)
unfolding record_at
record_sample shard micros [] = none
record_sample shard micros (first ∷ shards) =
    record_at (shard % length (first ∷ shards)) micros (first ∷ shards)

-- What the workers record in some order: the shard of the worker and its latency.
unfoldable pub record_samples : List (ℕ × ℕ) → List Shard → Option (List Shard)
unfolding record_sample
record_samples [] shards = some shards
record_samples ((shard, micros) ∷ samples) shards = do
  next ← record_sample shard micros shards
  record_samples samples next

abbrev pub InBounds : ℕ → Type 0
InBounds value = (lowest_us ≤ value) × (value ≤ highest_us)

-- hdrhistogram's `Histogram` with the bounds of the latency histograms: what `record_n` counts of
-- a value and of those that are equivalent to it.
pub record Reference (H : Type 0) : Type 0 where
  pub record_n : H → ℕ → ℕ → H
  pub count_at : H → ℕ → ℕ
  pub lowest_equivalent : ℕ → ℕ
  pub lowest_equivalent_lem :
      (value : ℕ) → InBounds value → lowest_equivalent value ≡ value_at (index_of value)
  pub count_at-record_n :
      (h : H) (value n at : ℕ)
      → InBounds value
      → InBounds at
      → count_at (record_n h value n) at
        ≡ count_at h at + (if lowest_equivalent value == lowest_equivalent at then n else 0)

module _ {H : Type 0} (hdr : Reference H) where
  -- From the count at `index` on.
  unfoldable pub add_counts : ℕ → List ℕ → H → H
  add_counts index [] hist = hist
  add_counts index (count ∷ counts) hist =
      add_counts (suc index) counts
        (if ltb 0 count then hdr.record_n hist (value_at index) count else hist)

  unfoldable pub add_to : List Shard → H → H
  unfolding add_counts
  add_to [] hist = hist
  add_to (none ∷ shards) hist = add_to shards hist
  add_to (some counts ∷ shards) hist = add_to shards (add_counts 0 counts hist)

-- The distributions of one action name.
pub record ActionLatency : Type 0 where
  pub name : Bytes
  pub rtt : List Shard
  pub response : List Shard

pub record LatencyRecorder : Type 0 where
  pub handshake : List Shard
  pub rtt : List Shard
  pub response : List Shard
  pub actions : List ActionLatency

unfoldable pub with_shards : ℕ → LatencyRecorder
with_shards shards = record {
  handshake = new_shards shards;
  rtt = new_shards shards;
  response = new_shards shards;
  actions = [];
}

unfoldable pub with_actions : LatencyRecorder → List Bytes → LatencyRecorder
with_actions r names =
    let shards = length r.rtt in
    record r {
      actions =
          map
            (λ name. record { name = name; rtt = new_shards shards; response = new_shards shards })
            names;
    }

unfoldable pub record_handshake : ℕ → ℕ → LatencyRecorder → Option LatencyRecorder
record_handshake shard micros r = do
  handshake ← record_sample shard micros r.handshake
  some (record r { handshake = handshake })

unfoldable pub record_rtt : ℕ → ℕ → LatencyRecorder → Option LatencyRecorder
record_rtt shard micros r = do rtt ← record_sample shard micros r.rtt; some (record r { rtt = rtt })

unfoldable pub record_response : ℕ → ℕ → LatencyRecorder → Option LatencyRecorder
record_response shard micros r = do
  response ← record_sample shard micros r.response
  some (record r { response = response })
