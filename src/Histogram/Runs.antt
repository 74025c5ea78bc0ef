-- ===== src/Histogram/Runs.antt =====
-- histogram.rs at concrete samples.
use wsblast.Common.{ℕ, ◌+◌, ◌≡◌, refl, some, List, [], ◌∷◌, ◌==◌, if◌then◌else◌, arith}
use wsblast.Histogram.{
  Shard, Reference, bit_length, leading_zeros, bucket_of, index_of, value_at, new_shards,
  record_samples, add_to,
}
use wsblast.Histogram.Layout.{index_of-value_at}
use wsblast.Histogram.Recorded.{record_directly, add_to-record_samples}

highest_index : (index_of 1 ≡ 1) × (index_of 5000 ≡ 3298) × (value_at 3298 ≡ 5000)
unfolding index_of bucket_of leading_zeros bit_length value_at
highest_index = (refl, refl, refl)

index_of-value_at_example : index_of (value_at 3298) ≡ 3298
index_of-value_at_example = index_of-value_at 3298 (omega arith)

-- A histogram as the list of what it was told.
abbrev entries_at : List (ℕ × ℕ) → ℕ → ℕ
entries_at [] at = 0
entries_at ((value, n) ∷ entries) at =
    entries_at entries at + (if value_at (index_of value) == value_at (index_of at) then n else 0)

abbrev kept_entries : Reference (List (ℕ × ℕ))
kept_entries = record {
  record_n = λ entries value n. (value, n) ∷ entries;
  count_at = entries_at;
  lowest_equivalent = λ value. value_at (index_of value);
  lowest_equivalent_lem = λ value h. refl;
  count_at-record_n = λ entries value n at h k. refl;
}

-- Two workers on two shards, one sample above the bounds.
abbrev three_latencies : List (ℕ × ℕ)
three_latencies = (0, 1500) ∷ (1, 1500) ∷ (0, 70000000) ∷ []

add_to-record_samples_example :
    (recorded : List Shard) × (record_samples three_latencies (new_shards 2) ≡ some recorded)
    × (kept_entries.count_at (add_to kept_entries recorded []) 1500
        ≡ kept_entries.count_at (record_directly kept_entries three_latencies []) 1500)
add_to-record_samples_example =
    add_to-record_samples kept_entries 2 three_latencies [] 1500 (omega arith, omega arith)
