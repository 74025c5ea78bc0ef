-- ===== src/Histogram/Layout.antt =====
-- histogram.rs: which value an index stands for.
use wsblast.Common.{
  ℕ, zero, suc, ◌+◌, ◌-◌, ◌*◌, ◌/◌, ◌%◌, ◌^◌, ◌≤◌, ◌<◌, bit_and, bit_or, ◌≡◌, refl, sym, ap, ◌∙◌,
  ◌⊎◌, inl, inr, subst, false, Bool-cases, leb, leb→le, ltb, ltb→lt, ◌==◌, if_intro, arith,
}
use native.Mathlib.Nat.{
  pow-suc, one-le-pow, pow-le-pow_right, mul-le-mul, mul-le-mul_right, mod-lt, div-add-mod',
  div-lt_iff_lt-mul, le-div_iff_mul-le, mul-div_cancel,
}
use wsblast.Common.Bits.{bit_or_mask, bit_and_mask}
use wsblast.Histogram.{bit_length, leading_zeros, bucket_of, index_of, value_at, len, highest_us}

-- A number with `k` digits is at least half of `2 ^ k`, and below it.
Digits : ℕ → ℕ → Type 0
Digits v k = (v < 2 ^ k) × (0 < v → 2 ^ k ≤ 2 * v) × (v ≡ 0 → k ≡ 0)

Digits-suc : (v k : ℕ) → 0 < v → Digits (v / 2) k → Digits v (suc k)
unfolding Digits
Digits-suc v zero p (below, half, none) = (omega arith, λ q. omega arith, λ q. absurd (omega arith))
Digits-suc v (suc k) p (below, half, none) =
    let positive : 0 < v / 2 = ground arith in
    (
      omega (arith, pow-suc 2 (suc k)),
      λ q. omega (arith, pow-suc 2 (suc k), half positive),
      λ q. absurd (omega arith),
    )

bit_length-Digits : (fuel v : ℕ) → v < 2 ^ fuel → Digits v (bit_length fuel v)
unfolding bit_length Digits
bit_length-Digits zero v h = (h, λ p. absurd (omega arith), λ p. refl)
bit_length-Digits (suc fuel) v h =
    let rest = bit_length-Digits fuel (v / 2) (omega (arith, pow-suc 2 fuel)) in
    if_intro (λ n. Digits v n) (v == 0) 0 (suc (bit_length fuel (v / 2)))
      (λ test. let e : v ≡ 0 = ground arith in (omega arith, λ p. absurd (omega arith), λ p. refl))
      (λ test. Digits-suc v (bit_length fuel (v / 2)) (ground arith) rest)

-- The mask sets the low eleven bits.
masked : (v : ℕ) → bit_or v 2047 ≡ v / 2048 * 2048 + 2047
masked v = bit_or_mask 11 v

-- A value of the first bucket, or one that has `b` digits more than a half bucket's.
BucketOf : ℕ → ℕ → Type 0
BucketOf v b = (v < 2048 * 2 ^ b) × ((b ≡ 0) ⊎ (1024 * 2 ^ b ≤ v))

double_pow : (j : ℕ) → 2 ^ suc j ≡ 2 * 2 ^ j
double_pow j = omega (arith, pow-suc 2 j)

eleven_more : (j : ℕ) → 2 ^ (11 + j) ≡ 2048 * 2 ^ j
eleven_more zero = refl
eleven_more (suc j) =
    let shift : 11 + suc j ≡ suc (11 + j) = omega arith in
    ap (λ (n : ℕ). 2 ^ n) shift ∙ omega (arith, eleven_more j, pow-suc 2 (11 + j), double_pow j)

Digits-BucketOf : (v j : ℕ) → Digits (v / 2048 * 2048 + 2047) (11 + j) → BucketOf v j
unfolding Digits BucketOf
Digits-BucketOf v zero (below, half, none) = (omega (arith, below), inl refl)
Digits-BucketOf v (suc j) (below, half, none) = (
  omega (arith, below, eleven_more (suc j)),
  inr (omega (arith, below, half (omega arith), eleven_more (suc j), double_pow j)),
)

Digits-ge : (v k : ℕ) → Digits (v / 2048 * 2048 + 2047) k → 11 ≤ k
unfolding Digits
Digits-ge v k (below, half, none) = elim (Bool-cases (leb 11 k)) [
  | inl h ↦ leb→le 11 k h
  | inr h ↦
      let low : k ≤ 10 = ground arith in
      absurd (omega (arith, below, pow-le-pow_right {n = 2} (omega arith) {i = k} {j = 10} low))
]

bit_length-le : (fuel v : ℕ) → bit_length fuel v ≤ fuel
unfolding bit_length
bit_length-le zero v = omega arith
bit_length-le (suc fuel) v =
    if_intro (λ n. n ≤ suc fuel) (v == 0) 0 (suc (bit_length fuel (v / 2))) (λ t. omega arith)
      (λ t. omega (arith, bit_length-le fuel (v / 2)))

masked_bound : (v : ℕ) → v < 2 ^ 64 → v / 2048 * 2048 + 2047 < 2 ^ 64
masked_bound v h = omega arith

eleven_less : (v k : ℕ) → Digits (v / 2048 * 2048 + 2047) k → k ≤ 64 → BucketOf v (53 - (64 - k))
eleven_less v k d h =
    let low = Digits-ge v k d in
    let at : k ≡ 11 + (k - 11) = omega arith in
    let found = Digits-BucketOf v (k - 11) (subst (Digits (v / 2048 * 2048 + 2047)) at d) in
    subst (BucketOf v) (omega arith) found

bucket_of-BucketOf : (v : ℕ) → v < 2 ^ 64 → BucketOf v (bucket_of v)
unfolding bucket_of leading_zeros
bucket_of-BucketOf v h =
    let d = bit_length-Digits 64 (v / 2048 * 2048 + 2047) (masked_bound v h) in
    subst (λ m. BucketOf v (53 - (64 - bit_length 64 m))) (sym (masked v))
      (eleven_less v (bit_length 64 (v / 2048 * 2048 + 2047)) d
        (bit_length-le 64 (v / 2048 * 2048 + 2047)))

-- An index, where the bucket is known.
index_of-bucket : (v : ℕ) → index_of v ≡ bucket_of v * 1024 + v / 2 ^ bucket_of v
unfolding index_of
index_of-bucket v = omega arith

low_digits : (i : ℕ) → bit_and i 1023 ≡ i % 1024
low_digits i = bit_and_mask 10 i

value_at-first : (i : ℕ) → i < 2048 → value_at i ≡ i
unfolding value_at
value_at-first i h =
    let zeroth : i / 1024 - 1 ≡ 0 = omega arith in
    rw (low_digits i, zeroth)
      (if_intro (λ (kept : ℕ). kept * 1 % 2 ^ 64 ≡ i) (i / 1024 == 0) _ _ (λ t. ground arith)
        (λ t. ground arith))

small_product : (b s : ℕ) → b < 16 → s < 2048 → s * 2 ^ b < 2 ^ 64
small_product b s h high =
    let bound : 2 ^ b ≤ 2 ^ 15 =
      pow-le-pow_right {n = 2} (omega arith) {i = b} {j = 15} (omega arith) in
    grind (arith, mul-le-mul)

value_at-later : (b s : ℕ) → b < 16 → 1024 ≤ s → s < 2048 → value_at (b * 1024 + s) ≡ s * 2 ^ b
unfolding value_at
value_at-later b s h low high =
    let bucket : (b * 1024 + s) / 1024 - 1 ≡ b = omega arith in
    let sub : bit_and (b * 1024 + s) 1023 + 1024 ≡ s = omega (arith, low_digits (b * 1024 + s)) in
    let other : ((b * 1024 + s) / 1024 == 0) ≡ false = ground arith in
    rw (other, sub, bucket) (omega (arith, small_product b s h high))

bucket_le : (v b c : ℕ) → BucketOf v b → BucketOf v c → b ≤ c
unfolding BucketOf
bucket_le v b c (high, inl e) (high', low') = omega arith
bucket_le v b c (high, inr low) (high', low') = elim (Bool-cases (leb b c)) [
  | inl h ↦ leb→le b c h
  | inr h ↦
      let less : suc c ≤ b = ground arith in
      let more : 2 ^ suc c ≤ 2 ^ b =
        pow-le-pow_right {n = 2} (omega arith) {i = suc c} {j = b} less in
      absurd (omega (arith, more, double_pow c))
]

bucket_unique : (v b c : ℕ) → BucketOf v b → BucketOf v c → b ≡ c
bucket_unique v b c h k = omega (arith, bucket_le v b c h k, bucket_le v c b k h)

bucket_small : (v b : ℕ) → v ≤ highest_us → BucketOf v b → b < 16
unfolding BucketOf
bucket_small v b h (high, inl e) = omega arith
bucket_small v b h (high, inr low) = elim (Bool-cases (ltb b 16)) [
  | inl t ↦ ltb→lt b 16 t
  | inr t ↦
      let more : 2 ^ 16 ≤ 2 ^ b =
        pow-le-pow_right {n = 2} (omega arith) {i = 16} {j = b} (ground arith) in
      absurd (omega (arith, more))
]

-- The sub-bucket of a value, by its bucket.
quotient_bounds : (v b : ℕ) → BucketOf v b → (v / 2 ^ b < 2048) × ((b ≡ 0) ⊎ (1024 ≤ v / 2 ^ b))
unfolding BucketOf
quotient_bounds v b (high, low) =
    let positive : 0 < 2 ^ b = one-le-pow b 2 (omega arith) in
    (
      (div-lt_iff_lt-mul {k = 2 ^ b} {x = v} {y = 2048} positive).1 high,
      elim low [
        | inl e ↦ inl e
        | inr le ↦ inr ((le-div_iff_mul-le {k = 2 ^ b} {x = 1024} {y = v} positive).1 le)
      ],
    )

value_at-index :
    (b s : ℕ) → b < 16 → s < 2048 → (b ≡ 0) ⊎ (1024 ≤ s) → value_at (b * 1024 + s) ≡ s * 2 ^ b
value_at-index b s h high (inl e) =
    let plain : 0 * 1024 + s ≡ s = omega arith in
    let once : s ≡ s * 2 ^ 0 = omega arith in
    rw e (ap value_at plain ∙ value_at-first s high ∙ once)
value_at-index b s h high (inr low) = value_at-later b s h low high

BucketOf-product : (b s : ℕ) → s < 2048 → (b ≡ 0) ⊎ (1024 ≤ s) → BucketOf (s * 2 ^ b) b
unfolding BucketOf
BucketOf-product b s high low =
    let positive : 0 < 2 ^ b = one-le-pow b 2 (omega arith) in
    (
      (div-lt_iff_lt-mul {k = 2 ^ b} {x = s * 2 ^ b} {y = 2048} positive).0
          (subst (λ q. q < 2048) (sym (mul-div_cancel s positive)) high),
      elim low [ inl e ↦ inl e | inr le ↦ inr (mul-le-mul_right (2 ^ b) le) ],
    )

index_of-product :
    (b s : ℕ) → b < 16 → s < 2048 → (b ≡ 0) ⊎ (1024 ≤ s) → index_of (s * 2 ^ b) ≡ b * 1024 + s
index_of-product b s h high low =
    let found = bucket_of-BucketOf (s * 2 ^ b) (small_product b s h high) in
    let same = bucket_unique (s * 2 ^ b) _ b found (BucketOf-product b s high low) in
    let positive : 0 < 2 ^ b = one-le-pow b 2 (omega arith) in
    index_of-bucket (s * 2 ^ b) ∙ rw same (ap (λ (q : ℕ). b * 1024 + q) (mul-div_cancel s positive))

first_again : (i : ℕ) → i < 2048 → index_of (value_at i) ≡ i
first_again i h =
    let once : i ≡ i * 2 ^ 0 = omega arith in
    ap index_of (value_at-first i h ∙ once)
    ∙ index_of-product 0 i (omega arith) h (inl refl)
    ∙ omega arith

later_again : (i : ℕ) → i < len → 2048 ≤ i → index_of (value_at i) ≡ i
later_again i h low =
    let b = i / 1024 - 1 in
    let s = i % 1024 + 1024 in
    let parts : i ≡ b * 1024 + s = omega arith in
    let half : (b ≡ 0) ⊎ (1024 ≤ s) = inr (omega arith) in
    ap (λ n. index_of (value_at n)) parts
    ∙ ap index_of (value_at-index b s (omega arith) (omega arith) half)
    ∙ index_of-product b s (omega arith) (omega arith) half
    ∙ sym parts

-- Every count's lowest value is recorded in that count again: adding the counts of a recorder to a
-- histogram by their lowest values moves none of them.
pub index_of-value_at : (i : ℕ) → i < len → index_of (value_at i) ≡ i
index_of-value_at i h = elim (Bool-cases (ltb i 2048)) [
  | inl t ↦ first_again i (ltb→lt i 2048 t)
  | inr t ↦ later_again i h (ground arith)
]

-- A latency within the bounds has a count of its own histogram.
pub index_of-lt-len : (v : ℕ) → v ≤ highest_us → index_of v < len
index_of-lt-len v h =
    let found = bucket_of-BucketOf v (omega arith) in
    let small = bucket_small v (bucket_of v) h found in
    let (high, low) = quotient_bounds v (bucket_of v) found in omega (arith, index_of-bucket v)

fraction : (v b : ℕ) → BucketOf v b → (v / 2 ^ b * 2 ^ b ≤ v) × (1000 * (v - v / 2 ^ b * 2 ^ b) ≤ v)
unfolding BucketOf
fraction v b (high, inl e) = rw e (omega arith, omega arith)
fraction v b (high, inr low) =
    let positive : 0 < 2 ^ b = one-le-pow b 2 (omega arith) in
    let rest : v % 2 ^ b < 2 ^ b = mod-lt v positive in
    let whole = div-add-mod' v (2 ^ b) in (omega arith, omega arith)

pub value_at-index_of :
    (v : ℕ)
    → v ≤ highest_us
    → (value_at (index_of v) ≤ v) × (1000 * (v - value_at (index_of v)) ≤ v)
value_at-index_of v h =
    let b = bucket_of v in
    let found = bucket_of-BucketOf v (omega arith) in
    let small = bucket_small v b h found in
    let (high, low) = quotient_bounds v b found in
    let same = ap value_at (index_of-bucket v) ∙ value_at-index b (v / 2 ^ b) small high low in
    rw same (fraction v b found)
