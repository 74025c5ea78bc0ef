-- ===== src/Chaos/Generator.antt =====
-- chaos.rs: what the generator and the replacement of a character keep.
use native.Mathlib.Nat.{mod-lt, zero-lt-suc}
use wsblast.Common.{ℕ, ◌+◌, ◌*◌, ◌/◌, ◌^◌, ◌≤◌, ◌<◌, ◌≡◌, ◌≢◌, bit_xor, arith}
use wsblast.Common.Bits.{xor_zero, xor_bound}
use wsblast.Chaos.{
  word, splitmix64, new_generator, shift_left, shift_right, next_u64, at_most, other_printable,
}

-- A replaced character is printable ASCII and another one.
pub other_printable_range :
    (original offset : ℕ)
    → (0x20 ≤ other_printable original offset)
      × (other_printable original offset ≤ 0x7e)
      × (other_printable original offset ≢ original)
unfolding other_printable
other_printable_range original offset = (omega arith, omega arith, ground arith)

left_live : (x : ℕ) → x < 2 ^ 64 → bit_xor x (word (x * 2 ^ 13)) ≡ 0 → x ≡ 0
left_live x h e = let same = xor_zero x (word (x * 2 ^ 13)) e in omega arith

right_live : (x : ℕ) → bit_xor x (x / 2 ^ 7) ≡ 0 → x ≡ 0
right_live x e = let same = xor_zero x (x / 2 ^ 7) e in omega arith

last_live : (x : ℕ) → x < 2 ^ 64 → bit_xor x (word (x * 2 ^ 17)) ≡ 0 → x ≡ 0
last_live x h e = let same = xor_zero x (word (x * 2 ^ 17)) e in omega arith

-- From a state that is a 64-bit number other than zero the generator goes to another such state; zero
-- would repeat forever.
pub next_u64_live : (x : ℕ) → x < 2 ^ 64 → x ≢ 0 → (next_u64 x < 2 ^ 64) × (next_u64 x ≢ 0)
unfolding next_u64
next_u64_live x h live =
    let a = shift_left x in
    let b = shift_right a in
    let below_a : a < 2 ^ 64 = xor_bound 64 x (word (x * 2 ^ 13)) h (omega arith) in
    let below_b : b < 2 ^ 64 = xor_bound 64 a (a / 2 ^ 7) below_a (omega arith) in
    (
      xor_bound 64 b (word (b * 2 ^ 17)) below_b (omega arith),
      λ e. live (left_live x h (right_live a (last_live b below_b e))),
    )

-- A new generator has such a state, from any seed.
pub new_generator_live : (seed : ℕ) → (new_generator seed < 2 ^ 64) × (new_generator seed ≢ 0)
unfolding new_generator splitmix64
new_generator_live seed =
    let a = word (seed + 0x9e3779b97f4a7c15) in
    let b = word (bit_xor a (a / 2 ^ 30) * 0xbf58476d1ce4e5b9) in
    let c = word (bit_xor b (b / 2 ^ 27) * 0x94d049bb133111eb) in
    let small : bit_xor c (c / 2 ^ 31) < 2 ^ 64 =
      xor_bound 64 c (c / 2 ^ 31) (omega arith) (omega arith) in
    (omega arith, omega arith)

next_below : (x : ℕ) → x < 2 ^ 64 → next_u64 x < 2 ^ 64
unfolding next_u64
next_below x h =
    let a = shift_left x in
    let b = shift_right a in
    let below_a : a < 2 ^ 64 = xor_bound 64 x (word (x * 2 ^ 13)) h (omega arith) in
    let below_b : b < 2 ^ 64 = xor_bound 64 a (a / 2 ^ 7) below_a (omega arith) in
    xor_bound 64 b (word (b * 2 ^ 17)) below_b (omega arith)

-- A draw is within its bound, and leaves a 64-bit state.
pub at_most_within :
    (s bound : ℕ) → s < 2 ^ 64 → ((at_most s bound).0 ≤ bound) × ((at_most s bound).1 < 2 ^ 64)
unfolding at_most
at_most_within s bound h =
    let below = next_below s h in
    let within = mod-lt (next_u64 s) (zero-lt-suc bound) in (ground arith, ground arith)
