-- ===== src/Chaos.antt =====
-- src/chaos.rs: the generator of fault draws, and the corruption of a frame. The draws that compare
-- floating-point percentages (plan_send, close_now) are left out.
pub mod Generator
pub mod Corrupt
use wsblast.Common.{
  ℕ, zero, suc, ◌+◌, ◌-◌, ◌*◌, ◌/◌, ◌%◌, ◌^◌, max, bit_xor, Bool, true, false, Option, none, some,
  List, [], ◌∷◌, Bytes, length, ltb, ◌==◌, if◌then◌else◌, get_or,
}

abbrev pub word : ℕ → ℕ
word x = x % 2 ^ 64

-- `wrapping_add`, `wrapping_mul`
pub splitmix64 : ℕ → ℕ
splitmix64 seed =
    let a = word (seed + 0x9e3779b97f4a7c15) in
    let b = word (bit_xor a (a / 2 ^ 30) * 0xbf58476d1ce4e5b9) in
    let c = word (bit_xor b (b / 2 ^ 27) * 0x94d049bb133111eb) in bit_xor c (c / 2 ^ 31)

-- The state of `XorShift64`.
unfoldable pub new_generator : ℕ → ℕ
unfolding splitmix64
new_generator seed = max (splitmix64 seed) 1

abbrev pub shift_left : ℕ → ℕ
shift_left x = bit_xor x (word (x * 2 ^ 13))

abbrev pub shift_right : ℕ → ℕ
shift_right x = bit_xor x (x / 2 ^ 7)

abbrev pub shift_last : ℕ → ℕ
shift_last x = bit_xor x (word (x * 2 ^ 17))

-- The number drawn, which is the next state.
unfoldable pub next_u64 : ℕ → ℕ
next_u64 x = shift_last (shift_right (shift_left x))

-- A number up to `max`, and the next state.
unfoldable pub at_most : ℕ → ℕ → ℕ × ℕ
unfolding next_u64
at_most s bound = let x = next_u64 s in if bound == 2 ^ 64 - 1 then (x, x) else (x % suc bound, x)

abbrev pub clamp_printable : ℕ → ℕ
clamp_printable c = if ltb c 0x20 then 0x20 else if ltb 0x7e c then 0x7e else c

unfoldable pub other_printable : ℕ → ℕ → ℕ
other_printable original offset = 0x20 + (clamp_printable original - 0x20 + 1 + offset % 94) % 95

-- `out[pos] = value`
pub set : Bytes → ℕ → ℕ → Bytes
set [] pos value = []
set (b ∷ bs) zero value = value ∷ bs
set (b ∷ bs) (suc pos) value = b ∷ set bs pos value

pub flip_bit : ℕ → Bytes → Bytes × ℕ
unfolding at_most set
flip_bit s bytes =
    let (pos, s1) = at_most s (length bytes - 1) in
    let (bit, s2) = at_most s1 7 in (set bytes pos (bit_xor (get_or bytes pos 0) (2 ^ bit)), s2)

-- How many ASCII bytes there are, and the position of one.
pub ascii_count : Bytes → ℕ
ascii_count [] = 0
ascii_count (b ∷ bs) = let rest = ascii_count bs in if ltb b 128 then suc rest else rest

abbrev pub behind_one : Option ℕ → Option ℕ
behind_one none = none
behind_one (some i) = some (suc i)

pub nth_ascii : ℕ → Bytes → Option ℕ
nth_ascii n [] = none
nth_ascii zero (b ∷ bs) =
    let rest = nth_ascii zero bs in if ltb b 128 then some 0 else behind_one rest
nth_ascii (suc n) (b ∷ bs) = behind_one (nth_ascii (if ltb b 128 then n else suc n) bs)

-- A frame; control frames are `other`.
pub data Message : Type 0 where
  text binary other : Bytes → Message

-- The frame to send, whether it was changed, and the generator's state. `String::from_utf8` is the
-- test `utf8`.
module _ (utf8 : Bytes → Bool) where
  pub corrupt_ascii : ℕ → Bytes → ℕ → (Message × Bool) × ℕ
  unfolding at_most set nth_ascii other_printable
  corrupt_ascii s bytes count =
      let (nth, s1) = at_most s (count - 1) in
      elim (nth_ascii nth bytes) [
        | none ↦ ((text bytes, false), s1)
        | some pos ↦
            let (offset, s2) = at_most s1 93 in
            let out = set bytes pos (other_printable (get_or bytes pos 0) offset) in
            if utf8 out then ((text out, true), s2) else ((text bytes, false), s2)
      ]

  pub flipped : ℕ → Bytes → (Message × Bool) × ℕ
  unfolding flip_bit
  flipped s bytes = let (out, s') = flip_bit s bytes in ((binary out, true), s')

  unfoldable pub corrupt : ℕ → Message → (Message × Bool) × ℕ
  unfolding corrupt_ascii flipped ascii_count
  corrupt s (text []) = ((text [], false), s)
  corrupt s (text (b ∷ bs)) =
      let count = ascii_count (b ∷ bs) in
      if count == 0 then flipped s (b ∷ bs) else corrupt_ascii s (b ∷ bs) count
  corrupt s (binary []) = ((binary [], false), s)
  corrupt s (binary (b ∷ bs)) = flipped s (b ∷ bs)
  corrupt s (other bytes) = ((other bytes, false), s)
