-- ===== src/Chaos/Corrupt.antt =====
-- chaos.rs: what `corrupt` does to a frame.
use native.Mathlib.Nat.{one-le-pow}
use wsblast.Common.{
  ℕ, zero, suc, ◌-◌, ◌^◌, ◌<◌, ◌≡◌, ◌≢◌, refl, sym, ◌∙◌, inl, inr, bit_xor, Bool, true, false,
  Option, none, some, Option-cases, Bool-cases, [], ◌∷◌, Bytes, length, get_or, ltb, ◌==◌,
  if◌then◌else◌, arith,
}
use wsblast.Common.Bits.{xor_changes}
use wsblast.Chaos.{
  at_most, other_printable, set, flip_bit, behind_one, nth_ascii, ascii_count, Message, text,
  binary, other, corrupt_ascii, flipped, corrupt,
}
use wsblast.Chaos.Generator.{other_printable_range, at_most_within}

abbrev pub payload : Message → Bytes
payload (text bytes) = bytes
payload (binary bytes) = bytes
payload (other bytes) = bytes

-- `after` is `before` with one byte replaced by another.
pub record OneByte (before after : Bytes) : Type 0 where
  pub pos : ℕ
  pub byte : ℕ
  pub in_range : pos < length before
  pub differs : byte ≢ get_or before pos 0
  pub replaced : after ≡ set before pos byte

-- A frame that counts as changed differs in one byte, any other is the same frame.
abbrev pub Corrupted : Message → Message × Bool → Type 0
Corrupted m (m', true) = OneByte (payload m) (payload m')
Corrupted m (m', false) = m' ≡ m

flip_bit-OneByte : (s b : ℕ) (bs : Bytes) → s < 2 ^ 64 → OneByte (b ∷ bs) (flip_bit s (b ∷ bs)).0
unfolding flip_bit
flip_bit-OneByte s b bs h =
    let first = at_most_within s (length (b ∷ bs) - 1) h in
    let pos = (at_most s (length (b ∷ bs) - 1)).0 in
    let bit = (at_most (at_most s (length (b ∷ bs) - 1)).1 7).0 in
    let old = get_or (b ∷ bs) pos 0 in
    record {
      pos = pos;
      byte = bit_xor old (2 ^ bit);
      in_range = omega (arith, first.0);
      differs = λ e. let none_set = xor_changes old (2 ^ bit) e in omega (arith, one-le-pow bit 2);
      replaced = refl;
    }

behind_one_below :
    (o : Option ℕ) (n pos : ℕ)
    → ((i : ℕ) → o ≡ some i → i < n)
    → behind_one o ≡ some pos
    → pos < suc n
behind_one_below none n pos h e = cc
behind_one_below (some i) n pos h e =
    let one : suc i ≡ pos = cc in let below = h i refl in omega arith

nth_ascii_below :
    (n : ℕ) (bytes : Bytes) (pos : ℕ) → nth_ascii n bytes ≡ some pos → pos < length bytes
unfolding nth_ascii
nth_ascii_below n [] pos e = cc
nth_ascii_below zero (b ∷ bs) pos e = elim (Bool-cases (ltb b 128)) [
  | inl ascii ↦
      let here : ◌≡◌ {A = Option ℕ} (some 0) (some pos) = sym (rw ascii) ∙ e in
      let first : 0 ≡ pos = cc in omega arith
  | inr beyond ↦
      behind_one_below (nth_ascii zero bs) (length bs) pos (nth_ascii_below zero bs)
        (sym (rw beyond) ∙ e)
]
nth_ascii_below (suc n) (b ∷ bs) pos e =
    behind_one_below (nth_ascii (if ltb b 128 then n else suc n) bs) (length bs) pos
      (nth_ascii_below (if ltb b 128 then n else suc n) bs) e

module _ (utf8 : Bytes → Bool) where
  corrupt_ascii-Corrupted :
      (s : ℕ) (bytes : Bytes) (count : ℕ)
      → Corrupted (text bytes) (corrupt_ascii utf8 s bytes count).0
  unfolding corrupt_ascii
  corrupt_ascii-Corrupted s bytes count =
      let nth = (at_most s (count - 1)).0 in
      let s1 = (at_most s (count - 1)).1 in
      elim (Option-cases (nth_ascii nth bytes)) [
        | inl absent ↦ rw (absent, corrupt_ascii)
        | inr (pos, found) ↦
            let byte = other_printable (get_or bytes pos 0) (at_most s1 93).0 in
            elim (Bool-cases (utf8 (set bytes pos byte))) [
              | inl valid ↦
                  rw (found, corrupt_ascii, valid)
                    (record {
                      pos = pos;
                      byte = byte;
                      in_range = nth_ascii_below nth bytes pos found;
                      differs = (other_printable_range (get_or bytes pos 0) (at_most s1 93).0).2;
                      replaced = refl;
                    })
              | inr invalid ↦ rw (found, corrupt_ascii, invalid)
            ]
      ]

  -- A frame that `corrupt` reports as changed differs from the frame it was given in exactly one byte
  -- of an equally long payload, and any other frame is sent as it is, when the generator's state is a
  -- 64-bit number, whatever texts pass as UTF-8.
  pub corrupt-Corrupted : (s : ℕ) (m : Message) → s < 2 ^ 64 → Corrupted m (corrupt utf8 s m).0
  unfolding corrupt flipped
  corrupt-Corrupted s (text []) h = refl
  corrupt-Corrupted s (text (b ∷ bs)) h = elim (Bool-cases (ascii_count (b ∷ bs) == 0)) [
    | inl none_ascii ↦ rw none_ascii (flip_bit-OneByte s b bs h)
    | inr some_ascii ↦ rw some_ascii (corrupt_ascii-Corrupted s (b ∷ bs) (ascii_count (b ∷ bs)))
  ]
  corrupt-Corrupted s (binary []) h = refl
  corrupt-Corrupted s (binary (b ∷ bs)) h = flip_bit-OneByte s b bs h
  corrupt-Corrupted s (other bytes) h = refl
