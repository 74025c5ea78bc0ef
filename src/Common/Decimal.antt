-- ===== src/Common/Decimal.antt =====
-- Numbers written in decimal, and read back.
use native.Mathlib.Nat.{pow-suc}
use Prim.Native.Nat.{ℕ, zero, suc, ◌+◌, ◌-◌, ◌*◌, ◌/◌, ◌%◌, ◌^◌, ◌≤◌, ◌<◌}
use mathlib.Core.Path.{◌≡◌, refl, sym, ap, subst, ◌∙◌}
use mathlib.Core.Logic.{inl, inr}
use mathlib.Core.Bool.{true, false, ◌&&◌}
use mathlib.Core.Option.{none, some}
use mathlib.Core.List.{[], ◌∷◌, ◌++◌}
use native.Mathlib.Omega.{arith}
use wsblast.Common.Tests.{ltb, leb, ◌==◌, if◌then◌else◌, Bool-cases}
use wsblast.Common.Lists.{Bytes, All, All-append}
use wsblast.Common.Text.{is_digit, digits_up_to, parse_unsigned}

-- `write!(out, "{n}")`; 39 digits are enough for a number of 128 bits.
pub decimal_from : ℕ → ℕ → Bytes
decimal_from zero n = []
decimal_from (suc fuel) n =
    let more = decimal_from fuel (n / 10) in
    if ltb n 10 then (b'0' + n) ∷ [] else more ++ ((b'0' + n % 10) ∷ [])

unfoldable pub decimal : ℕ → Bytes
unfolding decimal_from
decimal n = decimal_from 39 n

-- `take_while(u8::is_ascii_digit)`, and what follows.
unfoldable pub leading_digits : Bytes → Bytes
leading_digits [] = []
leading_digits (c ∷ cs) = if is_digit c then c ∷ leading_digits cs else []

unfoldable pub after_digits : Bytes → Bytes
after_digits [] = []
after_digits (c ∷ cs) = if is_digit c then after_digits cs else c ∷ cs

abbrev pub IsDigit : ℕ → Type 0
IsDigit c = is_digit c ≡ true

-- A text that no digit starts.
abbrev pub NoDigit : Bytes → Type 0
NoDigit [] = Unit {0}
NoDigit (c ∷ cs) = is_digit c ≡ false

decimal_from-IsDigit : (fuel n : ℕ) → All IsDigit (decimal_from fuel n)
unfolding decimal_from
decimal_from-IsDigit zero n = tt
decimal_from-IsDigit (suc fuel) n = elim (Bool-cases (ltb n 10)) [
  | inl small ↦ rw small (ground arith, tt)
  | inr large ↦
      let last : is_digit (b'0' + n % 10) ≡ true = ground arith in
      rw large (
        All-append IsDigit (decimal_from fuel (n / 10)) ((b'0' + n % 10) ∷ [])
          (decimal_from-IsDigit fuel (n / 10)) (last, tt))
]

pub decimal-IsDigit : (n : ℕ) → All IsDigit (decimal n)
unfolding decimal
decimal-IsDigit n = decimal_from-IsDigit 39 n

pub leading_digits_append :
    (ds rest : Bytes) → All IsDigit ds → NoDigit rest → leading_digits (ds ++ rest) ≡ ds
unfolding leading_digits
leading_digits_append [] [] h k = refl
leading_digits_append [] (c ∷ cs) h k = rw k
leading_digits_append (d ∷ ds) rest (here, h) k = rw (here, leading_digits_append ds rest h k)

pub after_digits_append :
    (ds rest : Bytes) → All IsDigit ds → NoDigit rest → after_digits (ds ++ rest) ≡ rest
unfolding after_digits
after_digits_append [] [] h k = refl
after_digits_append [] (c ∷ cs) h k = rw k
after_digits_append (d ∷ ds) rest (here, h) k = rw (here, after_digits_append ds rest h k)

digits_snoc :
    (max a b c : ℕ) (xs : Bytes)
    → digits_up_to max a xs ≡ some b
    → digits_up_to max a (xs ++ (c ∷ [])) ≡ digits_up_to max b (c ∷ [])
digits_snoc max a b c [] e = let same : a ≡ b = cc in rw same
digits_snoc max a b c (x ∷ xs) e =
    let a' = a * 10 + (x - b'0') in
    elim (Bool-cases (is_digit x && leb a' max)) [
      | inl goes ↦ rw goes (digits_snoc max a' b c xs (sym (rw goes) ∙ e))
      | inr stops ↦ let nothing : none ≡ some b = sym (rw stops) ∙ e in cc
    ]

digits_up_to-decimal_from :
    (max fuel n : ℕ) → n ≤ max → n < 10 ^ fuel → digits_up_to max 0 (decimal_from fuel n) ≡ some n
unfolding decimal_from
digits_up_to-decimal_from max zero n h k = ground arith
digits_up_to-decimal_from max (suc fuel) n h k = elim (Bool-cases (ltb n 10)) [
  | inl small ↦ rw small (ground arith)
  | inr large ↦
      let front =
        digits_up_to-decimal_from max fuel (n / 10) (omega arith)
          (omega (arith, pow-suc 10 fuel)) in
      rw (large, digits_snoc max 0 (n / 10) (b'0' + n % 10) (decimal_from fuel (n / 10)) front)
        (ground arith)
]

decimal_from_cons : (fuel n : ℕ) → (d : ℕ) × (ds : Bytes) × (decimal_from (suc fuel) n ≡ d ∷ ds)
unfolding decimal_from
decimal_from_cons zero n = elim (Bool-cases (ltb n 10)) [
  | inl small ↦ (b'0' + n, [], rw small)
  | inr large ↦ (b'0' + n % 10, [], rw large)
]
decimal_from_cons (suc fuel) n = elim (Bool-cases (ltb n 10)) [
  | inl small ↦ (b'0' + n, [], rw small)
  | inr large ↦
      let (d, ds, front) = decimal_from_cons fuel (n / 10) in
      (d, ds ++ ((b'0' + n % 10) ∷ []), rw (large, front))
]

-- A number has at least one digit.
pub decimal_cons : (n : ℕ) → (d : ℕ) × (ds : Bytes) × (decimal n ≡ d ∷ ds)
unfolding decimal
decimal_cons n = decimal_from_cons 38 n

parse_unsigned_digits :
    (max d : ℕ) (ds : Bytes) → IsDigit d → parse_unsigned max (d ∷ ds) ≡ digits_up_to max 0 (d ∷ ds)
parse_unsigned_digits max d [] h = refl
parse_unsigned_digits max d (e ∷ es) h = let digit : (d == b'+') ≡ false = ground arith in rw digit

-- A number that is written in decimal is read back.
pub parse_unsigned-decimal :
    (max n : ℕ) → n ≤ max → max < 10 ^ 39 → parse_unsigned max (decimal n) ≡ some n
parse_unsigned-decimal max n h k =
    let (d, ds, form) = decimal_cons n in
    let digits : All IsDigit (d ∷ ds) = subst (All IsDigit) form (decimal-IsDigit n) in
    let read : digits_up_to max 0 (decimal n) ≡ some n =
      unfold decimal in digits_up_to-decimal_from max 39 n h (omega arith) in
    ap (parse_unsigned max) form
    ∙ parse_unsigned_digits max d ds digits.0
    ∙ ap (digits_up_to max 0) (sym form)
    ∙ read
