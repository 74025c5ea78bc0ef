-- ===== src/Common/Bits.antt =====
-- Laws of the bit operations at every width: shifted fields, low masks and exclusive or.
mod Digit
use Digit.{bit_or_digit, bit_and_digit, bit_xor_digit}
use Prim.Native.Nat.{ℕ, zero, suc, ◌+◌, ◌-◌, ◌*◌, ◌/◌, ◌%◌, ◌^◌, ◌<◌, max, bit_and, bit_or, bit_xor}
use mathlib.Core.Path.{◌≡◌, refl, sym, ap, ◌∙◌}
use native.Mathlib.Nat.{pow-suc, one-le-pow, div-div-eq-div-mul}
use native.Mathlib.Omega.{arith}

scale_suc : (q k : ℕ) → q * 2 ^ suc k ≡ 2 * (q * 2 ^ k)
scale_suc q k = omega (arith, ap (λ (t : ℕ). q * t) (pow-suc 2 k))

bit_or-zero_below : (n a : ℕ) → a < n → bit_or a 0 ≡ a
bit_or-zero_below zero a h = elim h [ ]
bit_or-zero_below (suc n) zero h = refl
bit_or-zero_below (suc n) (suc a) h =
    omega (arith, bit_or_digit (suc a) 0, bit_or-zero_below n (suc a / 2) (omega arith))

bit_and-zero_below : (n a : ℕ) → a < n → bit_and a 0 ≡ 0
bit_and-zero_below zero a h = elim h [ ]
bit_and-zero_below (suc n) zero h = refl
bit_and-zero_below (suc n) (suc a) h =
    omega (arith, bit_and_digit (suc a) 0, bit_and-zero_below n (suc a / 2) (omega arith))

-- `q << k | r` is a sum when `r` has at most `k` bits.
pub bit_or_shifted : (k q r : ℕ) → r < 2 ^ k → bit_or (q * 2 ^ k) r ≡ q * 2 ^ k + r
bit_or_shifted zero q r h = ground (arith, bit_or-zero_below (suc q) q)
bit_or_shifted (suc k) q r h =
    ground (
      arith,
      bit_or_digit (q * 2 ^ suc k) r,
      scale_suc q k,
      bit_or_shifted k q (r / 2) (omega arith),
    )

-- `a & ((1 << k) - 1)` is the remainder.
bit_and_low : (k q r : ℕ) → r < 2 ^ k → bit_and (q * 2 ^ k + r) (2 ^ k - 1) ≡ r
bit_and_low zero q r h = ground (arith, bit_and-zero_below (suc q) q)
bit_and_low (suc k) q r h = ground (
  arith,
  bit_and_digit (q * 2 ^ suc k + r) (2 ^ suc k - 1),
  scale_suc q k,
  pow-suc 2 k,
  bit_and_low k q (r / 2) (omega arith),
)

-- `a & ((1 << k) - 1)` for any `a`.
pub bit_and_mask : (k a : ℕ) → bit_and a (2 ^ k - 1) ≡ a % 2 ^ k
bit_and_mask k a = ground (arith, one-le-pow k 2, bit_and_low k (a / 2 ^ k) (a % 2 ^ k))

div_halves : (k a : ℕ) → a / 2 / 2 ^ k ≡ a / 2 ^ suc k
div_halves k a = div-div-eq-div-mul a 2 (2 ^ k) ∙ ap (λ d. a / d) (omega (arith, pow-suc 2 k))

-- `a | ((1 << k) - 1)` sets the low digits.
pub bit_or_mask : (k a : ℕ) → bit_or a (2 ^ k - 1) ≡ a / 2 ^ k * 2 ^ k + (2 ^ k - 1)
bit_or_mask zero a = omega (arith, bit_or-zero_below (suc a) a (omega arith))
bit_or_mask (suc k) a =
    let low : (2 ^ suc k - 1) / 2 ≡ 2 ^ k - 1 = omega (arith, pow-suc 2 k, one-le-pow k 2) in
    let digit : bit_or a (2 ^ suc k - 1)
        ≡ bit_or (a / 2) ((2 ^ suc k - 1) / 2) * 2 + max (a % 2) ((2 ^ suc k - 1) % 2) =
      bit_or_digit a (2 ^ suc k - 1) in
    let half : bit_or (a / 2) ((2 ^ suc k - 1) / 2) ≡ a / 2 / 2 ^ k * 2 ^ k + (2 ^ k - 1) =
      ap (λ m. bit_or (a / 2) m) low ∙ bit_or_mask k (a / 2) in
    omega (
      arith,
      pow-suc 2 k,
      one-le-pow k 2,
      digit,
      half,
      ap (λ (q : ℕ). q * 2 ^ k) (div_halves k a),
      scale_suc (a / 2 ^ suc k) k,
    )

xor_half : (a b : ℕ) → bit_xor a b / 2 ≡ bit_xor (a / 2) (b / 2)
xor_half a b = omega (arith, bit_xor_digit a b)

xor_cancel_below : (n a b : ℕ) → a < n → b < n → bit_xor (bit_xor a b) b ≡ a
xor_cancel_below zero a b h k = elim h [ ]
xor_cancel_below (suc zero) a b h k =
    let e : a ≡ 0 = omega arith in let f : b ≡ 0 = omega arith in rw (e, f)
xor_cancel_below (suc (suc n)) a b h k =
    let half : bit_xor (bit_xor a b / 2) (b / 2) ≡ a / 2 =
      rw (xor_half a b) (xor_cancel_below (suc n) (a / 2) (b / 2) (omega arith) (omega arith)) in
    omega (arith, bit_xor_digit a b, bit_xor_digit (bit_xor a b) b, half)

-- `^=` with the same number twice changes nothing.
pub xor_cancel : (a b : ℕ) → bit_xor (bit_xor a b) b ≡ a
xor_cancel a b = xor_cancel_below (suc (a + b)) a b (omega arith) (omega arith)

-- An exclusive or has no more bits than its arguments.
pub xor_bound : (k a b : ℕ) → a < 2 ^ k → b < 2 ^ k → bit_xor a b < 2 ^ k
xor_bound zero a b h k =
    let e : a ≡ 0 = omega arith in let f : b ≡ 0 = omega arith in rw (e, f) (omega arith)
xor_bound (suc k) a b h j = omega (
  arith,
  bit_xor_digit a b,
  pow-suc 2 k,
  xor_bound k (a / 2) (b / 2) (omega (arith, pow-suc 2 k)) (omega (arith, pow-suc 2 k)),
)

or_zero_below : (n a b : ℕ) → a < n → b < n → bit_or a b ≡ 0 → (a ≡ 0) × (b ≡ 0)
or_zero_below zero a b h k e = elim h [ ]
or_zero_below (suc zero) a b h k e = (omega arith, omega arith)
or_zero_below (suc (suc n)) a b h k e =
    let digit = bit_or_digit a b in
    let half = or_zero_below (suc n) (a / 2) (b / 2) (omega arith) (omega arith) (omega arith) in
    (omega (arith, half.0), omega (arith, half.1))

-- `|` keeps every bit that is set.
pub or_zero : (a b : ℕ) → bit_or a b ≡ 0 → (a ≡ 0) × (b ≡ 0)
or_zero a b e = or_zero_below (suc (a + b)) a b (omega arith) (omega arith) e

xor_self_below : (n a : ℕ) → a < n → bit_xor a a ≡ 0
xor_self_below zero a h = elim h [ ]
xor_self_below (suc zero) a h = let e : a ≡ 0 = omega arith in rw e
xor_self_below (suc (suc n)) a h =
    omega (arith, bit_xor_digit a a, xor_self_below (suc n) (a / 2) (omega arith))

pub xor_self : (a : ℕ) → bit_xor a a ≡ 0
xor_self a = xor_self_below (suc a) a (omega arith)

zero_xor_below : (n b : ℕ) → b < n → bit_xor 0 b ≡ b
zero_xor_below zero b h = elim h [ ]
zero_xor_below (suc zero) b h = let e : b ≡ 0 = omega arith in rw e
zero_xor_below (suc (suc n)) b h =
    omega (arith, bit_xor_digit 0 b, zero_xor_below (suc n) (b / 2) (omega arith))

-- `^` gives zero only for equal numbers.
pub xor_zero : (a b : ℕ) → bit_xor a b ≡ 0 → a ≡ b
xor_zero a b e =
    sym (xor_cancel a b) ∙ ap (λ x. bit_xor x b) e ∙ zero_xor_below (suc b) b (omega arith)

xor_comm_below : (n a b : ℕ) → a < n → b < n → bit_xor a b ≡ bit_xor b a
xor_comm_below zero a b h k = elim h [ ]
xor_comm_below (suc zero) a b h k =
    let e : a ≡ 0 = omega arith in let f : b ≡ 0 = omega arith in rw (e, f)
xor_comm_below (suc (suc n)) a b h k =
    let half = xor_comm_below (suc n) (a / 2) (b / 2) (omega arith) (omega arith) in
    omega (arith, bit_xor_digit a b, bit_xor_digit b a, half)

-- `^` changes a number unless it is with zero.
pub xor_changes : (a b : ℕ) → bit_xor a b ≡ a → b ≡ 0
xor_changes a b e =
    let swapped = xor_comm_below (suc (a + b)) b a (omega arith) (omega arith) in
    sym (xor_cancel b a) ∙ ap (λ x. bit_xor x a) (swapped ∙ e) ∙ xor_self a
