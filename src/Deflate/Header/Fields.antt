-- ===== src/Deflate/Header/Fields.antt =====
-- The bytes of a header, read back one field at a time.
use wsblast.Common.{
  ℕ, ◌+◌, ◌*◌, ◌/◌, ◌%◌, ◌^◌, ◌<◌, ◌≡◌, refl, bit_and, bit_or, Bool, true, false, not, ◌&&◌, ◌==◌,
  if◌then◌else◌, Option, none, some, arith,
}
use mathlib.Core.Path.{subst₂}
use wsblast.Common.Tables.{passes, passes_everywhere}
use wsblast.Deflate.Header.{Header, Key, from_be, to_be, first_byte, mask_bit}

-- The RSV2 and RSV3 bits stand in place, and the opcode has four bits.
pub record IsHeader (h : Header) : Type 0 where
  pub rsv_in_place : h.rsv23 % 16 ≡ 0
  pub rsv_small : h.rsv23 < 64
  pub opcode_small : h.opcode < 16

flags : Bool → Bool → ℕ → ℕ → ℕ
flags fin rsv1 rsv23 opcode =
    bit_or (bit_or (bit_or (if fin then 0x80 else 0) (if rsv1 then 0x40 else 0)) rsv23) opcode

reads_flags : Bool → Bool → ℕ → ℕ → Bool
reads_flags fin rsv1 rsv23 opcode =
    let b = flags fin rsv1 rsv23 opcode in
    (bit_and b 0x80 == (if fin then 0x80 else 0))
    && (bit_and b 0x40 == (if rsv1 then 0x40 else 0))
    && (bit_and b 0x30 == rsv23)
    && (bit_and b 0x0f == opcode)

flags_table :
    (fin rsv1 : Bool) → passes (λ i. reads_flags fin rsv1 (i / 16 * 16) (i % 16)) 64 ≡ true
unfolding passes reads_flags flags
flags_table true true = refl
flags_table true false = refl
flags_table false true = refl
flags_table false false = refl

reads_all_flags :
    (fin rsv1 : Bool) (rsv23 opcode : ℕ)
    → rsv23 % 16 ≡ 0
    → rsv23 < 64
    → opcode < 16
    → reads_flags fin rsv1 rsv23 opcode ≡ true
reads_all_flags fin rsv1 rsv23 opcode in_place small nibble =
    let i = rsv23 + opcode in
    let high : i / 16 * 16 ≡ rsv23 = omega arith in
    let low : i % 16 ≡ opcode = omega arith in
    subst₂ (λ r o. reads_flags fin rsv1 r o ≡ true) high low
      (passes_everywhere _ 64 i (flags_table fin rsv1) (omega arith))

pub record FlagsRead (h : Header) (rsv1 : Bool) (b : ℕ) : Type 0 where
  pub fin_bit : not (bit_and b 0x80 == 0) ≡ h.fin
  pub rsv1_bit : not (bit_and b 0x40 == 0) ≡ rsv1
  pub rsv_bits : bit_and b 0x30 ≡ h.rsv23
  pub opcode_bits : bit_and b 0x0f ≡ h.opcode

pub first_byte_read : (h : Header) (rsv1 : Bool) → IsHeader h → FlagsRead h rsv1 (first_byte h rsv1)
unfolding first_byte reads_flags flags
first_byte_read h rsv1 w =
    ground
      (arith, reads_all_flags h.fin rsv1 h.rsv23 h.opcode w.rsv_in_place w.rsv_small w.opcode_small)

-- The second byte: the mask bit over seven bits of length.
second_table :
    passes (λ i. (bit_and (bit_or 0x80 i) 0x7f == i) && (bit_and (bit_or 0x80 i) 0x80 == 0x80)) 128
    ≡ true
unfolding passes
second_table = refl

second_table_unmasked :
    passes (λ i. (bit_and (bit_or 0 i) 0x7f == i) && (bit_and (bit_or 0 i) 0x80 == 0)) 128 ≡ true
unfolding passes
second_table_unmasked = refl

pub record SecondRead (mask : Option Key) (short b : ℕ) : Type 0 where
  pub length_bits : bit_and b 0x7f ≡ short
  pub masked_bit : bit_and b 0x80 ≡ mask_bit mask

pub second_byte_read :
    (mask : Option Key) (short : ℕ)
    → short < 128
    → SecondRead mask short (bit_or (mask_bit mask) short)
second_byte_read none short h =
    ground (arith, passes_everywhere _ 128 short second_table_unmasked h)
second_byte_read (some key) short h = ground (arith, passes_everywhere _ 128 short second_table h)

pub from_be-to_be_two : (v : ℕ) → v < 2 ^ 16 → from_be (to_be 2 v) ≡ v
unfolding from_be to_be
from_be-to_be_two v h = omega arith

pub from_be-to_be_eight : (v : ℕ) → v < 2 ^ 64 → from_be (to_be 8 v) ≡ v
unfolding from_be to_be
from_be-to_be_eight v h = omega arith
