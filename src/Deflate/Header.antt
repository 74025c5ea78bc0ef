-- ===== src/Deflate/Header.antt =====
-- src/deflate.rs: the frame header of RFC 6455 and the frame mask. `usize` has 64 bits.
pub mod Fields
pub mod RoundTrip
pub mod Prefix
pub mod Mask
use mathlib.Core.List.{foldl}
use wsblast.Common.{
  ℕ, zero, suc, ◌+◌, ◌-◌, ◌*◌, ◌/◌, ◌%◌, ◌^◌, min, bit_and, bit_or, bit_xor, Bool, true, false, not,
  Option, none, some, ◌>>=◌, List, [], ◌∷◌, ◌++◌, Bytes, length, get_elem?, take, drop, leb, ◌==◌,
  if◌then◌else◌,
}

-- `[u8; 4]`
pub record Key : Type 0 where
  pub k0 : ℕ
  pub k1 : ℕ
  pub k2 : ℕ
  pub k3 : ℕ

abbrev pub key_bytes : Key → Bytes
key_bytes k = k.k0 ∷ k.k1 ∷ k.k2 ∷ k.k3 ∷ []

pub record Header : Type 0 where
  pub fin : Bool
  pub rsv1 : Bool
  pub rsv23 : ℕ
  pub opcode : ℕ
  pub mask : Option Key
  pub len : ℕ
  pub payload : ℕ

-- `buf.get(from..to)`
pub slice? : Bytes → ℕ → ℕ → Option Bytes
slice? buf from to = if leb to (length buf) then some (take (to - from) (drop from buf)) else none

-- `from_be_bytes`
pub from_be : Bytes → ℕ
from_be = foldl (λ n b. n * 256 + b) 0

-- The length field behind the first two bytes: how many bytes it takes, and the payload's length.
pub extended_length : Bytes → ℕ → Option (ℕ × ℕ)
extended_length buf short =
    if short == 126
    then (slice? buf 2 4 >>= λ bytes. some (2, from_be bytes))
    else if short == 127
    then (slice? buf 2 10 >>= λ bytes. some (8, min (from_be bytes) (2 ^ 64 - 1)))
    else some (0, short)

key_of : Bytes → Option Key
key_of (a ∷ b ∷ c ∷ d ∷ rest) = some (record { k0 = a; k1 = b; k2 = c; k3 = d })
key_of short = none

-- The key at `len`, if the mask bit of the second byte is set, and where the header ends.
pub mask_key : Bytes → ℕ → ℕ → Option (Option Key × ℕ)
unfolding key_of
mask_key buf second len =
    if bit_and second 0x80 == 0
    then some (none, len)
    else (slice? buf len (len + 4) >>= λ bytes. key_of bytes >>= λ key. some (some key, len + 4))

unfoldable pub parse : Bytes → Option Header
unfolding slice? from_be extended_length mask_key
parse buf = do
  b0 ← get_elem? buf 0
  b1 ← get_elem? buf 1
  (extra, payload) ← extended_length buf (bit_and b1 0x7f)
  (mask, len) ← mask_key buf b1 (2 + extra)
  some (record {
    fin = not (bit_and b0 0x80 == 0);
    rsv1 = not (bit_and b0 0x40 == 0);
    rsv23 = bit_and b0 0x30;
    opcode = bit_and b0 0x0f;
    mask = mask;
    len = len;
    payload = payload;
  })

-- `to_be_bytes` of a number of `n` bytes.
pub to_be : ℕ → ℕ → Bytes
to_be zero v = []
to_be (suc n) v = to_be n (v / 256) ++ (v % 256 ∷ [])

pub first_byte : Header → Bool → ℕ
first_byte h rsv1 =
    bit_or (bit_or (bit_or (if h.fin then 0x80 else 0) (if rsv1 then 0x40 else 0)) h.rsv23) h.opcode

pub length_field : ℕ → ℕ → Bytes
length_field mask_bit payload =
    if leb payload 125
    then bit_or mask_bit (payload % 256) ∷ []
    else if leb payload 0xffff
    then bit_or mask_bit 126 ∷ to_be 2 (payload % 2 ^ 16)
    else bit_or mask_bit 127 ∷ to_be 8 (payload % 2 ^ 64)

abbrev pub mask_bit : Option Key → ℕ
mask_bit none = 0
mask_bit (some key) = 0x80

abbrev pub mask_field : Option Key → Bytes
mask_field none = []
mask_field (some key) = key_bytes key

-- What `write` appends to `out`.
pub header_bytes : Header → Bool → ℕ → Bytes
header_bytes h rsv1 payload =
    first_byte h rsv1 ∷ (length_field (mask_bit h.mask) payload ++ mask_field h.mask)

unfoldable pub write : Header → Bool → ℕ → Bytes → Bytes
unfolding to_be first_byte length_field header_bytes
write h rsv1 payload out = out ++ header_bytes h rsv1 payload

-- `key[i & 3]`
pub key_at : Key → ℕ → ℕ
key_at k i =
    let j = bit_and i 3 in
    if j == 0 then k.k0 else if j == 1 then k.k1 else if j == 2 then k.k2 else k.k3

pub mask_from : ℕ → Bytes → Key → Bytes
mask_from i [] key = []
mask_from i (b ∷ bs) key = bit_xor b (key_at key i) ∷ mask_from (i + 1) bs key

unfoldable pub apply_mask : Bytes → Key → Bytes
unfolding key_at mask_from
apply_mask bytes key = mask_from 0 bytes key
