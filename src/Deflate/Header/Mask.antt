-- ===== src/Deflate/Header/Mask.antt =====
-- deflate.rs: `apply_mask` adds and removes a frame's mask.
use wsblast.Common.{ℕ, ◌+◌, ◌≡◌, refl, ap₂, [], ◌∷◌, Bytes, IsByte, All, length, arith}
use wsblast.Common.Bits.{xor_cancel, xor_bound}
use wsblast.Deflate.Header.{Key, key_bytes, key_at, mask_from, apply_mask}

mask_from_twice :
    (i : ℕ) (bytes : Bytes) (key : Key) → mask_from i (mask_from i bytes key) key ≡ bytes
unfolding mask_from
mask_from_twice i [] key = refl
mask_from_twice i (b ∷ bs) key =
    ap₂ (λ x xs. x ∷ xs) (xor_cancel b (key_at key i)) (mask_from_twice (i + 1) bs key)

-- Masking twice with one key gives the payload back.
pub apply_mask_twice : (bytes : Bytes) (key : Key) → apply_mask (apply_mask bytes key) key ≡ bytes
unfolding apply_mask
apply_mask_twice bytes key = mask_from_twice 0 bytes key

length-mask_from :
    (i : ℕ) (bytes : Bytes) (key : Key) → length (mask_from i bytes key) ≡ length bytes
unfolding mask_from
length-mask_from i [] key = refl
length-mask_from i (b ∷ bs) key = omega (arith, length-mask_from (i + 1) bs key)

pub length-apply_mask : (bytes : Bytes) (key : Key) → length (apply_mask bytes key) ≡ length bytes
unfolding apply_mask
length-apply_mask bytes key = length-mask_from 0 bytes key

key_at-IsByte : (key : Key) (i : ℕ) → All IsByte (key_bytes key) → IsByte (key_at key i)
unfolding key_at
key_at-IsByte key i h = ground arith

mask_from-IsByte :
    (i : ℕ) (bytes : Bytes) (key : Key)
    → All IsByte (key_bytes key)
    → All IsByte bytes
    → All IsByte (mask_from i bytes key)
unfolding mask_from
mask_from-IsByte i [] key hk hb = tt
mask_from-IsByte i (b ∷ bs) key hk (h, hb) =
    (xor_bound 8 b (key_at key i) h (key_at-IsByte key i hk), mask_from-IsByte (i + 1) bs key hk hb)

-- A masked payload is made of bytes, if the payload and the key are.
pub apply_mask-IsByte :
    (bytes : Bytes) (key : Key)
    → All IsByte (key_bytes key)
    → All IsByte bytes
    → All IsByte (apply_mask bytes key)
unfolding apply_mask
apply_mask-IsByte bytes key = mask_from-IsByte 0 bytes key
