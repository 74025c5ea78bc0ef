-- ===== src/Deflate/Wire.antt =====
-- deflate.rs: a complete frame, as `Header::write` and the payload behind it make one.
use wsblast.Common.{
  ℕ, zero, suc, ◌+◌, ◌^◌, ◌≤◌, ◌<◌, ◌≡◌, refl, Bool, false, Option, none, some, [], ◌∷◌, ◌++◌,
  Bytes, length, length-append, take, drop, drop-length_append, ltb, arith,
}
use wsblast.Deflate.Header.{Header, Key, header_bytes, write, parse}
use wsblast.Deflate.Header.Fields.{IsHeader}
use wsblast.Deflate.Header.RoundTrip.{parse-header_bytes}
use wsblast.Deflate.Header.Mask.{apply_mask_twice, length-apply_mask}
use wsblast.Deflate.Stream.{with_mask}

-- The frame of `h`'s kind with a flag and a body.
abbrev pub wire : Header → Bool → Bytes → Bytes
wire h rsv1 body = header_bytes h rsv1 (length body) ++ body

-- The header that such a frame has.
abbrev pub wire_header : Header → Bool → Bytes → Header
wire_header h rsv1 body = record h {
  rsv1 = rsv1;
  len = length (header_bytes h rsv1 (length body));
  payload = length body;
}

pub parse-wire :
    (h : Header) (rsv1 : Bool) (body : Bytes)
    → IsHeader h
    → length body < 2 ^ 64
    → parse (wire h rsv1 body) ≡ some (wire_header h rsv1 body)
parse-wire h rsv1 body w small = parse-header_bytes h rsv1 (length body) body w small

pub length-wire :
    (h : Header) (rsv1 : Bool) (body : Bytes)
    → length (wire h rsv1 body) ≡ length (header_bytes h rsv1 (length body)) + length body
length-wire h rsv1 body = length-append (header_bytes h rsv1 (length body)) body

take-all : (xs : Bytes) (n : ℕ) → length xs ≤ n → take n xs ≡ xs
take-all [] zero h = refl
take-all [] (suc n) h = refl
take-all (x ∷ xs) zero h = elim h [ ]
take-all (x ∷ xs) (suc n) h = rw (take-all xs n (omega arith))

drop-all : (xs : Bytes) (n : ℕ) → length xs ≤ n → drop n xs ≡ []
drop-all [] zero h = refl
drop-all [] (suc n) h = refl
drop-all (x ∷ xs) zero h = elim h [ ]
drop-all (x ∷ xs) (suc n) h = drop-all xs n (omega arith)

-- The frame ends where its header says.
module _ (h : Header) (rsv1 : Bool) (body : Bytes) where
  abbrev total : ℕ
  total = (wire_header h rsv1 body).len + (wire_header h rsv1 body).payload

  pub take-wire : take total (wire h rsv1 body) ≡ wire h rsv1 body
  take-wire = take-all (wire h rsv1 body) total (omega (arith, length-wire h rsv1 body))

  pub drop-wire : drop total (wire h rsv1 body) ≡ []
  drop-wire = drop-all (wire h rsv1 body) total (omega (arith, length-wire h rsv1 body))

  pub wire_complete : ltb (length (wire h rsv1 body)) total ≡ false
  wire_complete = ground (arith, length-wire h rsv1 body)

  pub drop-wire_header : drop (wire_header h rsv1 body).len (wire h rsv1 body) ≡ body
  drop-wire_header = drop-length_append (header_bytes h rsv1 (length body)) body

pub with_mask_twice :
    (mask : Option Key) (bytes : Bytes) → with_mask mask (with_mask mask bytes) ≡ bytes
with_mask_twice none bytes = refl
with_mask_twice (some key) bytes = apply_mask_twice bytes key

pub length-with_mask :
    (mask : Option Key) (bytes : Bytes) → length (with_mask mask bytes) ≡ length bytes
length-with_mask none bytes = refl
length-with_mask (some key) bytes = length-apply_mask bytes key

-- The flag, the length and the payload of a header do not show in the frames written for it.
pub wire-wire_header :
    (h : Header) (rsv1 : Bool) (body x : Bytes)
    → wire (wire_header h rsv1 body) false x ≡ wire h false x
unfolding write
wire-wire_header h rsv1 body x = refl
