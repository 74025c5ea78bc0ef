-- ===== src/Deflate/Header/RoundTrip.antt =====
-- deflate.rs: `Header::parse` on what `Header::write` wrote.
use wsblast.Common.{
  ℕ, zero, suc, ◌+◌, ◌-◌, ◌/◌, ◌%◌, ◌^◌, ◌<◌, ◌≡◌, refl, ap, bit_and, bit_or, Bool, true, false,
  not, ◌==◌, leb, inl, inr, [], ◌∷◌, ◌++◌, append_assoc, Bytes, length, length-append,
  take-length_append, drop-length_append, get_elem?, Option, none, some, Bool-cases, arith,
}
use wsblast.Deflate.Header.{
  Header, Key, key_bytes, slice?, to_be, extended_length, mask_key, parse, first_byte, length_field,
  mask_bit, mask_field, header_bytes,
}
use wsblast.Deflate.Header.Fields.{
  IsHeader, first_byte_read, second_byte_read, from_be-to_be_two, from_be-to_be_eight,
}

pub slice?-append :
    (front mid rest : Bytes) (from to : ℕ)
    → from ≡ length front
    → to ≡ length front + length mid
    → slice? (front ++ (mid ++ rest)) from to ≡ some mid
unfolding slice?
slice?-append front mid rest from to hf ht =
    let inside : leb to (length (front ++ (mid ++ rest))) ≡ true =
      ground (arith, length-append front (mid ++ rest), length-append mid rest) in
    let size : to - from ≡ length mid = omega arith in
    rw (inside, size, hf, drop-length_append front (mid ++ rest), take-length_append mid rest)

length-to_be : (n v : ℕ) → length (to_be n v) ≡ n
unfolding to_be
length-to_be zero v = refl
length-to_be (suc n) v =
    omega (arith, length-append (to_be n (v / 256)) (v % 256 ∷ []), length-to_be n (v / 256))

-- How the length field is laid out: the seven bits, and the bytes behind them.
record Layout (mask : Option Key) (payload : ℕ) : Type 0 where
  short : ℕ
  extra : Bytes
  short_small : short < 128
  field : length_field (mask_bit mask) payload ≡ bit_or (mask_bit mask) short ∷ extra
  reads :
      (b0 b1 : ℕ) (rest : Bytes)
      → extended_length (b0 ∷ b1 ∷ (extra ++ rest)) short ≡ some (length extra, payload)

layout : (mask : Option Key) (payload : ℕ) → payload < 2 ^ 64 → Layout mask payload
unfolding length_field extended_length slice?
layout mask payload h = elim (Bool-cases (leb payload 125)) [
  | inl tiny ↦ record {
    short = payload;
    extra = [];
    short_small = ground arith;
    field = ground arith;
    reads = λ b0 b1 rest. ground arith;
  }
  | inr more ↦ elim (Bool-cases (leb payload 0xffff)) [
    | inl small ↦ record {
      short = 126;
      extra = to_be 2 payload;
      short_small = omega arith;
      field = let fits : payload % 2 ^ 16 ≡ payload = ground arith in rw (more, small, fits);
      reads = λ b0 b1 rest. rw (
        slice?-append (b0 ∷ b1 ∷ []) (to_be 2 payload) rest 2 4 refl
            (omega (arith, length-to_be 2 payload)),
        length-to_be 2 payload,
        from_be-to_be_two payload (ground arith),
      );
    }
    | inr big ↦ record {
      short = 127;
      extra = to_be 8 payload;
      short_small = omega arith;
      field = let fits : payload % 2 ^ 64 ≡ payload = omega arith in rw (more, big, fits);
      reads = λ b0 b1 rest.
          rw
            (
              slice?-append (b0 ∷ b1 ∷ []) (to_be 8 payload) rest 2 10 refl
                  (omega (arith, length-to_be 8 payload)),
              length-to_be 8 payload,
              from_be-to_be_eight payload h,
            )
            (ap (λ (n : ℕ). some (8, n)) (omega arith));
    }
  ]
]

mask_key-mask_field :
    (mask : Option Key) (front rest : Bytes) (second : ℕ)
    → bit_and second 0x80 ≡ mask_bit mask
    → mask_key (front ++ (mask_field mask ++ rest)) second (length front)
      ≡ some (mask, length front + length (mask_field mask))
unfolding mask_key
mask_key-mask_field none front rest second h =
    let unmasked : (bit_and second 0x80 == 0) ≡ true = ground arith in
    rw unmasked (ap (λ (n : ℕ). some (none, n)) (omega arith))
mask_key-mask_field (some key) front rest second h =
    let masked : (bit_and second 0x80 == 0) ≡ false = ground arith in
    rw
      (
        masked,
        slice?-append front (key_bytes key) rest (length front) (length front + 4) refl
            (omega arith),
      )
      refl

parse_fields :
    (buf : Bytes) (b0 b1 extra payload len : ℕ) (mask : Option Key)
    → get_elem? buf 0 ≡ some b0
    → get_elem? buf 1 ≡ some b1
    → extended_length buf (bit_and b1 0x7f) ≡ some (extra, payload)
    → mask_key buf b1 (2 + extra) ≡ some (mask, len)
    → parse buf
      ≡ some (record {
        fin = not (bit_and b0 0x80 == 0);
        rsv1 = not (bit_and b0 0x40 == 0);
        rsv23 = bit_and b0 0x30;
        opcode = bit_and b0 0x0f;
        mask = mask;
        len = len;
        payload = payload;
      })
unfolding parse
parse_fields buf b0 b1 extra payload len mask e0 e1 e2 e3 = rw (e0, e1, e2, e3)

header_bytes-Layout :
    (h : Header) (rsv1 : Bool) (payload : ℕ) (l : Layout h.mask payload)
    → header_bytes h rsv1 payload
      ≡ (first_byte h rsv1 ∷ bit_or (mask_bit h.mask) l.short ∷ l.extra) ++ mask_field h.mask
unfolding header_bytes
header_bytes-Layout h rsv1 payload l = rw l.field refl

fields_read :
    (h : Header) (rsv1 : Bool) (payload len : ℕ)
    → IsHeader h
    → record h {
      fin = not (bit_and (first_byte h rsv1) 0x80 == 0);
      rsv1 = not (bit_and (first_byte h rsv1) 0x40 == 0);
      rsv23 = bit_and (first_byte h rsv1) 0x30;
      opcode = bit_and (first_byte h rsv1) 0x0f;
      len = len;
      payload = payload;
    }
      ≡ record h { rsv1 = rsv1; len = len; payload = payload }
fields_read h rsv1 payload len w =
    let r = first_byte_read h rsv1 w in cc (r.fin_bit, r.rsv1_bit, r.rsv_bits, r.opcode_bits)

-- A well-formed header that was written, with any flag, any length below 2^64 and any following
-- bytes, is read back: the same fields, the flag and length given, and the header's own size.
pub parse-header_bytes :
    (h : Header) (rsv1 : Bool) (payload : ℕ) (rest : Bytes)
    → IsHeader h
    → payload < 2 ^ 64
    → parse (header_bytes h rsv1 payload ++ rest)
      ≡ some
          (record h { rsv1 = rsv1; len = length (header_bytes h rsv1 payload); payload = payload })
parse-header_bytes h rsv1 payload rest w small =
    let l = layout h.mask payload small in
    let b0 = first_byte h rsv1 in
    let b1 = bit_or (mask_bit h.mask) l.short in
    let second = second_byte_read h.mask l.short l.short_small in
    let front : Bytes = b0 ∷ b1 ∷ l.extra in
    let len = length front + length (mask_field h.mask) in
    let start : 2 + length l.extra ≡ length front = omega arith in
    rw
      (
        header_bytes-Layout h rsv1 payload l,
        append_assoc l.extra (mask_field h.mask) rest,
        length-append front (mask_field h.mask),
        ← fields_read h rsv1 payload len w,
      )
      (parse_fields (front ++ (mask_field h.mask ++ rest)) b0 b1 (length l.extra) payload len h.mask
        refl refl (rw second.length_bits (l.reads b0 b1 (mask_field h.mask ++ rest)))
        (rw start (mask_key-mask_field h.mask front rest b1 second.masked_bit)))
