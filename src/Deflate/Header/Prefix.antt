-- ===== src/Deflate/Header/Prefix.antt =====
-- deflate.rs: `Header::parse` looks at the header's own bytes and at nothing behind them.
use wsblast.Common.{
  ℕ, zero, suc, ◌+◌, ◌-◌, ◌≤◌, ◌<◌, ◌≡◌, refl, ap, bit_and, true, not, ◌==◌, leb, [], ◌∷◌, ◌++◌,
  Bytes, length, length-append, take, drop, get_elem?, Option, some, Bool-cases, bind_some,
  bind_cases, inl, inr, arith,
}
use wsblast.Deflate.Header.{Header, Key, slice?, key_of, extended_length, mask_key, parse}

take-drop_append :
    (from n : ℕ) (buf more : Bytes)
    → from + n ≤ length buf
    → take n (drop from (buf ++ more)) ≡ take n (drop from buf)
take-drop_append from zero buf more h = refl
take-drop_append zero (suc n) [] more h = absurd (omega arith)
take-drop_append zero (suc n) (b ∷ buf) more h =
    ap (λ (t : Bytes). b ∷ t) (take-drop_append zero n buf more (omega arith))
take-drop_append (suc from) (suc n) [] more h = absurd (omega arith)
take-drop_append (suc from) (suc n) (b ∷ buf) more h =
    take-drop_append from (suc n) buf more (omega arith)

-- A slice that is there ends inside the buffer, and stays when bytes are added behind.
slice?_inside :
    (buf more : Bytes) (from to : ℕ) (s : Bytes)
    → from ≤ to
    → slice? buf from to ≡ some s
    → (to ≤ length buf) × (slice? (buf ++ more) from to ≡ some s)
unfolding slice?
slice?_inside buf more from to s h e = elim (Bool-cases (leb to (length buf))) [
  | inr outside ↦ cc (rw outside at e)
  | inl inside ↦
      let within : to ≤ length buf = ground arith in
      let still : leb to (length (buf ++ more)) ≡ true = ground (arith, length-append buf more) in
      let e' = rw inside at e in
      (within, rw (still, take-drop_append from (to - from) buf more (omega arith)) e')
]

get_elem?_inside :
    (buf more : Bytes) (i b : ℕ)
    → get_elem? buf i ≡ some b
    → (i < length buf) × (get_elem? (buf ++ more) i ≡ some b)
get_elem?_inside [] more i b e = cc
get_elem?_inside (x ∷ buf) more zero b e = (omega arith, e)
get_elem?_inside (x ∷ buf) more (suc i) b e =
    let (lt, same) = get_elem?_inside buf more i b e in (omega arith, same)

extended_length_inside :
    (buf more : Bytes) (short extra payload : ℕ)
    → extended_length buf short ≡ some (extra, payload)
    → 2 ≤ length buf
    → (2 + extra ≤ length buf)
      × (extra ≤ 8)
      × (extended_length (buf ++ more) short ≡ some (extra, payload))
unfolding extended_length
extended_length_inside buf more short extra payload e h = elim (Bool-cases (short == 126)) [
  | inl two ↦
      let (s, found, e') = bind_some (slice? buf 2 4) _ (rw two at e) in
      let (within, still) = slice?_inside buf more 2 4 s (omega arith) found in
      let size : 2 ≡ extra = ground arith in (omega arith, omega arith, rw (two, still) e')
  | inr other ↦ elim (Bool-cases (short == 127)) [
    | inl eight ↦
        let (s, found, e') = bind_some (slice? buf 2 10) _ (rw eight at (rw other at e)) in
        let (within, still) = slice?_inside buf more 2 10 s (omega arith) found in
        let size : 8 ≡ extra = ground arith in
        (omega arith, omega arith, rw (other, eight, still) e')
    | inr none_more ↦
        let size : 0 ≡ extra = ground arith in
        let e' : ◌≡◌ {A = Option (ℕ × ℕ)} (some (0, short)) (some (extra, payload)) =
          rw none_more at (rw other at e) in
        (omega arith, omega arith, rw (other, none_more) e')
  ]
]

mask_key_inside :
    (buf more : Bytes) (second len : ℕ) (mask : Option Key) (len' : ℕ)
    → mask_key buf second len ≡ some (mask, len')
    → len ≤ length buf
    → (len ≤ len')
      × (len' ≤ len + 4)
      × (len' ≤ length buf)
      × (mask_key (buf ++ more) second len ≡ some (mask, len'))
unfolding mask_key
mask_key_inside buf more second len mask len' e h = elim (Bool-cases (bit_and second 0x80 == 0)) [
  | inl unmasked ↦
      let same : len ≡ len' = ground arith in
      (omega arith, omega arith, omega arith, rw unmasked (rw unmasked at e))
  | inr masked ↦
      let (s, found, e') = bind_some (slice? buf len (len + 4)) _ (rw masked at e) in
      let (key, made, e'') = bind_some (key_of s) _ e' in
      let (within, still) = slice?_inside buf more len (len + 4) s (omega arith) found in
      let size : len + 4 ≡ len' = ground arith in
      (omega arith, omega arith, omega arith, rw (masked, still, made) e'')
]

-- The steps of a parse that succeeds.
record Parsed (buf : Bytes) (h : Header) : Type 0 where
  b0 : ℕ
  b1 : ℕ
  extra : ℕ
  first : get_elem? buf 0 ≡ some b0
  second : get_elem? buf 1 ≡ some b1
  extended : extended_length buf (bit_and b1 0x7f) ≡ some (extra, h.payload)
  key : mask_key buf b1 (2 + extra) ≡ some (h.mask, h.len)
  flags : (h.fin ≡ not (bit_and b0 0x80 == 0)) × (h.rsv1 ≡ not (bit_and b0 0x40 == 0))
  nibbles : (h.rsv23 ≡ bit_and b0 0x30) × (h.opcode ≡ bit_and b0 0x0f)

parse-Parsed : (buf : Bytes) (h : Header) → parse buf ≡ some h → Parsed buf h
unfolding parse
parse-Parsed buf h e = bind_cases (get_elem? buf 0) _ e λ b0 e0 r0.
    bind_cases (get_elem? buf 1) _ r0 λ b1 e1 r1.
      bind_cases (extended_length buf (bit_and b1 0x7f)) _ r1 λ ep e2 r2.
        bind_cases (mask_key buf b1 (2 + ep.0)) _ r2 λ ml e3 r3. record {
          b0 = b0;
          b1 = b1;
          extra = ep.0;
          first = e0;
          second = e1;
          extended = cc;
          key = cc;
          flags = (cc, cc);
          nibbles = (cc, cc);
        }

-- What `parse` needs and what it leaves alone.
pub record Complete (buf : Bytes) (h : Header) : Type 0 where
  pub at_least_two : 2 ≤ h.len
  pub at_most_fourteen : h.len ≤ 14
  pub within : h.len ≤ length buf
  pub with_more : (more : Bytes) → parse (buf ++ more) ≡ some h

Parsed-Complete : (buf : Bytes) (h : Header) → Parsed buf h → Complete buf h
unfolding parse
Parsed-Complete buf h p =
    let (two, _) = get_elem?_inside buf [] 1 p.b1 p.second in
    let (room, short, _) =
      extended_length_inside buf [] (bit_and p.b1 0x7f) p.extra h.payload p.extended two in
    let (low, high, inside, _) =
      mask_key_inside buf [] p.b1 (2 + p.extra) h.mask h.len p.key room in
    record {
      at_least_two = omega arith;
      at_most_fourteen = omega arith;
      within = omega arith;
      with_more = λ more.
          let (_, s0) = get_elem?_inside buf more 0 p.b0 p.first in
          let (_, s1) = get_elem?_inside buf more 1 p.b1 p.second in
          let (_, _, s2) =
            extended_length_inside buf more (bit_and p.b1 0x7f) p.extra h.payload p.extended two in
          let (_, _, _, s3) = mask_key_inside buf more p.b1 (2 + p.extra) h.mask h.len p.key room in
          rw (s0, s1, s2, s3) (cc (p.flags.0, p.flags.1, p.nibbles.0, p.nibbles.1));
    }

-- A header that parses has 2 to 14 bytes, all of them in the buffer, and parses to the same fields
-- when more bytes have arrived behind.
pub parse-Complete : (buf : Bytes) (h : Header) → parse buf ≡ some h → Complete buf h
parse-Complete buf h e = Parsed-Complete buf h (parse-Parsed buf h e)
