-- ===== src/Base64/RoundTrip.antt =====
-- base64.rs: `decode` after `encode`.
use wsblast.Common.{
  ℕ, ◌+◌, ◌*◌, ◌/◌, ◌%◌, ◌^◌, ◌<◌, ◌≡◌, refl, ap, ◌∙◌, bit_or, Bool, true, false, not, Option, none,
  some, List, [], ◌∷◌, ◌++◌, Bytes, IsByte, All, length, length-append, get_or, ◌==◌, ltb, arith,
}
use wsblast.Common.Bits.{bit_or_shifted, bit_and_mask}
use wsblast.Common.Tables.{passes, passes_everywhere}
use wsblast.Base64.{
  alphabet, chunks_3, chunks_4, packed, symbol, encode_chunk, encode_chunks, encode_with, encode,
  sextet, leading_padding, decode_sextets, decode_group, decode_groups, decode,
}

-- The symbol of the value `i`.
pub letter : ℕ → ℕ
unfolding alphabet
letter i = get_or alphabet i 0

reads : ℕ → Option ℕ → Bool
reads i none = false
reads i (some v) = v == i

reads_sound : (i : ℕ) (o : Option ℕ) → reads i o ≡ true → o ≡ some i
unfolding reads
reads_sound i none e = cc
reads_sound i (some v) e = ground arith

reads_table : passes (λ i. reads i (sextet (letter i))) 64 ≡ true
unfolding passes reads sextet letter alphabet
reads_table = refl

differs_table : passes (λ i. not (letter i == b'=')) 64 ≡ true
unfolding passes letter alphabet
differs_table = refl

-- `sextet` reads the symbol of a value below 64 back, and no symbol is the filler.
pub sextet-letter : (i : ℕ) → i < 64 → sextet (letter i) ≡ some i
sextet-letter i h = reads_sound i _ (passes_everywhere _ 64 _ reads_table h)

pub letter-ne-filler : (i : ℕ) → i < 64 → (letter i == b'=') ≡ false
letter-ne-filler i h = ground (arith, passes_everywhere _ 64 _ differs_table h)

pub packed-eq :
    (a b c : ℕ)
    → IsByte a
    → IsByte b
    → IsByte c
    → bit_or (bit_or (a * 2 ^ 16) (b * 2 ^ 8)) c ≡ a * 65536 + b * 256 + c
packed-eq a b c ha hb hc =
    let top : bit_or (a * 2 ^ 16) (b * 2 ^ 8) ≡ (a * 256 + b) * 2 ^ 8 =
      omega (arith, bit_or_shifted 16 a (b * 2 ^ 8) (omega arith)) in
    rw top (omega (arith, bit_or_shifted 8 (a * 256 + b) c hc))

pub symbol-letter : (n shift : ℕ) → symbol alphabet n shift ≡ letter (n / 2 ^ shift % 64)
unfolding symbol letter
symbol-letter n shift = rw (bit_and_mask 6 (n / 2 ^ shift))

pub decode_sextets-letter :
    (n i : ℕ) (cs : Bytes)
    → n < 2 ^ 18
    → i < 64
    → decode_sextets n (letter i ∷ cs) ≡ decode_sextets (n * 64 + i) cs
unfolding decode_sextets
decode_sextets-letter n i cs h k =
    let e : n * 2 ^ 6 % 2 ^ 32 ≡ n * 2 ^ 6 = omega arith in
    rw (sextet-letter i k, e, bit_or_shifted 6 n i k)

-- What the loop over a group's symbols computes.
read_two :
    (i j : ℕ) (cs : Bytes)
    → i < 64
    → j < 64
    → decode_sextets 0 (letter i ∷ letter j ∷ cs) ≡ decode_sextets (i * 64 + j) cs
read_two i j cs hi hj =
    decode_sextets-letter 0 i (letter j ∷ cs) (omega arith) hi
    ∙ decode_sextets-letter (0 * 64 + i) j cs (omega arith) hj
    ∙ ap (λ n. decode_sextets (n * 64 + j) cs) (omega arith)

-- Four symbols, three, and two, as groups.
module _ (i j : ℕ) (hi : i < 64) (hj : j < 64) where
  pub decode_two :
      decode_group true (letter i ∷ letter j ∷ b'=' ∷ b'=' ∷ [])
      ≡ some ((i * 64 + j) / 16 % 256 ∷ [])
  unfolding decode_group leading_padding
  decode_two =
      rw (letter-ne-filler j hj, read_two i j [] hi hj) (unfold decode_sextets in ground arith)

  module _ (k : ℕ) (hk : k < 64) where
    pub decode_three :
        decode_group true (letter i ∷ letter j ∷ letter k ∷ b'=' ∷ [])
        ≡ some (((i * 64 + j) * 64 + k) / 1024 % 256 ∷ ((i * 64 + j) * 64 + k) / 4 % 256 ∷ [])
    unfolding decode_group leading_padding
    decode_three =
        rw
          (
            letter-ne-filler k hk,
            read_two i j (letter k ∷ []) hi hj,
            decode_sextets-letter (i * 64 + j) k [] (omega arith) hk,
          )
          (unfold decode_sextets in ground arith)

    pub decode_four :
        (last : Bool) (l : ℕ)
        → l < 64
        → decode_group last (letter i ∷ letter j ∷ letter k ∷ letter l ∷ [])
          ≡ some (
              (((i * 64 + j) * 64 + k) * 64 + l) / 65536 % 256
              ∷ (((i * 64 + j) * 64 + k) * 64 + l) / 256 % 256
              ∷ (((i * 64 + j) * 64 + k) * 64 + l) % 256
              ∷ [])
    unfolding decode_group leading_padding
    decode_four last l hl =
        rw
          (
            letter-ne-filler l hl,
            read_two i j (letter k ∷ letter l ∷ []) hi hj,
            decode_sextets-letter (i * 64 + j) k (letter l ∷ []) (omega arith) hk,
            decode_sextets-letter ((i * 64 + j) * 64 + k) l [] (omega arith) hl,
          )
          (unfold decode_sextets in ground arith)

-- A chunk's symbols decode to the chunk: three bytes anywhere, two or one in the last group.
module _ (a b c : ℕ) (ha : IsByte a) (hb : IsByte b) (hc : IsByte c) where
  chunk_three :
      (last : Bool)
      → decode_group last (encode_chunk alphabet true (a ∷ b ∷ c ∷ [])) ≡ some (a ∷ b ∷ c ∷ [])
  unfolding encode_chunk packed
  chunk_three last =
      let n = a * 65536 + b * 256 + c in
      rw
        (
          packed-eq a b c ha hb hc,
          symbol-letter n 18,
          symbol-letter n 12,
          symbol-letter n 6,
          symbol-letter n 0,
          decode_four (n / 2 ^ 18 % 64) (n / 2 ^ 12 % 64) (omega arith) (omega arith)
              (n / 2 ^ 6 % 64) (omega arith) last (n / 2 ^ 0 % 64) (omega arith),
        )
        (ground arith)

chunk_two :
    (a b : ℕ)
    → IsByte a
    → IsByte b
    → decode_group true (encode_chunk alphabet true (a ∷ b ∷ [])) ≡ some (a ∷ b ∷ [])
unfolding encode_chunk packed
chunk_two a b ha hb =
    let n = a * 65536 + b * 256 + 0 in
    rw
      (
        packed-eq a b 0 ha hb (omega arith),
        symbol-letter n 18,
        symbol-letter n 12,
        symbol-letter n 6,
        decode_three (n / 2 ^ 18 % 64) (n / 2 ^ 12 % 64) (omega arith) (omega arith)
            (n / 2 ^ 6 % 64) (omega arith),
      )
      (ground arith)

chunk_one :
    (a : ℕ) → IsByte a → decode_group true (encode_chunk alphabet true (a ∷ [])) ≡ some (a ∷ [])
unfolding encode_chunk packed
chunk_one a ha =
    let n = a * 65536 + 0 * 256 + 0 in
    rw
      (
        packed-eq a 0 0 ha (omega arith) (omega arith),
        symbol-letter n 18,
        symbol-letter n 12,
        decode_two (n / 2 ^ 18 % 64) (n / 2 ^ 12 % 64) (omega arith) (omega arith),
      )
      (ground arith)

three_or_more :
    (a b c : ℕ) (more : Bytes)
    → (ltb 1 (length (a ∷ b ∷ c ∷ more)) ≡ true) × (ltb 2 (length (a ∷ b ∷ c ∷ more)) ≡ true)
three_or_more a b c more = (ground arith, ground arith)

-- With padding every chunk gives four symbols, one group.
pub chunks_4-encode_chunk :
    (table chunk rest : Bytes)
    → chunks_4 (encode_chunk table true chunk ++ rest)
      ≡ encode_chunk table true chunk ∷ chunks_4 rest
unfolding chunks_4 encode_chunk
chunks_4-encode_chunk table [] rest = refl
chunks_4-encode_chunk table (a ∷ []) rest = refl
chunks_4-encode_chunk table (a ∷ b ∷ []) rest = refl
chunks_4-encode_chunk table (a ∷ b ∷ c ∷ more) rest =
    let (second, third) = three_or_more a b c more in rw (second, third)

length-encode_chunk : (table chunk : Bytes) → length (encode_chunk table true chunk) ≡ 4
unfolding encode_chunk
length-encode_chunk table [] = refl
length-encode_chunk table (a ∷ []) = refl
length-encode_chunk table (a ∷ b ∷ []) = refl
length-encode_chunk table (a ∷ b ∷ c ∷ more) =
    let (second, third) = three_or_more a b c more in rw (second, third)

pub length-encode_chunks :
    (table : Bytes) (chunks : List Bytes)
    → length (encode_chunks table true chunks) ≡ 4 * length chunks
unfolding encode_chunks
length-encode_chunks table [] = refl
length-encode_chunks table (chunk ∷ chunks) = omega (
  arith,
  length-append (encode_chunk table true chunk) (encode_chunks table true chunks),
  length-encode_chunk table chunk,
  length-encode_chunks table chunks,
)

-- The loop of `decode`, from any group on.
decode_groups-encode_chunks :
    (groups index : ℕ) (xs : Bytes)
    → All IsByte xs
    → index + length (chunks_3 xs) ≡ groups
    → decode_groups groups index (chunks_4 (encode_chunks alphabet true (chunks_3 xs))) ≡ some xs
unfolding decode_groups chunks_3 chunks_4 encode_chunks
decode_groups-encode_chunks groups index [] h e = refl
decode_groups-encode_chunks groups index (a ∷ []) h e =
    let final : (index + 1 == groups) ≡ true = ground arith in
    rw (chunks_4-encode_chunk alphabet (a ∷ []) [], final, chunk_one a h.0) refl
decode_groups-encode_chunks groups index (a ∷ b ∷ []) h e =
    let final : (index + 1 == groups) ≡ true = ground arith in
    rw (chunks_4-encode_chunk alphabet (a ∷ b ∷ []) [], final, chunk_two a b h.0 h.1.0) refl
decode_groups-encode_chunks groups index (a ∷ b ∷ c ∷ xs) h e =
    let rest = encode_chunks alphabet true (chunks_3 xs) in
    rw
      (
        chunks_4-encode_chunk alphabet (a ∷ b ∷ c ∷ []) rest,
        chunk_three a b c h.0 h.1.0 h.1.1.0 (index + 1 == groups),
        decode_groups-encode_chunks groups (index + 1) xs h.1.1.1 (omega arith),
      )
      refl

-- `decode` returns every byte string that `encode` was given.
pub decode-encode : (xs : Bytes) → All IsByte xs → decode (encode xs) ≡ some xs
unfolding decode encode encode_with
decode-encode xs h =
    let size = length-encode_chunks alphabet (chunks_3 xs) in
    let whole : (length (encode_chunks alphabet true (chunks_3 xs)) % 4 == 0) ≡ true =
      ground (arith, size) in
    rw whole (decode_groups-encode_chunks _ 0 xs h (omega (arith, size)))
