-- ===== src/Base64/Url.antt =====
-- base64.rs: `encode_url` against `encode`.
use wsblast.Common.{
  ℕ, ◌/◌, ◌%◌, ◌^◌, ◌≡◌, refl, sym, ◌∙◌, true, false, List, [], ◌∷◌, ◌++◌, Bytes, length, get_or,
  ltb, ◌==◌, ==_iff, if◌then◌else◌, arith, Bool-cases, inl, inr,
}
use wsblast.Common.Bits.{bit_and_mask}
use wsblast.Common.Tables.{passes, passes_everywhere}
use wsblast.Base64.{
  alphabet, url_alphabet, chunks_3, symbol, encode_chunk, encode_chunks, encode_with, encode,
  encode_url,
}
use wsblast.Base64.RoundTrip.{letter-ne-filler, symbol-letter}

-- RFC 4648, section 5: `-` and `_` stand for `+` and `/`.
abbrev pub url_symbol : ℕ → ℕ
url_symbol c = if c == b'+' then b'-' else if c == b'/' then b'_' else c

-- Text in the URL alphabet, with the padding left out.
pub to_url : Bytes → Bytes
to_url [] = []
to_url (c ∷ cs) = if c == b'=' then to_url cs else url_symbol c ∷ to_url cs

to_url-append : (xs ys : Bytes) → to_url (xs ++ ys) ≡ to_url xs ++ to_url ys
unfolding to_url
to_url-append [] ys = refl
to_url-append (x ∷ xs) ys = ground (arith, to_url-append xs ys)

alphabets_table :
    passes (λ i. get_or url_alphabet i 0 == url_symbol (get_or alphabet i 0)) 64 ≡ true
unfolding passes alphabet url_alphabet
alphabets_table = refl

url_symbol-symbol :
    (n shift : ℕ) → symbol url_alphabet n shift ≡ url_symbol (symbol alphabet n shift)
unfolding symbol
url_symbol-symbol n shift =
    rw (bit_and_mask 6 (n / 2 ^ shift))
      ((==_iff _ _).0 (passes_everywhere _ 64 _ alphabets_table (omega arith)))

to_url-symbol :
    (n shift : ℕ) (cs : Bytes)
    → to_url (symbol alphabet n shift ∷ cs) ≡ symbol url_alphabet n shift ∷ to_url cs
unfolding to_url
to_url-symbol n shift cs =
    rw (symbol-letter n shift, letter-ne-filler (n / 2 ^ shift % 64) (omega arith))
      (rw (url_symbol-symbol n shift, symbol-letter n shift) refl)

to_url-filler : (cs : Bytes) → to_url (b'=' ∷ cs) ≡ to_url cs
unfolding to_url
to_url-filler cs = refl

to_url-nil : to_url [] ≡ []
unfolding to_url
to_url-nil = refl

ruleset texts = (to_url-symbol, to_url-filler, to_url-nil)

to_url-encode_chunk :
    (chunk : Bytes)
    → to_url (encode_chunk alphabet true chunk) ≡ encode_chunk url_alphabet false chunk
unfolding encode_chunk
to_url-encode_chunk chunk = elim (Bool-cases (ltb 1 (length chunk))) [
  | inl two ↦ elim (Bool-cases (ltb 2 (length chunk))) [
    | inl three ↦ rw (two, three) (simp texts)
    | inr short ↦ rw (two, short) (simp texts)
  ]
  | inr one ↦ elim (Bool-cases (ltb 2 (length chunk))) [
    | inl three ↦ absurd (ground arith)
    | inr short ↦ rw (one, short) (simp texts)
  ]
]

to_url-encode_chunks :
    (chunks : List Bytes)
    → to_url (encode_chunks alphabet true chunks) ≡ encode_chunks url_alphabet false chunks
unfolding encode_chunks
to_url-encode_chunks [] = unfold to_url in refl
to_url-encode_chunks (chunk ∷ chunks) =
    to_url-append (encode_chunk alphabet true chunk) (encode_chunks alphabet true chunks)
    ∙ rw (to_url-encode_chunk chunk, to_url-encode_chunks chunks)

-- `encode_url` is `encode` with `-` and `_` for `+` and `/`, and with no padding.
pub encode_url-eq-to_url : (xs : Bytes) → encode_url xs ≡ to_url (encode xs)
unfolding encode_url encode encode_with
encode_url-eq-to_url xs = sym (to_url-encode_chunks (chunks_3 xs))
