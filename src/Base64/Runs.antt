-- ===== src/Base64/Runs.antt =====
-- Test vectors of base64.rs, and the theorems at concrete inputs.
use wsblast.Common.{◌≡◌, refl, some, none, [], ◌∷◌, codes, arith}
use wsblast.Base64.{encode, encode_url, decode}
use wsblast.Base64.RoundTrip.{decode-encode}

encode_fooba : encode (codes "fooba") ≡ codes "Zm9vYmE="
unfolding encode
encode_fooba = refl

encode_url_fooba : encode_url (codes "fooba") ≡ codes "Zm9vYmE"
unfolding encode_url
encode_url_fooba = refl

decode_high : decode (codes "AP/+gA==") ≡ some (0x00 ∷ 0xff ∷ 0xfe ∷ 0x80 ∷ [])
unfolding decode
decode_high = refl

decode_misplaced : decode (codes "Zg==Zg==") ≡ none
unfolding decode
decode_misplaced = refl

decode-encode_example : decode (encode (codes "fooba")) ≡ some (codes "fooba")
decode-encode_example = decode-encode (codes "fooba") (omega arith)

-- A last symbol with low bits set, which `encode` never writes, is accepted.
decode_padded_bits : decode (codes "Zh==") ≡ some (codes "f")
unfolding decode
decode_padded_bits = refl
