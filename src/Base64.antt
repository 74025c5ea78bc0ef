-- ===== src/Base64.antt =====
-- src/base64.rs: padded standard base64, and unpadded base64url. Text is its bytes.
pub mod RoundTrip
pub mod Decoding
pub mod Url
mod Runs
use Prim.Native.Char.{code}
use Prim.Native.String.{String}
use mathlib.Core.List.{reverse}
use wsblast.Common.{
  ℕ, zero, suc, ◌+◌, ◌-◌, ◌*◌, ◌/◌, ◌%◌, ◌^◌, bit_and, bit_or, Bool, true, false, not, ◌&&◌, ◌||◌,
  Option, none, some, ◌>>=◌, List, [], ◌∷◌, ◌++◌, Bytes, length, get_or, take, ltb, leb, ◌==◌,
  if◌then◌else◌, codes,
}

pub alphabet : Bytes
alphabet = codes "ABCDEFGHIJKLMNOPQRSTUVWXYZabcdefghijklmnopqrstuvwxyz0123456789+/"

pub url_alphabet : Bytes
url_alphabet = codes "ABCDEFGHIJKLMNOPQRSTUVWXYZabcdefghijklmnopqrstuvwxyz0123456789-_"

-- `slice.chunks(3)` and `slice.chunks(4)`: the last chunk may be shorter.
pub chunks_3 : Bytes → List Bytes
chunks_3 [] = []
chunks_3 (a ∷ b ∷ c ∷ rest) = (a ∷ b ∷ c ∷ []) ∷ chunks_3 rest
chunks_3 short = short ∷ []

pub chunks_4 : Bytes → List Bytes
chunks_4 [] = []
chunks_4 (a ∷ b ∷ c ∷ d ∷ rest) = (a ∷ b ∷ c ∷ d ∷ []) ∷ chunks_4 rest
chunks_4 short = short ∷ []

-- The 24 bits of a chunk, the first byte on top. The shifts stay inside a `u32`.
pub packed : Bytes → ℕ
packed chunk =
    let b1 = get_or chunk 1 0 in
    let b2 = get_or chunk 2 0 in bit_or (bit_or (get_or chunk 0 0 * 2 ^ 16) (b1 * 2 ^ 8)) b2

-- `alphabet[((n >> shift) & 63) as usize]`
pub symbol : Bytes → ℕ → ℕ → ℕ
symbol table n shift = get_or table (bit_and (n / 2 ^ shift) 63) 0

-- One round of the loop of `encode_with`.
pub encode_chunk : Bytes → Bool → Bytes → Bytes
encode_chunk table pad chunk =
    let n = packed chunk in
    let filler : Bytes = if pad then b'=' ∷ [] else [] in
    symbol table n 18
    ∷ symbol table n 12
    ∷ ((if ltb 1 (length chunk) then symbol table n 6 ∷ [] else filler)
        ++ (if ltb 2 (length chunk) then symbol table n 0 ∷ [] else filler))

pub encode_chunks : Bytes → Bool → List Bytes → Bytes
encode_chunks table pad [] = []
encode_chunks table pad (chunk ∷ chunks) =
    encode_chunk table pad chunk ++ encode_chunks table pad chunks

pub encode_with : Bytes → Bytes → Bool → Bytes
unfolding chunks_3 packed symbol encode_chunk encode_chunks
encode_with input table pad = encode_chunks table pad (chunks_3 input)

pub encode : Bytes → Bytes
unfolding encode_with alphabet
encode input = encode_with input alphabet true

pub encode_url : Bytes → Bytes
unfolding encode_with url_alphabet
encode_url input = encode_with input url_alphabet false

pub sextet : ℕ → Option ℕ
sextet c =
    if leb b'A' c && leb c b'Z'
    then some (c - b'A')
    else if leb b'a' c && leb c b'z'
    then some (c - b'a' + 26)
    else if leb b'0' c && leb c b'9'
    then some (c - b'0' + 52)
    else if c == b'+'
    then some 62
    else if c == b'/'
    then some 63
    else none

-- `take_while(|&&c| c == b'=').count()`
pub leading_padding : Bytes → ℕ
leading_padding [] = 0
leading_padding (c ∷ cs) = if c == b'=' then suc (leading_padding cs) else 0

-- `for &c in group { n = (n << 6) | sextet(c)?; }`, on a `u32`.
pub decode_sextets : ℕ → Bytes → Option ℕ
decode_sextets n [] = some n
decode_sextets n (c ∷ cs) = do v ← sextet c; decode_sextets (bit_or (n * 2 ^ 6 % 2 ^ 32) v) cs

-- One round of the loop of `decode`: the bytes that it pushes.
pub decode_group : Bool → Bytes → Option Bytes
decode_group last group =
    let padding = leading_padding (reverse group) in
    if ltb 2 padding || (ltb 0 padding && not last) then none else do
      sextets ← decode_sextets 0 (take (4 - padding) group)
      let n = sextets * 2 ^ (6 * padding) % 2 ^ 32
      some (
          n / 2 ^ 16 % 256
          ∷ ((if ltb padding 2 then n / 2 ^ 8 % 256 ∷ [] else [])
              ++ (if ltb padding 1 then n % 256 ∷ [] else [])))

pub decode_groups : ℕ → ℕ → List Bytes → Option Bytes
decode_groups groups index [] = some []
decode_groups groups index (group ∷ rest) = do
  bytes ← decode_group (index + 1 == groups) group
  out ← decode_groups groups (index + 1) rest
  some (bytes ++ out)

pub decode : Bytes → Option Bytes
unfolding chunks_4 sextet leading_padding decode_sextets decode_group decode_groups
decode input =
    if length input % 4 == 0 then decode_groups (length input / 4) 0 (chunks_4 input) else none
