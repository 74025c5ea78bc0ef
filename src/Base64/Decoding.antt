-- ===== src/Base64/Decoding.antt =====
-- base64.rs: what `decode` returns on any input that it accepts.
use wsblast.Common.{
  ℕ, suc, ◌+◌, ◌*◌, ◌/◌, ◌%◌, ◌<◌, ◌≤◌, ◌≡◌, refl, Bool, false, some, Option-cases, Bool-cases,
  List, [], ◌∷◌, ◌++◌, Bytes, IsByte, All, All-append, length, length-append, ◌==◌, ==_iff, arith,
  inl, inr,
}
use wsblast.Base64.{
  alphabet, chunks_3, chunks_4, encode_with, encode, decode_group, decode_groups, decode,
}
use wsblast.Base64.RoundTrip.{length-encode_chunks}

-- A group gives one to three bytes, and three unless it is the last.
record GroupShape (last : Bool) (bytes : Bytes) : Type 0 where
  range : All IsByte bytes
  some_byte : 1 ≤ length bytes
  at_most_three : length bytes ≤ 3
  three_before_last : last ≡ false → length bytes ≡ 3

decode_group_shape :
    (last : Bool) (group bytes : Bytes)
    → decode_group last group ≡ some bytes
    → GroupShape last bytes
unfolding decode_group
decode_group_shape last group bytes e = ground arith

-- What the groups from `index` on give together.
record GroupsShape (count : ℕ) (bytes : Bytes) : Type 0 where
  all_range : All IsByte bytes
  at_least : 3 * count ≤ length bytes + 2
  at_most : length bytes ≤ 3 * count

join_shape :
    (last : Bool) (count : ℕ) (front back : Bytes)
    → (0 < count → last ≡ false)
    → GroupShape last front
    → GroupsShape count back
    → GroupsShape (suc count) (front ++ back)
join_shape last count front back h f b = record {
  all_range = All-append IsByte front back f.range b.all_range;
  at_least = grind (arith, length-append front back, f.some_byte, f.three_before_last, b.at_least);
  at_most = omega (arith, length-append front back, f.at_most_three, b.at_most);
}

decode_groups_shape :
    (groups index : ℕ) (chunks : List Bytes) (bytes : Bytes)
    → index + length chunks ≡ groups
    → decode_groups groups index chunks ≡ some bytes
    → GroupsShape (length chunks) bytes
unfolding decode_groups
decode_groups_shape groups index [] bytes h e = ground arith
decode_groups_shape groups index (chunk ∷ chunks) bytes h e =
    elim (Option-cases (decode_group (index + 1 == groups) chunk)) [
      | inl failed ↦ absurd (ground arith)
      | inr (front, ok_front) ↦ elim (Option-cases (decode_groups groups (index + 1) chunks)) [
        | inl failed ↦ absurd (ground arith)
        | inr (back, ok_back) ↦
            let whole : bytes ≡ front ++ back = ground arith in
            rw whole (
              join_shape (index + 1 == groups) (length chunks) front back (λ more. ground arith)
                (decode_group_shape _ chunk front ok_front)
                (decode_groups_shape groups (index + 1) chunks back (omega arith) ok_back))
      ]
    ]

length-chunks_4 : (s : Bytes) → length s % 4 ≡ 0 → length (chunks_4 s) ≡ length s / 4
unfolding chunks_4
length-chunks_4 [] h = refl
length-chunks_4 (a ∷ []) h = absurd (omega arith)
length-chunks_4 (a ∷ b ∷ []) h = absurd (omega arith)
length-chunks_4 (a ∷ b ∷ c ∷ []) h = absurd (omega arith)
length-chunks_4 (a ∷ b ∷ c ∷ d ∷ s) h = omega (arith, length-chunks_4 s (omega arith))

length-chunks_3 : (xs : Bytes) → length (chunks_3 xs) ≡ (length xs + 2) / 3
unfolding chunks_3
length-chunks_3 [] = refl
length-chunks_3 (a ∷ []) = refl
length-chunks_3 (a ∷ b ∷ []) = refl
length-chunks_3 (a ∷ b ∷ c ∷ xs) = omega (arith, length-chunks_3 xs)

pub length-encode : (xs : Bytes) → length (encode xs) ≡ 4 * ((length xs + 2) / 3)
unfolding encode encode_with
length-encode xs = omega (arith, length-encode_chunks alphabet (chunks_3 xs), length-chunks_3 xs)

-- Whatever text `decode` accepts, its result is a list of bytes, and `encode` writes them in a text
-- of the same length.
pub decode_shape :
    (s xs : Bytes) → decode s ≡ some xs → All IsByte xs × (length (encode xs) ≡ length s)
unfolding decode
decode_shape s xs e = elim (Bool-cases (length s % 4 == 0)) [
  | inr odd ↦ cc (rw odd at e)
  | inl even ↦
      let whole : length s % 4 ≡ 0 = (==_iff (length s % 4) 0).0 even in
      let count = length-chunks_4 s whole in
      let shape =
        decode_groups_shape (length s / 4) 0 (chunks_4 s) xs (omega (arith, count))
          (rw even at e) in
      (
        shape.all_range,
        omega (arith, whole, length-encode xs, count, shape.at_least, shape.at_most),
      )
]
