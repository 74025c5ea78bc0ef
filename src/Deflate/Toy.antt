-- ===== src/Deflate/Toy.antt =====
-- A compressor that stores its input, for the runs of deflate.rs at concrete inputs.
use wsblast.Common.{
  ℕ, zero, suc, ◌+◌, ◌-◌, ◌*◌, ◌≤◌, ◌≡◌, false, Option, none, some, [], ◌∷◌, ◌++◌, Bytes, length,
  length-append, take, drop, ltb, if◌then◌else◌, arith,
}
use wsblast.Common.Text.{text_eq}
use wsblast.Deflate.Codec.{Call, Flate, IsFlate, sync_tail}

unfoldable pub stored : Bytes → Bytes
stored input = elim input [ [] ↦ [] | x ∷ xs ↦ (x ∷ xs) ++ sync_tail ]

unfoldable pub restored : Bytes → Bytes
restored input =
    let body = length input - 4 in
    if text_eq (drop body input) sync_tail then take body input else input

-- One call reads all of its input, or fails where the room is too small.
unfoldable pub call_of : Bytes → Bytes → ℕ → ℕ → Option (Call ℕ)
call_of output input space s =
    if ltb space (length output)
    then none
    else some
        (record { consumed = length input; output = output; stream_end = false; after = suc s })

unfoldable pub toy_work : ℕ → ℕ
toy_work zero = 0
toy_work (suc n) = 2 * suc n + 4

abbrev pub toy : Flate
toy = record {
  Inflater = ℕ;
  Deflater = ℕ;
  new_inflater = 0;
  new_deflater = 0;
  reset_inflater = λ s. 0;
  reset_deflater = λ s. 0;
  decompress_vec = λ s input space. call_of (restored input) input space s;
  compress_vec = λ s input space. call_of (stored input) input space s;
  reserve = λ room len more. len + more;
  work = λ s n. toy_work n;
}

call_reads :
    (output input : Bytes) (space s : ℕ) (c : Call ℕ)
    → call_of output input space s ≡ some c
    → (c.consumed ≡ length input) × (c.output ≡ output)
unfolding call_of
call_reads output input space s c e = ground arith

stored_works :
    (input : Bytes) → toy_work 0 + length input + length (stored input) ≤ toy_work (length input)
unfolding toy_work stored
stored_works [] = omega arith
stored_works (x ∷ xs) = ground (arith, length-append (x ∷ xs) sync_tail)

pub toy-IsFlate : IsFlate toy
toy-IsFlate = record {
  inflater_reads = λ s input space c e.
      let r = call_reads (restored input) input space s c e in omega (arith, r.0);
  deflater_reads = λ s input space c e.
      let r = call_reads (stored input) input space s c e in omega (arith, r.0);
  deflater_works = λ s input space c e.
      let r = call_reads (stored input) input space s c e in
      let rest : length input - length input ≡ 0 = omega arith in
      rw (r.0, r.1, rest) (stored_works input);
}
