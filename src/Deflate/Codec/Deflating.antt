-- ===== src/Deflate/Codec/Deflating.antt =====
-- deflate.rs: `deflate` ends.
use wsblast.Common.{
  ℕ, zero, suc, ◌+◌, ◌-◌, ◌/◌, ◌≤◌, ◌<◌, ◌≡◌, ◌≢◌, Option-cases, inl, inr, [], ◌++◌, Bytes, length,
  length-drop, drop, arith,
}
use wsblast.Deflate.Codec.{Flate, IsFlate, stuck, deflate_room, deflate_loop, deflate}

module _ (f : Flate) (laws : IsFlate f) where
  deflate_loop-ne-stuck :
      (fuel : ℕ) (input : Bytes) (consumed : ℕ) (out : Bytes) (room : ℕ) (s : f.Deflater)
      → consumed ≤ length input
      → f.work s (length input - consumed) < fuel
      → deflate_loop f fuel input consumed out room s ≢ stuck
  unfolding deflate_loop
  deflate_loop-ne-stuck zero input consumed out room s h m = elim m [ ]
  deflate_loop-ne-stuck (suc fuel) input consumed out room s h m =
      let room' = deflate_room f (length input) (length out) room in
      elim (Option-cases (f.compress_vec s (drop consumed input) (room' - length out))) [
        | inl failed ↦ rw (failed, deflate_loop) (λ e. cc)
        | inr (c, called) ↦
            let size = length-drop consumed input in
            let reads : c.consumed ≤ length input - consumed =
              omega (arith, laws.deflater_reads s (drop consumed input) _ c called, size) in
            let left : length input - consumed - c.consumed
                ≡ length input - (consumed + c.consumed) =
              omega arith in
            let works : f.work c.after (length input - (consumed + c.consumed))
                  + c.consumed
                  + length c.output
                ≤ f.work s (length input - consumed) =
              rw (size, left) at (laws.deflater_works s (drop consumed input) _ c called) in
            rw (called, deflate_loop)
              (ground (
                arith,
                deflate_loop-ne-stuck fuel input (consumed + c.consumed) (out ++ c.output) room'
                    c.after,
              ))
      ]

  -- `deflate` ends with flate2's laws, which bound what a deflater has to read and write.
  pub deflate-ne-stuck : (input : Bytes) (s : f.Deflater) → deflate f input s ≢ stuck
  unfolding deflate
  deflate-ne-stuck input s = ground (
    arith,
    deflate_loop-ne-stuck (suc (f.work s (length input))) input 0 []
        (f.reserve 0 0 (length input / 2 + 64)) s,
  )
