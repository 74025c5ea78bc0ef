-- ===== src/Deflate/Codec/Inflating.antt =====
-- deflate.rs: `inflate` ends, and keeps a message under its limit.
use wsblast.Common.{
  ℕ, zero, suc, ◌+◌, ◌-◌, ◌≤◌, ◌<◌, ◌≡◌, ◌≢◌, Bool, Option-cases, inl, inr, [], ◌++◌, Bytes, length,
  length-append, length-drop, drop, arith,
}
use wsblast.Deflate.Codec.{
  Flate, IsFlate, ok, stuck, max_message, inflate_room, inflate_input, inflate_loop, inflate,
}

module _ (f : Flate) (laws : IsFlate f) where
  inflate_loop-ne-stuck :
      (fuel : ℕ) (input : Bytes) (consumed : ℕ) (out : Bytes) (room inflated : ℕ) (s : f.Inflater)
      → consumed ≤ length input
      → (length input - consumed) + (max_message - inflated) < fuel
      → inflate_loop f fuel input consumed out room inflated s ≢ stuck
  unfolding inflate_loop
  inflate_loop-ne-stuck zero input consumed out room inflated s h m = elim m [ ]
  inflate_loop-ne-stuck (suc fuel) input consumed out room inflated s h m =
      let room' = inflate_room f (length input) (length out) room in
      elim (Option-cases (f.decompress_vec s (drop consumed input) (room' - length out))) [
        | inl failed ↦ rw (failed, inflate_loop) (λ e. cc)
        | inr (c, called) ↦
            let reads : c.consumed ≤ length input - consumed = omega (
              arith,
              laws.inflater_reads s (drop consumed input) _ c called,
              length-drop consumed input,
            ) in
            rw (called, inflate_loop)
              (ground (
                arith,
                inflate_loop-ne-stuck fuel input (consumed + c.consumed) (out ++ c.output) room'
                    (inflated + length c.output) c.after,
              ))
      ]

  -- `inflate` ends with flate2's laws: its loop makes progress in every round but the last.
  pub inflate-ne-stuck :
      (last : Bool) (scratch : Bytes) (inflated : ℕ) (s : f.Inflater)
      → inflate f last scratch inflated s ≢ stuck
  unfolding inflate
  inflate-ne-stuck last scratch inflated s =
      let input = inflate_input last scratch in
      inflate_loop-ne-stuck (suc (length input + max_message)) input 0 [] 0 inflated s (omega arith)
        (omega arith)

module _ (f : Flate) where
  inflate_loop_size :
      (fuel : ℕ) (input : Bytes) (consumed : ℕ) (out : Bytes) (room inflated : ℕ) (s : f.Inflater)
      (payload : Bytes) (total : ℕ) (s' : f.Inflater)
      → inflate_loop f fuel input consumed out room inflated s ≡ ok (payload, total, s')
      → (total ≤ max_message) × (total + length out ≡ inflated + length payload)
  unfolding inflate_loop
  inflate_loop_size zero input consumed out room inflated s payload total s' e = cc
  inflate_loop_size (suc fuel) input consumed out room inflated s payload total s' e =
      let room' = inflate_room f (length input) (length out) room in
      elim (Option-cases (f.decompress_vec s (drop consumed input) (room' - length out))) [
        | inl failed ↦ cc (rw (failed, inflate_loop) at e)
        | inr (c, called) ↦ ground (
          arith,
          length-append out c.output,
          inflate_loop_size fuel input (consumed + c.consumed) (out ++ c.output) room'
              (inflated + length c.output) c.after payload total s',
        )
      ]

  -- A payload that `inflate` returns keeps its message within 64 MiB, and the count of the message's
  -- size grows by the payload's.
  pub inflate_size :
      (last : Bool) (scratch : Bytes) (inflated : ℕ) (s : f.Inflater) (payload : Bytes) (total : ℕ)
      (s' : f.Inflater)
      → inflate f last scratch inflated s ≡ ok (payload, total, s')
      → (total ≤ max_message) × (total ≡ inflated + length payload)
  unfolding inflate
  inflate_size last scratch inflated s payload total s' e =
      let input = inflate_input last scratch in
      let bounds : (total ≤ max_message) × (total + 0 ≡ inflated + length payload) =
        inflate_loop_size (suc (length input + max_message)) input 0 [] 0 inflated s payload total
          s' e in
      (bounds.0, omega arith)
