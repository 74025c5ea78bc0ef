-- ===== src/Deflate/Inbound/Plain.antt =====
-- deflate.rs: what `process_in` hands on.
use wsblast.Common.{
  ℕ, zero, suc, ◌+◌, ◌^◌, ◌<◌, ◌≡◌, ◌≢◌, refl, inl, inr, true, false, ◌||◌, Option-cases, Option,
  none, some, ◌++◌, append_assoc, Bytes, length, length-drop, drop, take, ◌==◌, arith,
}
use wsblast.Deflate.Header.{Header, header_bytes, write}
use wsblast.Deflate.Header
use wsblast.Deflate.Header.Fields.{IsHeader}
use wsblast.Deflate.Header.Prefix.{parse-Complete}
use wsblast.Deflate.Params.{Params}
use wsblast.Deflate.Codec.{ok, stuck, Flate, IsFlate, Outcome-cases, inflate}
use wsblast.Deflate.Codec.Inflating.{inflate-ne-stuck, inflate_size}
use wsblast.Deflate.Stream.{Stream, with_mask}
use wsblast.Deflate.Wire.{wire, wire_header, parse-wire, with_mask_twice, length-with_mask}
use wsblast.Deflate.Inbound.Loop.{process-unknown, process-declined, process-agreed}
use wsblast.Deflate.Inbound.{
  begin_message, finish_in, rewrite_in, frame_in, frames_in, process_frames_in,
}

module _ (f : Flate) where
  -- A part of a compressed message that inflates is handed on as one frame of the same kind, with
  -- the flag cleared, that parses, ends with its payload, and unmasks to what was inflated.
  pub rewrite_in-wire :
      (params : Params) (h : Header) (body payload : Bytes) (total : ℕ) (d : f.Inflater)
      (st : Stream f)
      → IsHeader h
      → inflate f h.fin (with_mask h.mask body) st.inflated st.inflater ≡ ok (payload, total, d)
      → let masked = with_mask h.mask payload in
        let frame = wire h false masked in
        (s : Stream f) × (rewrite_in f params h body st ≡ ok s)
        × (s.ready_in ≡ st.ready_in ++ frame)
        × (Header.parse frame ≡ some (wire_header h false masked))
        × (with_mask h.mask masked ≡ payload)
  unfolding rewrite_in finish_in write
  rewrite_in-wire params h body payload total d st w e =
      let (small, sum) =
        inflate_size f h.fin (with_mask h.mask body) st.inflated st.inflater payload total d e in
      let masked = with_mask h.mask payload in
      let short : length masked < 2 ^ 64 = omega (arith, length-with_mask h.mask payload) in
      (
        finish_in f params h payload total d st,
        rw e,
        append_assoc st.ready_in (header_bytes h false (length masked)) masked,
        parse-wire h false masked w short,
        with_mask_twice h.mask payload,
      )

  -- The first frame of a compressed message.
  pub frame_in_message :
      (params : Params) (h : Header) (frame : Bytes) (st : Stream f)
      → (h.opcode == 1 || h.opcode == 2) ≡ true
      → h.rsv1 ≡ true
      → frame_in f params h frame st
        ≡ rewrite_in f params h (drop h.len frame) (record st { inflating = true; inflated = 0 })
  unfolding frame_in
  frame_in_message params h frame st message compressed = ground arith

  pub rewrite_in_done :
      (params : Params) (h : Header) (body payload : Bytes) (total : ℕ) (i : f.Inflater)
      (st : Stream f)
      → inflate f h.fin (with_mask h.mask body) st.inflated st.inflater ≡ ok (payload, total, i)
      → rewrite_in f params h body st ≡ ok (finish_in f params h payload total i st)
  unfolding rewrite_in
  rewrite_in_done params h body payload total i st e = rw e

  pub finish_in-wire :
      (params : Params) (h : Header) (payload : Bytes) (total : ℕ) (i : f.Inflater) (st : Stream f)
      → (finish_in f params h payload total i st).ready_in
        ≡ st.ready_in ++ wire h false (with_mask h.mask payload)
  unfolding finish_in write
  finish_in-wire params h payload total i st =
      append_assoc st.ready_in (header_bytes h false (length (with_mask h.mask payload)))
        (with_mask h.mask payload)

module _ (f : Flate) (laws : IsFlate f) where
  frame_in-ne-stuck :
      (params : Params) (h : Header) (frame : Bytes) (st : Stream f)
      → frame_in f params h frame st ≢ stuck
  unfolding frame_in begin_message
  frame_in-ne-stuck params h frame st =
      let body = with_mask h.mask (drop h.len frame) in
      ground (
        arith,
        inflate-ne-stuck f laws h.fin body 0 st.inflater,
        inflate-ne-stuck f laws h.fin body st.inflated st.inflater,
      )

  frames_in-ne-stuck :
      (n : ℕ) (params : Params) (rest : Bytes) (st : Stream f)
      → length rest < n
      → frames_in f n params rest st ≢ stuck
  unfolding frames_in
  frames_in-ne-stuck zero params rest st h = elim h [ ]
  frames_in-ne-stuck (suc n) params rest st h = elim (Option-cases (Header.parse rest)) [
    | inl incomplete ↦ rw (incomplete, frames_in) (λ e. cc)
    | inr (hd, parsed) ↦
        let total = hd.len + hd.payload in
        let complete = parse-Complete rest hd parsed in
        elim (Outcome-cases (frame_in f params hd (take total rest) st)) [
          | inl (st', done) ↦
              rw (parsed, frames_in, done)
                (ground (
                  arith,
                  length-drop total rest,
                  complete.at_least_two,
                  frames_in-ne-stuck n params (drop total rest) st',
                ))
          | inr (inl (x, failed)) ↦ rw (parsed, frames_in, failed) (ground arith)
          | inr (inr ended) ↦ absurd (frame_in-ne-stuck params hd (take total rest) st ended)
        ]
  ]

  -- Rewriting inbound frames ends with flate2's laws: the loop over frames and the loops over flate2 inside it
  -- never run out of fuel, whatever the bytes.
  pub process_frames_in-ne-stuck : (st : Stream f) → process_frames_in f st ≢ stuck
  process_frames_in-ne-stuck st = by_agreement st.agreement refl
    where
      by_agreement :
          (g : Option (Option Params)) → st.agreement ≡ g → process_frames_in f st ≢ stuck
      by_agreement none e = rw (process-unknown f st e) (λ x. cc)
      by_agreement (some none) e = rw (process-declined f st e) (λ x. cc)
      by_agreement (some (some params)) e =
          rw (process-agreed f st params e)
            (frames_in-ne-stuck (suc (length st.raw_in)) params st.raw_in st (omega arith))
