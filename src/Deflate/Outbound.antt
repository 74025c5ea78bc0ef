-- ===== src/Deflate/Outbound.antt =====
-- src/deflate.rs: `process_out`, which rewrites the complete outbound frames.
pub mod RoundTrip
use wsblast.Common.{
  ℕ, zero, suc, ◌+◌, ◌*◌, ◌%◌, ◌^◌, Bool, true, false, not, ◌&&◌, ◌||◌, Option, none, some, List,
  [], ◌∷◌, ◌++◌, Bytes, length, drop, take, ltb, ◌==◌, if◌then◌else◌,
}
use wsblast.Deflate.Header.{Header, write}
use wsblast.Deflate.Header
use wsblast.Deflate.Params.{Params, can_compress, reset_deflater, reset_inflater}
use wsblast.Deflate.Codec.{
  Failure, frame_too_large, Outcome, ok, fail, stuck, ◌>>=◌, Flate, inflate, deflate,
}
use wsblast.Deflate.Stream.{DeflateStream, Stream, fetch_add, with_mask, end_head}

abbrev pub is_message : Header → Bool
is_message h = h.opcode == 1 || h.opcode == 2

module _ (f : Flate) where
  -- `get_or_insert_with`
  abbrev pub the_deflater : Option f.Deflater → f.Deflater
  the_deflater none = f.new_deflater
  the_deflater (some d) = d

  pub finish_out : Params → Header → Bytes → f.Deflater → Stream f → Stream f
  finish_out params h payload deflater st =
      let masked = with_mask h.mask payload in
      record st {
        counters = record (st.counters) {
          bytes_sent = fetch_add st.counters.bytes_sent h.payload;
          wire_bytes_sent = fetch_add st.counters.wire_bytes_sent (length payload);
        };
        ready_out = write h true (length masked) st.ready_out ++ masked;
        deflater =
            some (if reset_deflater params st.role then f.reset_deflater deflater else deflater);
      }

  -- A whole message that is sent compressed.
  pub rewrite_out : Params → Header → Bytes → Stream f → Outcome (Stream f)
  unfolding finish_out
  rewrite_out params h body st =
      deflate f (with_mask h.mask body) (the_deflater st.deflater) >>= λ r.
      ok (finish_out params h r.0 r.1 st)

  pub forward_out : Header → Bytes → Stream f → Stream f
  forward_out h frame st =
      let counted =
        if is_message h
        then record (st.counters) {
          bytes_sent = fetch_add st.counters.bytes_sent h.payload;
          wire_bytes_sent = fetch_add st.counters.wire_bytes_sent h.payload;
        }
        else st.counters in
      record st { counters = counted; ready_out = st.ready_out ++ frame }

  pub frame_out : Params → Header → Bytes → Stream f → Outcome (Stream f)
  unfolding rewrite_out forward_out
  frame_out params h frame st =
      if can_compress params st.role && is_message h && h.fin && not h.rsv1
      then rewrite_out params h (drop h.len frame) st
      else ok (forward_out h frame st)

  pub frames_out : ℕ → Params → Bytes → Stream f → Outcome (Stream f)
  frames_out zero params rest st = stuck
  frames_out (suc fuel) params rest st = elim (Header.parse rest) [
    | none ↦ ok (record st { raw_out = rest })
    | some h ↦
        let total = h.len + h.payload in
        let next =
          (frame_out params h (take total rest) st >>= λ st'.
          frames_out fuel params (drop total rest) st') in
        if ltb (length rest) total then ok (record st { raw_out = rest }) else next
  ]

  pub process_frames_out : Stream f → Outcome (Stream f)
  unfolding frame_out frames_out
  process_frames_out st = elim st.agreement [
    | none ↦ ok st
    | some none ↦ ok (record st { ready_out = st.ready_out ++ st.raw_out; raw_out = [] })
    | some (some params) ↦ frames_out (suc (length st.raw_out)) params st.raw_out st
  ]

  pub process_out : Stream f → Outcome (Stream f)
  unfolding end_head process_frames_out
  process_out st =
      if st.write_head_done
      then process_frames_out st
      else (end_head f false st >>= λ head. elim head [
        | none ↦ ok st
        | some st' ↦ process_frames_out (record st' { write_head_done = true })
      ])
