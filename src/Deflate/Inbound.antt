-- ===== src/Deflate/Inbound.antt =====
-- src/deflate.rs: `process_in`, which rewrites the complete inbound frames.
pub mod Loop
pub mod Chunks
pub mod Plain
use wsblast.Common.{
  ℕ, zero, suc, ◌+◌, ◌*◌, ◌%◌, ◌^◌, Bool, true, false, not, ◌&&◌, ◌||◌, Option, none, some, List,
  [], ◌∷◌, ◌++◌, Bytes, length, drop, take, ltb, ◌==◌, if◌then◌else◌,
}
use wsblast.Deflate.Header.{Header, write}
use wsblast.Deflate.Header
use wsblast.Deflate.Params.{Params, can_compress, reset_deflater, reset_inflater}
use wsblast.Deflate.Codec.{
  Failure, frame_too_large, Outcome, ok, fail, stuck, ◌>>=◌, Flate, inflate, deflate,
}
use wsblast.Deflate.Stream.{DeflateStream, Stream, fetch_add, with_mask, end_head}

-- 64 MiB
abbrev pub max_frame : ℕ
max_frame = 64 * 2 ^ 20

module _ (f : Flate) where
  -- The first frame of a message says whether it is compressed.
  pub begin_message : Header → Stream f → Stream f
  begin_message h st =
      if ltb h.opcode 8 && not (h.opcode == 0)
      then record st { inflating = h.rsv1; inflated = 0 }
      else st

  -- The end of `rewrite_in`, with the inflated payload.
  pub finish_in : Params → Header → Bytes → ℕ → f.Inflater → Stream f → Stream f
  finish_in params h payload inflated inflater st =
      let masked = with_mask h.mask payload in
      record st {
        counters = record (st.counters) {
          bytes_recv = fetch_add st.counters.bytes_recv (length payload);
          wire_bytes_recv = fetch_add st.counters.wire_bytes_recv h.payload;
        };
        ready_in = write h false (length masked) st.ready_in ++ masked;
        inflating = if h.fin then false else st.inflating;
        inflated = inflated;
        inflater =
            if h.fin && reset_inflater params st.role then f.reset_inflater inflater else inflater;
      }

  -- A part of a compressed message: inflated, and written with its own header.
  pub rewrite_in : Params → Header → Bytes → Stream f → Outcome (Stream f)
  unfolding finish_in
  rewrite_in params h body st =
      inflate f h.fin (with_mask h.mask body) st.inflated st.inflater >>= λ r.
      ok (finish_in params h r.0 r.1 r.2 st)

  -- Any other frame: passed on as it is.
  pub forward_in : Header → Bytes → Stream f → Stream f
  forward_in h frame st =
      let counted =
        if ltb h.opcode 8
        then record (st.counters) {
          bytes_recv = fetch_add st.counters.bytes_recv h.payload;
          wire_bytes_recv = fetch_add st.counters.wire_bytes_recv h.payload;
        }
        else st.counters in
      record st { counters = counted; ready_in = st.ready_in ++ frame }

  -- One round of the loop of `process_in`, on a complete frame.
  pub frame_in : Params → Header → Bytes → Stream f → Outcome (Stream f)
  unfolding begin_message rewrite_in forward_in
  frame_in params h frame st =
      let st' = begin_message h st in
      if ltb h.opcode 8 && st'.inflating
      then rewrite_in params h (drop h.len frame) st'
      else ok (forward_in h frame st')

  -- The loop, over the bytes that are not consumed. Every frame has two bytes at least, so the length
  -- is fuel enough.
  pub frames_in : ℕ → Params → Bytes → Stream f → Outcome (Stream f)
  frames_in zero params rest st = stuck
  frames_in (suc fuel) params rest st = elim (Header.parse rest) [
    | none ↦ ok (record st { raw_in = rest })
    | some h ↦
        let total = h.len + h.payload in
        let next =
          (frame_in params h (take total rest) st >>= λ st'.
          frames_in fuel params (drop total rest) st') in
        if ltb max_frame h.payload
        then fail frame_too_large
        else if ltb (length rest) total
        then ok (record st { raw_in = rest })
        else next
  ]

  -- `process_in` once the head has passed.
  pub process_frames_in : Stream f → Outcome (Stream f)
  unfolding frame_in frames_in
  process_frames_in st = elim st.agreement [
    | none ↦ ok st
    | some none ↦ ok (record st { ready_in = st.ready_in ++ st.raw_in; raw_in = [] })
    | some (some params) ↦ frames_in (suc (length st.raw_in)) params st.raw_in st
  ]

  pub process_in : Stream f → Outcome (Stream f)
  unfolding end_head process_frames_in
  process_in st =
      if st.read_head_done
      then process_frames_in st
      else (end_head f true st >>= λ head. elim head [
        | none ↦ ok st
        | some st' ↦ process_frames_in (record st' { read_head_done = true })
      ])
