-- ===== src/Deflate/Outbound/RoundTrip.antt =====
-- deflate.rs: a message that one end's layer sends compressed, received by the other end's layer.
use wsblast.Common.{
  ℕ, suc, ◌+◌, ◌-◌, ◌^◌, ◌≤◌, ◌<◌, ◌≡◌, refl, sym, ap, subst, ◌∙◌, Bool, true, false, not, ◌&&◌,
  some, [], ◌++◌, append_assoc, Bytes, length, drop, take, ltb, if◌then◌else◌, arith,
}
use wsblast.Deflate.Header.{Header, header_bytes, write}
use wsblast.Deflate.Header
use wsblast.Deflate.Header.Fields.{IsHeader}
use wsblast.Deflate.Header.Prefix.{parse-Complete}
use wsblast.Deflate.Params.{Params, can_compress}
use wsblast.Deflate.Codec.{ok, ◌>>=◌, Flate, inflate, deflate}
use wsblast.Deflate.Stream.{Stream, with_mask}
use wsblast.Deflate.Wire.{
  wire, wire_header, parse-wire, take-wire, drop-wire, wire_complete, drop-wire_header,
  wire-wire_header, with_mask_twice, length-with_mask,
}
use wsblast.Deflate.Inbound.Loop.{with_raw, frames_in_step, frames_in_stop, process-agreed}
use wsblast.Deflate.Inbound.Plain.{frame_in_message, rewrite_in_done, finish_in-wire}
use wsblast.Deflate.Inbound.{frame_in, frames_in, process_frames_in, max_frame, finish_in}
use wsblast.Deflate.Outbound.{
  is_message, the_deflater, finish_out, rewrite_out, frame_out, frames_out, process_frames_out,
}

module _ (f : Flate) where
  frames_out_step :
      (n : ℕ) (params : Params) (rest : Bytes) (h : Header) (st : Stream f)
      → Header.parse rest ≡ some h
      → frames_out f (suc n) params rest st ≡ (
          if ltb (length rest) (h.len + h.payload)
          then ok (record st { raw_out = rest })
          else (frame_out f params h (take (h.len + h.payload) rest) st >>= λ st'.
              frames_out f n params (drop (h.len + h.payload) rest) st'))
  unfolding frames_out
  frames_out_step n params rest h st parsed = rw (parsed, frames_out)

  frames_out_nil :
      (n : ℕ) (params : Params) (st : Stream f)
      → frames_out f (suc n) params [] st ≡ ok (record st { raw_out = [] })
  unfolding frames_out Header.parse
  frames_out_nil n params st = refl

  frames_in_nil :
      (n : ℕ) (params : Params) (st : Stream f)
      → frames_in f (suc n) params [] st ≡ ok (record st { raw_in = [] })
  unfolding with_raw
  frames_in_nil n params st = frames_in_stop f n params [] st (unfold Header.parse in refl)

  frame_out_message :
      (params : Params) (h : Header) (frame : Bytes) (st : Stream f)
      → (can_compress params st.role && is_message h && h.fin && not h.rsv1) ≡ true
      → frame_out f params h frame st ≡ rewrite_out f params h (drop h.len frame) st
  unfolding frame_out
  frame_out_message params h frame st test = rw test

  rewrite_out_done :
      (params : Params) (h : Header) (body z : Bytes) (d : f.Deflater) (st : Stream f)
      → deflate f (with_mask h.mask body) (the_deflater f st.deflater) ≡ ok (z, d)
      → rewrite_out f params h body st ≡ ok (finish_out f params h z d st)
  unfolding rewrite_out
  rewrite_out_done params h body z d st e = rw e

  process-agreed_out :
      (st : Stream f) (params : Params)
      → st.agreement ≡ some (some params)
      → process_frames_out f st ≡ frames_out f (suc (length st.raw_out)) params st.raw_out st
  unfolding process_frames_out
  process-agreed_out st params e = rw e

module _ (f : Flate) (h : Header) (w : IsHeader h) where
  -- One frame alone in the outbound buffer, and in the inbound one.
  frames_out-wire :
      (params : Params) (rsv1 : Bool) (body : Bytes) (n : ℕ) (st s : Stream f)
      → length body < 2 ^ 64
      → frame_out f params (wire_header h rsv1 body) (wire h rsv1 body) st ≡ ok s
      → frames_out f (suc (suc n)) params (wire h rsv1 body) st ≡ ok (record s { raw_out = [] })
  frames_out-wire params rsv1 body n st s small e =
      rw
        (
          frames_out_step f (suc n) params (wire h rsv1 body) (wire_header h rsv1 body) st
              (parse-wire h rsv1 body w small),
          wire_complete h rsv1 body,
          take-wire h rsv1 body,
          drop-wire h rsv1 body,
          e,
        )
        (frames_out_nil f n params s)

  frames_in-wire :
      (params : Params) (rsv1 : Bool) (body : Bytes) (n : ℕ) (st s : Stream f)
      → length body ≤ max_frame
      → frame_in f params (wire_header h rsv1 body) (wire h rsv1 body) st ≡ ok s
      → frames_in f (suc (suc n)) params (wire h rsv1 body) st ≡ ok (record s { raw_in = [] })
  frames_in-wire params rsv1 body n st s small e =
      let fits : ltb max_frame (length body) ≡ false = ground arith in
      rw
        (
          frames_in_step f (suc n) params (wire h rsv1 body) (wire_header h rsv1 body) st
              (parse-wire h rsv1 body w (omega arith)),
          fits,
          wire_complete h rsv1 body,
          take-wire h rsv1 body,
          drop-wire h rsv1 body,
          e,
        )
        (frames_in_nil f n params s)

  wire_fuel :
      (rsv1 : Bool) (body : Bytes)
      → length body < 2 ^ 64
      → (n : ℕ) × (length (wire h rsv1 body) ≡ suc n)
  wire_fuel rsv1 body small =
      let c =
        parse-Complete (wire h rsv1 body) (wire_header h rsv1 body)
          (parse-wire h rsv1 body w small) in
      (length (wire h rsv1 body) - 1, omega (arith, c.at_least_two, c.within))

  process_out-wire :
      (params : Params) (body : Bytes) (st s : Stream f)
      → st.agreement ≡ some (some params)
      → st.raw_out ≡ wire h false body
      → length body < 2 ^ 64
      → frame_out f params (wire_header h false body) (wire h false body) st ≡ ok s
      → process_frames_out f st ≡ ok (record s { raw_out = [] })
  process_out-wire params body st s g queued small e =
      let (n, size) = wire_fuel false body small in
      process-agreed_out f st params g
      ∙ ap (λ (r : Bytes). frames_out f (suc (length r)) params r st) queued
      ∙ rw size (frames_out-wire params false body n st s small e)

  process_in-wire :
      (params : Params) (body : Bytes) (st s : Stream f)
      → st.agreement ≡ some (some params)
      → st.raw_in ≡ wire h true body
      → length body ≤ max_frame
      → frame_in f params (wire_header h true body) (wire h true body) st ≡ ok s
      → process_frames_in f st ≡ ok (record s { raw_in = [] })
  process_in-wire params body st s g queued small e =
      let (n, size) = wire_fuel true body (omega arith) in
      process-agreed f st params g
      ∙ ap (λ (r : Bytes). frames_in f (suc (length r)) params r st) queued
      ∙ rw size (frames_in-wire params true body n st s small e)

  module _ (final : h.fin ≡ true) (message : is_message h ≡ true) (params : Params) where
    -- The sender's frame, and the receiver's.
    frame_out-wire :
        (msg z : Bytes) (d : f.Deflater) (st : Stream f)
        → can_compress params st.role ≡ true
        → deflate f msg (the_deflater f st.deflater) ≡ ok (z, d)
        → let body = with_mask h.mask msg in
          frame_out f params (wire_header h false body) (wire h false body) st
          ≡ ok (finish_out f params (wire_header h false body) z d st)
    frame_out-wire msg z d st full e =
        let body = with_mask h.mask msg in
        let unmasked : deflate f
              (with_mask h.mask (drop (wire_header h false body).len (wire h false body)))
              (the_deflater f st.deflater)
            ≡ ok (z, d) =
          rw (drop-wire_header h false body, with_mask_twice h.mask msg) e in
        frame_out_message f params (wire_header h false body) (wire h false body) st (ground arith)
        ∙ rewrite_out_done f params (wire_header h false body) _ z d st unmasked

    finish_out-wire :
        (body z : Bytes) (d : f.Deflater) (st : Stream f)
        → (finish_out f params (wire_header h false body) z d st).ready_out
          ≡ st.ready_out ++ wire h true (with_mask h.mask z)
    unfolding finish_out write
    finish_out-wire body z d st =
        append_assoc st.ready_out (header_bytes h true (length (with_mask h.mask z)))
          (with_mask h.mask z)

    frame_in-wire :
        (msg z : Bytes) (total : ℕ) (i : f.Inflater) (st : Stream f)
        → inflate f true z 0 st.inflater ≡ ok (msg, total, i)
        → let body = with_mask h.mask z in
          frame_in f params (wire_header h true body) (wire h true body) st
          ≡ ok (
              finish_in f params
                (wire_header h true body)
                msg
                total
                i
                (record st { inflating = true; inflated = 0 }))
    frame_in-wire msg z total i st e =
        let body = with_mask h.mask z in
        let st' : Stream f = record st { inflating = true; inflated = 0 } in
        let unmasked : inflate f h.fin
              (with_mask h.mask (drop (wire_header h true body).len (wire h true body))) 0
              st.inflater
            ≡ ok (msg, total, i) =
          rw (drop-wire_header h true body, with_mask_twice h.mask z)
            (subst (λ (last : Bool). inflate f last z 0 st.inflater ≡ ok (msg, total, i))
              (sym final) e) in
        frame_in_message f params (wire_header h true body) (wire h true body) st message refl
        ∙ rewrite_in_done f params (wire_header h true body) _ msg total i st' unmasked

    -- Two layers have agreed, the sender may compress, and one final, uncompressed text or binary
    -- frame with a well-formed header is queued alone. Whatever the codec makes of its payload, at
    -- most 64 MiB, the sender puts one frame on the wire that carries it, and the receiver, which
    -- that frame reaches alone, hands on the frame that was queued with what its inflater makes of
    -- those bytes as the payload: the header's flags and the mask are kept, the compression flag is
    -- gone, and the length is that of the new payload.
    pub process-process_out :
        (msg z got : Bytes) (d : f.Deflater) (total : ℕ) (i : f.Inflater) (a b : Stream f)
        → can_compress params a.role ≡ true
        → a.agreement ≡ some (some params)
        → b.agreement ≡ some (some params)
        → a.raw_out ≡ wire h false (with_mask h.mask msg)
        → length msg < 2 ^ 64
        → length z ≤ max_frame
        → deflate f msg (the_deflater f a.deflater) ≡ ok (z, d)
        → inflate f true z 0 b.inflater ≡ ok (got, total, i)
        → (a' : Stream f) × (sent : Bytes) × (b' : Stream f) × (process_frames_out f a ≡ ok a')
          × (a'.raw_out ≡ [])
          × (a'.ready_out ≡ a.ready_out ++ sent)
          × (process_frames_in f (record b { raw_in = sent }) ≡ ok b')
          × (b'.raw_in ≡ [])
          × (b'.ready_in ≡ b.ready_in ++ wire h false (with_mask h.mask got))
    process-process_out msg z got d total i a b full ga gb queued small fits de ie =
        let body = with_mask h.mask msg in
        let sent = wire h true (with_mask h.mask z) in
        let ended = finish_out f params (wire_header h false body) z d a in
        let begun : Stream f = record b { raw_in = sent; inflating = true; inflated = 0 } in
        let handed =
          finish_in f params (wire_header h true (with_mask h.mask z)) got total i begun in
        let made : handed.ready_in ≡ b.ready_in ++ wire h false (with_mask h.mask got) =
          finish_in-wire f params (wire_header h true (with_mask h.mask z)) got total i begun
          ∙ ap (λ (r : Bytes). b.ready_in ++ r)
              (wire-wire_header h true (with_mask h.mask z) (with_mask h.mask got)) in
        (
          record ended { raw_out = [] },
          sent,
          record handed { raw_in = [] },
          process_out-wire params body a ended ga queued
              (omega (arith, length-with_mask h.mask msg)) (frame_out-wire msg z d a full de),
          refl,
          finish_out-wire body z d a,
          process_in-wire params (with_mask h.mask z) (record b { raw_in = sent }) handed gb refl
              (omega (arith, length-with_mask h.mask z))
              (frame_in-wire got z total i (record b { raw_in = sent }) ie),
          refl,
          made,
        )
