-- ===== src/Deflate/Inbound/Chunks.antt =====
-- deflate.rs: the inbound bytes behind the head, and how they are cut into reads.
use wsblast.Common.{
  suc, ◌≡◌, refl, ap, ◌∙◌, inl, inr, Option, none, some, [], ◌++◌, append_assoc, Bytes, length,
  arith,
}
use wsblast.Deflate.Params.{Params}
use wsblast.Deflate.Codec.{Outcome, ok, ◌>>=◌, Flate, Outcome-cases}
use wsblast.Deflate.Stream.{Stream}
use wsblast.Deflate.Inbound.{frames_in, process_frames_in}
use wsblast.Deflate.Inbound.Loop.{
  with_raw, feed, frames_in_raw, resume, frames_in-append, frames_in_agreement, process-unknown,
  process-declined, process-agreed,
}

module _ (f : Flate) where
  process-fed :
      (st : Stream f) (params : Params) (x : Bytes)
      → st.agreement ≡ some (some params)
      → process_frames_in f (feed f st x)
        ≡ frames_in f (suc (length (st.raw_in ++ x))) params (st.raw_in ++ x) st
  unfolding feed
  process-fed st params x e =
      process-agreed f (with_raw f (st.raw_in ++ x) st) params (unfold with_raw in e)
      ∙ unfold with_raw in
        frames_in_raw f (suc (length (st.raw_in ++ x))) params (st.raw_in ++ x) (st.raw_in ++ x) st

  then_feed : Bytes → Stream f → Outcome (Stream f)
  then_feed more s = process_frames_in f (feed f s more)

  feed_twice-agreed :
      (st : Stream f) (params : Params) (a b : Bytes)
      → st.agreement ≡ some (some params)
      → (process_frames_in f (feed f st a) >>= then_feed b)
        ≡ process_frames_in f (feed f st (a ++ b))
  unfolding then_feed
  feed_twice-agreed st params a b e =
      let raw = st.raw_in ++ a in
      let n = suc (length raw) in
      let m = suc (length (raw ++ b)) in
      let goes_on = frames_in-append f n m params raw b st (omega arith) (omega arith) in
      rw (process-fed st params a e, process-fed st params (a ++ b) e, ← append_assoc st.raw_in a b)
        (elim (Outcome-cases (frames_in f n params raw st)) [
          | inl (s, done) ↦
              let agreed : s.agreement ≡ some (some params) =
                frames_in_agreement f n params raw st s done ∙ e in
              rw done (process-fed s params b agreed ∙ unfold resume in (rw done at goes_on))
          | inr (inl (x, failed)) ↦ rw failed (rw failed at goes_on)
          | inr (inr ended) ↦ rw ended (rw ended at goes_on)
        ])

  feed_twice-unknown :
      (st : Stream f) (a b : Bytes)
      → st.agreement ≡ none
      → (process_frames_in f (feed f st a) >>= then_feed b)
        ≡ process_frames_in f (feed f st (a ++ b))
  unfolding then_feed feed with_raw
  feed_twice-unknown st a b e =
      rw (process-unknown f (feed f st a) e, process-unknown f (feed f st (a ++ b)) e)
        (process-unknown f (feed f (feed f st a) b) e
          ∙ ap (λ (r : Bytes). ok (with_raw f r st)) (append_assoc st.raw_in a b))

  feed_twice-declined :
      (st : Stream f) (a b : Bytes)
      → st.agreement ≡ some none
      → (process_frames_in f (feed f st a) >>= then_feed b)
        ≡ process_frames_in f (feed f st (a ++ b))
  unfolding then_feed feed with_raw
  feed_twice-declined st a b e =
      let raw = st.raw_in ++ a in
      let middle : Stream f = record st { ready_in = st.ready_in ++ raw; raw_in = [] } in
      rw (process-declined f (feed f st a) e, process-declined f (feed f st (a ++ b)) e)
        (process-declined f (feed f middle b) e
          ∙ ap (λ (r : Bytes). ok (record st { ready_in = r; raw_in = [] }))
              (append_assoc st.ready_in raw b
                ∙ ap (λ (r : Bytes). st.ready_in ++ r) (append_assoc st.raw_in a b)))

  -- Behind the head, where `process_frames_in` works, processing a read and then another is processing
  -- both at once: in the state it leaves, in the bytes it hands on, in the counters and in the error,
  -- whatever was agreed.
  pub process_frames_in-feed :
      (st : Stream f) (a b : Bytes)
      → (process_frames_in f (feed f st a) >>= λ s. process_frames_in f (feed f s b))
        ≡ process_frames_in f (feed f st (a ++ b))
  unfolding then_feed
  process_frames_in-feed st a b = by_agreement st.agreement refl
    where
      by_agreement :
          (g : Option (Option Params))
          → st.agreement ≡ g
          → (process_frames_in f (feed f st a) >>= then_feed b)
            ≡ process_frames_in f (feed f st (a ++ b))
      by_agreement none e = feed_twice-unknown st a b e
      by_agreement (some none) e = feed_twice-declined st a b e
      by_agreement (some (some params)) e = feed_twice-agreed st params a b e
