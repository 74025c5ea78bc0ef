-- ===== src/Deflate/Inbound/Loop.antt =====
-- deflate.rs: the laws of the loop of `process_in`.
use wsblast.Common.{
  ℕ, zero, suc, ◌+◌, ◌≤◌, ◌<◌, ◌≡◌, refl, ◌∙◌, inl, inr, false, Bool-cases, Option-cases, none,
  some, [], ◌++◌, Bytes, length, length-append, length-drop, drop, take, take-append_le,
  drop-append_le, ltb, if◌then◌else◌, arith,
}
use wsblast.Deflate.Header.{Header}
use wsblast.Deflate.Header
use wsblast.Deflate.Header.Prefix.{parse-Complete}
use wsblast.Deflate.Params.{Params}
use wsblast.Deflate.Codec.{Outcome, ok, fail, ◌>>=◌, Flate, Outcome-cases, frame_too_large}
use wsblast.Deflate.Stream.{Stream}
use wsblast.Deflate.Inbound.{frame_in, frames_in, process_frames_in, max_frame}

module _ (f : Flate) where
  unfoldable pub with_raw : Bytes → Stream f → Stream f
  with_raw raw st = record st { raw_in = raw }

  -- Bytes that a read brought.
  unfoldable pub feed : Stream f → Bytes → Stream f
  unfolding with_raw
  feed st bytes = with_raw (st.raw_in ++ bytes) st

  frame_in_raw :
      (params : Params) (h : Header) (frame raw : Bytes) (st : Stream f)
      → frame_in f params h frame (with_raw raw st)
        ≡ (frame_in f params h frame st >>= λ s. ok (with_raw raw s))
  unfolding frame_in with_raw
  frame_in_raw params h frame raw st = ground arith

  -- The loop does not look at the buffer field that it sets when it ends.
  pub frames_in_raw :
      (n : ℕ) (params : Params) (rest raw : Bytes) (st : Stream f)
      → frames_in f n params rest (with_raw raw st) ≡ frames_in f n params rest st
  unfolding frames_in
  frames_in_raw zero params rest raw st = refl
  frames_in_raw (suc n) params rest raw st = elim (Option-cases (Header.parse rest)) [
    | inl incomplete ↦ rw (incomplete, frames_in) (unfold with_raw in refl)
    | inr (h, parsed) ↦
        let total = h.len + h.payload in
        rw (parsed, frames_in, frame_in_raw params h (take total rest) raw st)
          (elim (Outcome-cases (frame_in f params h (take total rest) st)) [
            | inl (st', done) ↦
                rw (done, frames_in_raw n params (drop total rest) raw st')
                  (unfold with_raw in refl)
            | inr (inl (e, failed)) ↦ rw failed (unfold with_raw in refl)
            | inr (inr ended) ↦ rw ended (unfold with_raw in refl)
          ])
  ]

  -- One round, once the header is known.
  pub frames_in_step :
      (n : ℕ) (params : Params) (rest : Bytes) (h : Header) (st : Stream f)
      → Header.parse rest ≡ some h
      → frames_in f (suc n) params rest st ≡ (
          if ltb max_frame h.payload
          then fail frame_too_large
          else if ltb (length rest) (h.len + h.payload)
          then ok (record st { raw_in = rest })
          else (frame_in f params h (take (h.len + h.payload) rest) st >>= λ st'.
              frames_in f n params (drop (h.len + h.payload) rest) st'))
  unfolding frames_in
  frames_in_step n params rest h st parsed = rw (parsed, frames_in)

  -- Any two amounts of fuel above the number of bytes give one result.
  frames_in_fuel :
      (n m : ℕ) (params : Params) (rest : Bytes) (st : Stream f)
      → length rest < n
      → length rest < m
      → frames_in f n params rest st ≡ frames_in f m params rest st
  frames_in_fuel zero m params rest st h k = elim h [ ]
  frames_in_fuel (suc n) zero params rest st h k = elim k [ ]
  frames_in_fuel (suc n) (suc m) params rest st h k = elim (Option-cases (Header.parse rest)) [
    | inl incomplete ↦ unfold frames_in in rw (incomplete, frames_in)
    | inr (hd, parsed) ↦
        let total = hd.len + hd.payload in
        let complete = parse-Complete rest hd parsed in
        rw (frames_in_step n params rest hd st parsed, frames_in_step m params rest hd st parsed)
          (elim (Bool-cases (ltb (length rest) total)) [
            | inl short ↦ rw short
            | inr whole ↦
                let shorter : length (drop total rest) < length rest =
                  ground (arith, length-drop total rest, complete.at_least_two) in
                rw whole (elim (Outcome-cases (frame_in f params hd (take total rest) st)) [
                  | inl (st', done) ↦ rw (
                    done,
                    frames_in_fuel n m params (drop total rest) st' (omega arith) (omega arith),
                  )
                  | inr (inl (e, failed)) ↦ rw failed
                  | inr (inr ended) ↦ rw ended
                ])
          ])
  ]

  -- The loop goes on from where it stopped.
  unfoldable pub resume : Params → Bytes → Stream f → Outcome (Stream f)
  resume params more s = frames_in f (suc (length (s.raw_in ++ more))) params (s.raw_in ++ more) s

  pub frames_in_stop :
      (n : ℕ) (params : Params) (rest : Bytes) (st : Stream f)
      → Header.parse rest ≡ none
      → frames_in f (suc n) params rest st ≡ ok (with_raw rest st)
  unfolding frames_in with_raw
  frames_in_stop n params rest st incomplete = rw (incomplete, frames_in)

  resume-with_raw :
      (m : ℕ) (params : Params) (rest more : Bytes) (st : Stream f)
      → length (rest ++ more) < m
      → resume params more (with_raw rest st) ≡ frames_in f m params (rest ++ more) st
  unfolding resume
  resume-with_raw m params rest more st k =
      unfold with_raw in
      (frames_in_raw (suc (length (rest ++ more))) params (rest ++ more) rest st
        ∙ frames_in_fuel (suc (length (rest ++ more))) m params (rest ++ more) st (omega arith) k)

  pub frames_in-append :
      (n m : ℕ) (params : Params) (rest more : Bytes) (st : Stream f)
      → length rest < n
      → length (rest ++ more) < m
      → (frames_in f n params rest st >>= resume params more)
        ≡ frames_in f m params (rest ++ more) st
  frames_in-append zero m params rest more st h k = elim h [ ]
  frames_in-append (suc n) zero params rest more st h k = elim k [ ]
  frames_in-append (suc n) (suc m) params rest more st h k =
      elim (Option-cases (Header.parse rest)) [
        | inl incomplete ↦
            rw (frames_in_stop n params rest st incomplete)
              (resume-with_raw (suc m) params rest more st k)
        | inr (hd, parsed) ↦
            let total = hd.len + hd.payload in
            let complete = parse-Complete rest hd parsed in
            let longer = complete.with_more more in
            let first = frames_in_step n params rest hd st parsed in
            let second = frames_in_step m params (rest ++ more) hd st longer in
            elim (Bool-cases (ltb max_frame hd.payload)) [
              | inl big ↦ rw (first, second, big)
              | inr fits ↦ elim (Bool-cases (ltb (length rest) total)) [
                | inl short ↦
                    rw (first, fits, short)
                      (unfold with_raw in resume-with_raw (suc m) params rest more st k)
                | inr whole ↦
                    let enough : total ≤ length rest = ground arith in
                    let whole' : ltb (length (rest ++ more)) total ≡ false =
                      ground (arith, length-append rest more) in
                    let shorter : length (drop total rest) < length rest =
                      ground (arith, length-drop total rest, complete.at_least_two) in
                    let shorter' : length (drop total rest ++ more) < length (rest ++ more) =
                      omega
                        (arith, length-append rest more, length-append (drop total rest) more) in
                    rw
                      (
                        first,
                        second,
                        fits,
                        whole,
                        whole',
                        take-append_le total rest more enough,
                        drop-append_le total rest more enough,
                      )
                      (elim (Outcome-cases (frame_in f params hd (take total rest) st)) [
                        | inl (st', done) ↦ rw done (
                            frames_in-append n m params (drop total rest) more st' (omega arith)
                              (omega arith))
                        | inr (inl (e, failed)) ↦ rw failed
                        | inr (inr ended) ↦ rw ended
                      ])
              ]
            ]
      ]

  frame_in_agreement :
      (params : Params) (h : Header) (frame : Bytes) (st s : Stream f)
      → frame_in f params h frame st ≡ ok s
      → s.agreement ≡ st.agreement
  unfolding frame_in
  frame_in_agreement params h frame st s e = ground arith

  pub frames_in_agreement :
      (n : ℕ) (params : Params) (rest : Bytes) (st s : Stream f)
      → frames_in f n params rest st ≡ ok s
      → s.agreement ≡ st.agreement
  unfolding frames_in
  frames_in_agreement zero params rest st s e = cc
  frames_in_agreement (suc n) params rest st s e = elim (Option-cases (Header.parse rest)) [
    | inl incomplete ↦ ground (arith, frames_in_stop n params rest st incomplete)
    | inr (h, parsed) ↦
        let total = h.len + h.payload in
        elim (Outcome-cases (frame_in f params h (take total rest) st)) [
          | inl (st', done) ↦ ground (
            arith,
            frame_in_agreement params h (take total rest) st st' done,
            frames_in_agreement n params (drop total rest) st' s,
          )
          | inr (inl (e', failed)) ↦ ground arith
          | inr (inr ended) ↦ ground arith
        ]
  ]

  -- What `process_frames_in` does, by what was agreed.
  pub process-unknown : (st : Stream f) → st.agreement ≡ none → process_frames_in f st ≡ ok st
  unfolding process_frames_in
  process-unknown st e = rw e

  pub process-declined :
      (st : Stream f)
      → st.agreement ≡ some none
      → process_frames_in f st ≡ ok (record st { ready_in = st.ready_in ++ st.raw_in; raw_in = [] })
  unfolding process_frames_in
  process-declined st e = rw e

  pub process-agreed :
      (st : Stream f) (params : Params)
      → st.agreement ≡ some (some params)
      → process_frames_in f st ≡ frames_in f (suc (length st.raw_in)) params st.raw_in st
  unfolding process_frames_in
  process-agreed st params e = rw e
