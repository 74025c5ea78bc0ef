-- ===== src/Worker/Accounts.antt =====
-- worker.rs: what an echo session counts.
use wsblast.Common.{
  ℕ, zero, suc, ◌+◌, ◌≡◌, refl, ◌∙◌, Bool, true, false, not, Option, List, [], ◌∷◌, length,
  if_intro, arith,
}
use wsblast.SocketIo.Frame.{Frame}
use wsblast.Metrics.{ErrorCategory, attempt, Recorders, add64}
use wsblast.Metrics.Methods.{
  record_error, record_message_sent, record_chaos_delayed, record_chaos_dropped,
  record_chaos_corrupted,
}
use wsblast.Worker.{message_byte_len, writing, categorize_session_error}
use wsblast.Worker.Schedule.{shift}
use wsblast.Worker.Echo.{
  SessionEnd, Sending, written, stopped, refused, Pass, EchoConfig, Session, Exit, goes_on, exits,
  session_end, await_reply, pings_of, stops_before_slot, due_of, later, writes, closes_run,
  reschedules, records, next_request,
}
use wsblast.Worker.Loop.{
  send_frame, corrupt_and_send, planned, delayed_send, claim_and_send, echo_pass, continues,
  echo_run,
}
use wsblast.Worker.Replies.{
  sent_by, received_by, ended_by, active_by, Same, Accounted, Replied, wait_reply-Replied,
}

module _ {L I : Type 0} (recorders : Recorders L I) (c : EchoConfig) where
  -- Nothing was sent.
  Nothing : (s : Session L I) (r : Session L I × Exit) → Same s r.0 → Accounted 1 s r
  unfolding Accounted
  Nothing s r same = (
    0,
    0,
    0,
    record {
      sents = omega (arith, same.sents);
      recvs = omega (arith, same.recvs);
      ends = omega (arith, same.ends);
      actives = same.actives;
      replies_le = omega arith;
      replies_ge = omega arith;
      errors_le = omega arith;
      passes_ge = omega arith;
    },
  )

  written_one :
      (bytes : ℕ) (frame : Frame) (s : Session L I)
      → let t = records (record_message_sent recorders bytes) (writes (frame ∷ []) s) in
        (sent_by t ≡ add64 (sent_by s) 1)
        × (received_by t ≡ received_by s)
        × (ended_by t ≡ ended_by s)
        × (active_by t ≡ active_by s)
  unfolding record_message_sent
  written_one bytes frame s = (refl, refl, refl, refl)

  refused_nothing :
      (category : ErrorCategory) (end : SessionEnd) (s : Session L I)
      → Accounted 1 s (records (record_error recorders category attempt) s, exits end)
  unfolding record_error
  refused_nothing category end s =
      Nothing s (records (record_error recorders category attempt) s, exits end)
        (record { sents = refl; recvs = refl; ends = refl; actives = refl })

  send_frame-Accounted :
      (p : Pass) (corrupted : Bool) (due : Option ℕ) (frame : Frame) (how : Sending)
      (s : Session L I)
      → Accounted 1 s (send_frame recorders c p corrupted due frame how s)
  unfolding send_frame Accounted Replied
  send_frame-Accounted p corrupted due frame stopped s =
      Nothing s (closes_run s) (record { sents = refl; recvs = refl; ends = refl; actives = refl })
  send_frame-Accounted p corrupted due frame (refused e) s =
      refused_nothing (categorize_session_error e writing) (session_end p.stops_last) s
  send_frame-Accounted p corrupted due frame written s =
      let s' =
        records (record_message_sent recorders (message_byte_len frame)) (writes (frame ∷ []) s) in
      let (b, e, h) =
        wait_reply-Replied recorders c p corrupted due
          (await_reply (λ got. c.matched corrupted frame got s.seq) p.arrivals) s' in
      let (sent1, recv1, end1, active1) = written_one (message_byte_len frame) frame s in
      (
        1,
        b,
        e,
        record {
          sents = omega (arith, h.sents, sent1);
          recvs = omega (arith, h.recvs, recv1);
          ends = omega (arith, h.ends, end1);
          actives = h.actives ∙ active1;
          replies_le = h.replies_le;
          replies_ge = h.replies_ge;
          errors_le = h.errors_le;
          passes_ge = omega arith;
        },
      )

  -- A step before the rest that adds nothing.
  before-Accounted :
      (s s' : Session L I) (r : Session L I × Exit) → Same s s' → Accounted 1 s' r → Accounted 1 s r
  unfolding Accounted
  before-Accounted s s' r same (a, b, e, h) = (
    a,
    b,
    e,
    record {
      sents = omega (arith, h.sents, same.sents);
      recvs = omega (arith, h.recvs, same.recvs);
      ends = omega (arith, h.ends, same.ends);
      actives = h.actives ∙ same.actives;
      replies_le = h.replies_le;
      replies_ge = h.replies_ge;
      errors_le = h.errors_le;
      passes_ge = h.passes_ge;
    },
  )

  corrupt_and_send-Accounted :
      (p : Pass) (due : Option ℕ) (m : Frame × Bool) (s : Session L I)
      → Accounted 1 s (corrupt_and_send recorders c p due m s)
  unfolding corrupt_and_send record_chaos_corrupted
  corrupt_and_send-Accounted p due (frame, true) s =
      let s' = records (record_chaos_corrupted recorders) s in
      before-Accounted s s' (send_frame recorders c p true due frame p.sending s')
        (record { sents = refl; recvs = refl; ends = refl; actives = refl })
        (send_frame-Accounted p true due frame p.sending s')
  corrupt_and_send-Accounted p due (frame, false) s =
      send_frame-Accounted p false due frame p.sending s

  delayed_send-Accounted :
      (p : Pass) (due : Option ℕ) (d : ℕ) (s : Session L I)
      → Accounted 1 s (delayed_send recorders c p due d s)
  unfolding delayed_send planned record_chaos_delayed
  delayed_send-Accounted p due zero s = corrupt_and_send-Accounted p due _ s
  delayed_send-Accounted p due (suc d) s =
      let s' = records (record_chaos_delayed recorders) s in
      if_intro (λ (r : Session L I × Exit). Accounted 1 s r) p.stops_delay _ _
        (λ t.
          Nothing s (closes_run s')
            (record { sents = refl; recvs = refl; ends = refl; actives = refl }))
        (λ t.
          let shifted = reschedules (shift (suc d)) s' in
          before-Accounted s shifted (planned recorders c p (later (suc d) due) shifted)
            (record { sents = refl; recvs = refl; ends = refl; actives = refl })
            (corrupt_and_send-Accounted p (later (suc d) due) _ shifted))

  claim_and_send-Accounted :
      (p : Pass) (due : Option ℕ) (s : Session L I)
      → Accounted 1 s (claim_and_send recorders c p due s)
  unfolding claim_and_send next_request record_chaos_dropped
  claim_and_send-Accounted p due s =
      if_intro (λ (r : Session L I × Exit). Accounted 1 s r) (not p.claimed) _ _
        (λ t.
          Nothing s (closes_run s)
            (record { sents = refl; recvs = refl; ends = refl; actives = refl }))
        (λ t.
          if_intro (λ (r : Session L I × Exit). Accounted 1 s r) p.plan.skips _ _
            (λ u.
              Nothing s (next_request (records (record_chaos_dropped recorders) s), goes_on)
                (record { sents = refl; recvs = refl; ends = refl; actives = refl }))
            (λ u. delayed_send-Accounted p due p.plan.delay s))

  echo_pass-Accounted : (p : Pass) (s : Session L I) → Accounted 1 s (echo_pass recorders c p s)
  unfolding echo_pass
  echo_pass-Accounted p s =
      let pinged = writes (pings_of c p s.schedule) s in
      if_intro (λ (r : Session L I × Exit). Accounted 1 s r) p.stops_first _ _
        (λ t.
          Nothing s (closes_run s)
            (record { sents = refl; recvs = refl; ends = refl; actives = refl }))
        (λ t.
          if_intro (λ (r : Session L I × Exit). Accounted 1 s r) (stops_before_slot p s.schedule) _
            _
            (λ u.
              Nothing s (closes_run pinged)
                (record { sents = refl; recvs = refl; ends = refl; actives = refl }))
            (λ u.
              before-Accounted s pinged (claim_and_send recorders c p (due_of s.schedule) pinged)
                (record { sents = refl; recvs = refl; ends = refl; actives = refl })
                (claim_and_send-Accounted p (due_of s.schedule) pinged)))

  more_passes :
      (n : ℕ) (s : Session L I) (r : Session L I × Exit) → Accounted 1 s r → Accounted (suc n) s r
  unfolding Accounted
  more_passes n s r (a, b, e, h) = (
    a,
    b,
    e,
    record {
      sents = h.sents;
      recvs = h.recvs;
      ends = h.ends;
      actives = h.actives;
      replies_le = h.replies_le;
      replies_ge = h.replies_ge;
      errors_le = h.errors_le;
      passes_ge = omega (arith, h.passes_ge);
    },
  )

  then-Accounted :
      (n : ℕ) (s t : Session L I) (r : Session L I × Exit)
      → Accounted 1 s (t, goes_on)
      → Accounted n t r
      → Accounted (suc n) s r
  unfolding Accounted
  then-Accounted n s t r (a, b, e, h) (a', b', e', k) = (
    a + a',
    b + b',
    e + e',
    record {
      sents = omega (arith, h.sents, k.sents);
      recvs = omega (arith, h.recvs, k.recvs);
      ends = omega (arith, h.ends, k.ends);
      actives = k.actives ∙ h.actives;
      replies_le = omega (arith, h.replies_le, k.replies_le);
      replies_ge = omega (arith, h.replies_ge, k.replies_ge);
      errors_le = omega (arith, h.errors_le, k.errors_le);
      passes_ge = omega (arith, h.passes_ge, k.passes_ge);
    },
  )

  continues-Accounted :
      (n : ℕ) (s : Session L I) (rest : Session L I → Session L I × Exit) (r : Session L I × Exit)
      → ((t : Session L I) → Accounted n t (rest t))
      → Accounted 1 s r
      → Accounted (suc n) s (continues recorders c rest r)
  continues-Accounted n s rest (t, goes_on) k h = then-Accounted n s t (rest t) h (k t)
  continues-Accounted n s rest (t, exits end) k h = more_passes n s (t, exits end) h

  -- Every message that an echo session writes gets its reply before the next one is sent: in at most
  -- `n` passes it writes at most `n` messages and counts a reply for each of them, except for the
  -- last one of a session that ended. At most one error is counted for each of them, and the number
  -- of open connections stays as it was.
  pub echo_run-Accounted :
      (passes : List Pass) (s : Session L I)
      → Accounted (length passes) s (echo_run recorders c passes s)
  unfolding echo_run Accounted
  echo_run-Accounted [] s = (
    0,
    0,
    0,
    record {
      sents = omega arith;
      recvs = omega arith;
      ends = omega arith;
      actives = refl;
      replies_le = omega arith;
      replies_ge = omega arith;
      errors_le = omega arith;
      passes_ge = omega arith;
    },
  )
  echo_run-Accounted (p ∷ passes) s =
      continues-Accounted (length passes) s (λ t. echo_run recorders c passes t)
        (echo_pass recorders c p s) (echo_run-Accounted passes) (echo_pass-Accounted p s)
