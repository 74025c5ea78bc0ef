-- ===== src/Worker/Replies.antt =====
-- worker.rs: what an echo session counts for a message that is sent.
use wsblast.Common.{
  ℕ, ◌+◌, ◌-◌, ◌%◌, ◌^◌, ◌≤◌, ◌≡◌, refl, ◌∙◌, Bool, true, false, ◌&&◌, Option, none, some, List,
  ◌++◌, ◌==◌, if◌then◌else◌, if_intro, arith,
}
use wsblast.SocketIo.Frame.{Frame}
use wsblast.Metrics.{Recorders, Recording, add64}
use wsblast.Metrics.Methods.{
  record_error, record_round_trip, record_message_recv, record_response_time,
  record_unsolicited_frames, record_chaos_read_pause, record_chaos_close,
}
use wsblast.Worker.{message_byte_len}
use wsblast.Worker.Schedule.{shift}
use wsblast.Worker.Echo.{
  Pass, EchoConfig, Session, Exit, goes_on, exits, ReplyResult, reply, server_close, pending, fails,
  Awaited, writes, reschedules, records, next_request,
}
use wsblast.Worker.Loop.{
  think, pause_read, check_reply, respond, close_or_next, answered, handle_reply, wait_reply,
}

-- A session that ended may leave one message without a reply.
abbrev pub left_open : Exit → ℕ
left_open goes_on = 0
left_open (exits end) = 1

module _ {L I : Type 0} where
  abbrev pub sent_by : Session L I → ℕ
  sent_by s = s.recording.worker.messages_sent

  abbrev pub received_by : Session L I → ℕ
  received_by s = s.recording.worker.messages_recv

  -- The errors that ended a message which was counted as sent.
  abbrev pub ended_by : Session L I → ℕ
  ended_by s = s.recording.worker.sent_message_errors

  -- The open connections, on the worker's shard of the live counters.
  abbrev pub active_by : Session L I → ℕ
  active_by s = s.recording.counters.active_connections

  pub record Same (s t : Session L I) : Type 0 where
    pub sents : sent_by t ≡ sent_by s
    pub recvs : received_by t ≡ received_by s
    pub ends : ended_by t ≡ ended_by s
    pub actives : active_by t ≡ active_by s

  -- What at most `n` passes add: `a` messages sent, `b` replies and `e` messages that end in an error.
  pub record Added (n : ℕ) (s : Session L I) (r : Session L I × Exit) (a b e : ℕ) : Type 0 where
    pub sents : sent_by r.0 % 2 ^ 64 ≡ (sent_by s + a) % 2 ^ 64
    pub recvs : received_by r.0 % 2 ^ 64 ≡ (received_by s + b) % 2 ^ 64
    pub ends : ended_by r.0 % 2 ^ 64 ≡ (ended_by s + e) % 2 ^ 64
    pub actives : active_by r.0 ≡ active_by s
    pub replies_le : b ≤ a
    pub replies_ge : a ≤ b + left_open r.1
    pub errors_le : e ≤ a
    pub passes_ge : a ≤ n

  unfoldable pub Accounted : ℕ → Session L I → Session L I × Exit → Type 0
  Accounted n s r = (a : ℕ) × (b : ℕ) × (e : ℕ) × Added n s r a b e

  -- One message was sent before `s`.
  pub record Awaiting (s : Session L I) (r : Session L I × Exit) (b e : ℕ) : Type 0 where
    pub sents : sent_by r.0 ≡ sent_by s
    pub recvs : received_by r.0 % 2 ^ 64 ≡ (received_by s + b) % 2 ^ 64
    pub ends : ended_by r.0 % 2 ^ 64 ≡ (ended_by s + e) % 2 ^ 64
    pub actives : active_by r.0 ≡ active_by s
    pub replies_le : b ≤ 1
    pub replies_ge : 1 ≤ b + left_open r.1
    pub errors_le : e ≤ 1

  unfoldable pub Replied : Session L I → Session L I × Exit → Type 0
  Replied s r = (b : ℕ) × (e : ℕ) × Awaiting s r b e

module _ {L I : Type 0} (recorders : Recorders L I) (c : EchoConfig) where
  think-Same : (p : Pass) (s : Session L I) → Same s (think recorders c p s).0
  unfolding think
  think-Same p s =
      if_intro (λ (r : Session L I × Exit). Same s r.0) (c.thinks && p.stops_thinking) _ _
        (λ t. record { sents = refl; recvs = refl; ends = refl; actives = refl })
        (λ t.
          if_intro (λ (r : Session L I × Exit). Same s r.0) c.thinks _ _
            (λ u. record { sents = refl; recvs = refl; ends = refl; actives = refl })
            (λ u. record { sents = refl; recvs = refl; ends = refl; actives = refl }))

  pause_read-Same :
      (p : Pass) (o : Option ℕ) (s : Session L I) → Same s (pause_read recorders c p o s).0
  unfolding pause_read record_chaos_read_pause
  pause_read-Same p none s = think-Same p s
  pause_read-Same p (some pause) s =
      if_intro (λ (r : Session L I × Exit). Same s r.0) p.stops_pause _ _
        (λ t. record { sents = refl; recvs = refl; ends = refl; actives = refl })
        (λ t.
          let same =
            think-Same p
              (reschedules (shift pause) (records (record_chaos_read_pause recorders) s)) in
          record {
            sents = same.sents;
            recvs = same.recvs;
            ends = same.ends;
            actives = same.actives;
          })

  respond-Same : (p : Pass) (o : Option ℕ) (s : Session L I) → Same s (respond recorders c p o s)
  unfolding respond record_response_time
  respond-Same p none s = record { sents = refl; recvs = refl; ends = refl; actives = refl }
  respond-Same p (some due) s =
      if_intro (λ t. Same s t) c.thinks _ _
        (λ t. record { sents = refl; recvs = refl; ends = refl; actives = refl })
        (λ t. record { sents = refl; recvs = refl; ends = refl; actives = refl })

  close_or_next-Same :
      (p : Pass) (o : Option Bool) (s : Session L I) → Same s (close_or_next recorders c p o s).0
  unfolding close_or_next next_request record_chaos_close
  close_or_next-Same p none s =
      let same = pause_read-Same p p.read_pause (next_request s) in
      record { sents = same.sents; recvs = same.recvs; ends = same.ends; actives = same.actives }
  close_or_next-Same p (some true) s = record {
    sents = refl;
    recvs = refl;
    ends = refl;
    actives = refl;
  }
  close_or_next-Same p (some false) s = record {
    sents = refl;
    recvs = refl;
    ends = refl;
    actives = refl;
  }

  -- What a check adds is one error at most.
  checked_errors :
      (corrupted : Bool) (frame : Frame) (s : Session L I)
      → let t = if corrupted then s else check_reply recorders c frame s in
        (e : ℕ) × (e ≤ 1)
        × (sent_by t ≡ sent_by s)
        × (received_by t ≡ received_by s)
        × (ended_by t % 2 ^ 64 ≡ (ended_by s + e) % 2 ^ 64)
        × (active_by t ≡ active_by s)
  unfolding check_reply record_error
  checked_errors true frame s = (0, omega arith, refl, refl, omega arith, refl)
  checked_errors false frame s =
      if_intro
        (λ (t : Session L I).
          (e : ℕ) × (e ≤ 1)
          × (sent_by t ≡ sent_by s)
          × (received_by t ≡ received_by s)
          × (ended_by t % 2 ^ 64 ≡ (ended_by s + e) % 2 ^ 64)
          × (active_by t ≡ active_by s))
        (c.passes frame) _ _ (λ u. (0, omega arith, refl, refl, omega arith, refl))
        (λ u. (1, omega arith, refl, refl, omega arith, refl))

  round_trip-Same :
      (bytes : ℕ) (rtt : ℕ) (s : Session L I)
      → let t = records (record_message_recv recorders bytes (some rtt)) s in
        (sent_by t ≡ sent_by s)
        × (received_by t ≡ add64 (received_by s) 1)
        × (ended_by t ≡ ended_by s)
        × (active_by t ≡ active_by s)
  unfolding record_message_recv record_round_trip
  round_trip-Same bytes rtt s = (refl, refl, refl, refl)

  answered-Replied :
      (p : Pass) (corrupted : Bool) (due : Option ℕ) (frame : Frame) (s : Session L I)
      → Replied s (answered recorders c p corrupted due frame s)
  unfolding answered Replied
  answered-Replied p corrupted due frame s =
      let rtt = p.received_at - p.sent_at in
      let received =
        records (record_message_recv recorders (message_byte_len frame) (some rtt)) s in
      let checked = if corrupted then received else check_reply recorders c frame received in
      let (sent1, recv1, end1, active1) = round_trip-Same (message_byte_len frame) rtt s in
      let (e, small, sent2, recv2, end2, active2) = checked_errors corrupted frame received in
      let same = respond-Same p due checked in
      let last = close_or_next-Same p p.closes (respond recorders c p due checked) in
      (
        1,
        e,
        record {
          sents = omega (arith, last.sents, same.sents);
          recvs = omega (arith, last.recvs, same.recvs);
          ends = omega (arith, last.ends, same.ends);
          actives = last.actives ∙ same.actives ∙ active2 ∙ active1;
          replies_le = omega arith;
          replies_ge = omega arith;
          errors_le = small;
        },
      )

  handle_reply-Replied :
      (p : Pass) (corrupted : Bool) (due : Option ℕ) (got : ReplyResult) (s : Session L I)
      → Replied s (handle_reply recorders c p corrupted due got s)
  unfolding handle_reply Replied record_error
  handle_reply-Replied p corrupted due (reply frame) s = answered-Replied p corrupted due frame s
  handle_reply-Replied p corrupted due server_close s = (0, 0, ground arith)
  handle_reply-Replied p corrupted due (fails category) s = (0, 1, ground arith)
  handle_reply-Replied p corrupted due pending s = (0, 1, ground arith)

  unsolicited-Same :
      (count : ℕ) (frames : List Frame) (s : Session L I)
      → Same s (records (record_unsolicited_frames recorders count) (writes frames s))
  unfolding record_unsolicited_frames
  unsolicited-Same count frames s =
      if_intro
        (λ (r : Recording L I).
          Same s (record s { recording = r; outgoing = s.outgoing ++ frames }))
        (count == 0) _ _ (λ t. record { sents = refl; recvs = refl; ends = refl; actives = refl })
        (λ t. record { sents = refl; recvs = refl; ends = refl; actives = refl })

  pub wait_reply-Replied :
      (p : Pass) (corrupted : Bool) (due : Option ℕ) (a : Awaited) (s : Session L I)
      → Replied s (wait_reply recorders c p corrupted due a s)
  unfolding wait_reply Replied
  wait_reply-Replied p corrupted due a s =
      let s' = records (record_unsolicited_frames recorders a.unsolicited) (writes a.pongs s) in
      let same = unsolicited-Same a.unsolicited a.pongs s in
      if_intro (λ (r : Session L I × Exit). Replied s r) p.stops_reply _ _
        (λ t. (
          0,
          0,
          record {
            sents = same.sents;
            recvs = omega (arith, same.recvs);
            ends = omega (arith, same.ends);
            actives = same.actives;
            replies_le = omega arith;
            replies_ge = omega arith;
            errors_le = omega arith;
          },
        ))
        (λ t.
          let (b, e, h) = handle_reply-Replied p corrupted due a.result s' in
          (
            b,
            e,
            record {
              sents = h.sents ∙ same.sents;
              recvs = omega (arith, h.recvs, same.recvs);
              ends = omega (arith, h.ends, same.ends);
              actives = h.actives ∙ same.actives;
              replies_le = h.replies_le;
              replies_ge = h.replies_ge;
              errors_le = h.errors_le;
            },
          ))
