-- ===== src/SocketIo/Pump/Exchange.antt =====
-- socketio.rs: the pump keeps its promise to the echo loop.
use wsblast.Common.{
  sym, ap, ◌∙◌, leb, and_left, ℕ, ◌+◌, ◌≤◌, ◌≡◌, refl, subst, inl, inr, Bool, true, false, ◌&&◌,
  ◌||◌, Bool-cases, Option-cases, if_intro, and_right, Option, none, some, List, [], ◌∷◌, ◌++◌,
  Bytes, codes, length, ltb, ◌==◌, arith,
}
use wsblast.Common.Text.{text_eq, text_eq_sound}
use wsblast.SocketIo.EngineIo.{unwrap_binary}
use wsblast.SocketIo.Packet.{Packet, encode}
use wsblast.SocketIo.Packet
use wsblast.SocketIo.Frame.{
  Frame, text, binary, ping, pong, close, Received, frame, ended, failed, SocketIoConfig, Json,
}
use wsblast.SocketIo.Pump.{
  Pending, PumpState, Incoming, passed, Turn, Sink, takes_all, fails_first, fails_later, Outgoing,
  dropped, handed, Event, tick, outgoing, received, is_awaited, replies, send_event, last_of,
  binary_reply, pump_out, complete, pump_binary, attach, forget, pump_own, pump_packet,
  forget_pending, pump_text, pump_received, pump_step, pump_run,
}
use wsblast.SocketIo.Pump.Promise.{
  waiting, is_answer, answers, requests, Differs, Exchange, nothing, request, answer, asked_id,
  if_ack, packet_ack, attachment_ack, received_ack, acked_id, Answers, Differs-none, awaited_same,
  ack_step,
}

module _ (json : Json) (config : SocketIoConfig) where
  sends_request :
      (sink : Sink) (packet : Frame) (attachment : List Frame) (st : PumpState)
      → Answers st (some st.next_id) none (send_event json config sink packet attachment st)
  unfolding send_event answers
  sends_request takes_all packet attachment st = request st.next_id refl refl refl
  sends_request fails_first packet attachment st = request st.next_id refl refl refl
  sends_request fails_later packet attachment st = request st.next_id refl refl refl

  out_Exchange :
      (sink : Sink) (out : Outgoing) (st : PumpState)
      → Answers st (asked_id st (outgoing sink out)) none (pump_out json config sink out st)
  unfolding pump_out answers
  out_Exchange sink dropped st = nothing refl refl (Differs-none st.awaited) refl
  out_Exchange sink (handed (close reason)) st = nothing refl refl (Differs-none st.awaited) refl
  out_Exchange sink (handed (ping bytes)) st = nothing refl refl (Differs-none st.awaited) refl
  out_Exchange sink (handed (pong bytes)) st = nothing refl refl (Differs-none st.awaited) refl
  out_Exchange sink (handed (text t)) st = sends_request sink _ _ st
  out_Exchange sink (handed (binary bytes)) st = sends_request sink _ _ st

  -- A frame whose id is awaited answers the request that waits.
  replies_Exchange :
      (loop_open : Bool) (f : Frame) (id acked : Option ℕ) (st : PumpState)
      → is_answer (passed f) ≡ 1
      → acked ≡ id
      → is_awaited id st.awaited ≡ true
      → Answers st none acked (replies loop_open f st)
  unfolding answers
  replies_Exchange loop_open f id acked st data_frame of_id e =
      let (n, same, waits) = awaited_same id st.awaited e in
      answer n waits (of_id ∙ same) refl refl (rw data_frame (omega arith))

  own_Exchange :
      (loop_open : Bool) (p : Packet) (acked : Option ℕ) (st : PumpState)
      → acked ≡ if_ack (p.kind == b'3' || p.kind == b'6') p.id
      → Answers st none acked (pump_own json config loop_open p st)
  unfolding pump_own answers
  own_Exchange loop_open p acked st of_id =
      let test = p.kind == b'3' || p.kind == b'6' in
      if_intro (Answers st none acked) (test && is_awaited p.id st.awaited) _ _
        (λ e.
          replies_Exchange loop_open (text p.text) p.id acked st refl
            (of_id
              ∙ ap (λ (b : Bool). if_ack b p.id) (and_left test (is_awaited p.id st.awaited) e))
            (and_right test (is_awaited p.id st.awaited) e))
        (λ e.
          let other = ack_step test p.id st.awaited acked of_id e in
          if_intro (Answers st none acked) (p.kind == b'1' || p.kind == b'4') _ _
            (λ e'. nothing refl refl other refl) (λ e'. nothing refl refl other refl))

  no_ack :
      (test : Bool) (id : Option ℕ) (st : PumpState)
      → test ≡ false
      → Differs st.awaited (if_ack test id)
  no_ack test id st e = rw e (Differs-none st.awaited)

  packet_Exchange :
      (loop_open : Bool) (p : Option Packet) (st : PumpState)
      → Answers st none (packet_ack config.namespace p) (pump_packet json config loop_open p st)
  unfolding pump_packet answers
  packet_Exchange loop_open none st = nothing refl refl (Differs-none st.awaited) refl
  packet_Exchange loop_open (some p) st =
      let acked = packet_ack config.namespace (some p) in
      if_intro (Answers st none acked) (ltb 0 p.attachments) _ _
        (λ e. nothing refl refl (no_ack _ p.id st (ground arith)) refl)
        (λ e.
          if_intro (Answers st none acked) (text_eq p.namespace config.namespace) _ _
            (λ own.
              own_Exchange loop_open p acked st (ap (λ (b : Bool). if_ack b p.id) (ground arith)))
            (λ other. nothing refl refl (no_ack _ p.id st (ground arith)) refl))

  -- The heartbeats and the end of the session are no packets.
  unread :
      (t u : Bytes)
      → Packet.parse u ≡ none
      → text_eq t u ≡ true
      → packet_ack config.namespace (Packet.parse t) ≡ none
  unread t u e same =
      ap (packet_ack config.namespace) (ap Packet.parse (text_eq_sound t u same) ∙ e)

  control-Differs :
      (t u : Bytes) (st : PumpState)
      → Packet.parse u ≡ none
      → text_eq t u ≡ true
      → Differs st.awaited (packet_ack config.namespace (Packet.parse t))
  control-Differs t u st e same =
      subst (Differs st.awaited) (sym (unread t u e same)) (Differs-none st.awaited)

  forget_awaited :
      (p : Option Pending) (st : PumpState) → (forget json config p st).awaited ≡ st.awaited
  unfolding forget
  forget_awaited none st = refl
  forget_awaited (some p) st = refl

  text_Exchange :
      (loop_open : Bool) (t : Bytes) (st : PumpState)
      → Answers st none
          (packet_ack config.namespace (Packet.parse t))
          (pump_text json config loop_open t st)
  unfolding pump_text answers Packet.parse
  text_Exchange loop_open t st =
      let acked = packet_ack config.namespace (Packet.parse t) in
      if_intro (Answers st none acked) (text_eq t (codes "2")) _ _
        (λ e. nothing refl refl (control-Differs t (codes "2") st refl e) refl)
        (λ e.
          if_intro (Answers st none acked) (text_eq t (codes "1")) _ _
            (λ e'. nothing refl refl (control-Differs t (codes "1") st refl e') refl)
            (λ e'.
              if_intro (Answers st none acked) (text_eq t (codes "3") || text_eq t (codes "6")) _ _
                (λ e''. elim (Bool-cases (text_eq t (codes "3"))) [
                  | inl three ↦ nothing refl refl (control-Differs t (codes "3") st refl three) refl
                  | inr other ↦
                      nothing refl refl (control-Differs t (codes "6") st refl (ground arith)) refl
                ])
                (λ e''. packet_Exchange loop_open (Packet.parse t) st)))

  binary_answer :
      (arguments : Bytes) (attachments : List Bytes)
      → is_answer (passed (binary_reply json config arguments attachments)) ≡ 1
  unfolding binary_reply
  binary_answer arguments attachments = elim (Option-cases (last_of attachments)) [
    | inl missing ↦ rw (missing, binary_reply)
    | inr (bytes, last) ↦
        elim (Bool-cases (length attachments == 1 && json.is_placeholder arguments)) [
          | inl only ↦ rw (last, binary_reply, only)
          | inr more ↦ rw (last, binary_reply, more)
        ]
  ]

  complete_Exchange :
      (loop_open : Bool) (p : Pending) (st : PumpState)
      → Answers st none
          (if_ack (leb p.needed (length p.attachments) && p.ack) p.id)
          (complete json config loop_open p st)
  unfolding complete answers
  complete_Exchange loop_open p st =
      let full = leb p.needed (length p.attachments) && p.ack in
      let acked = if_ack full p.id in
      if_intro (Answers st none acked) (ltb (length p.attachments) p.needed) _ _
        (λ e. nothing refl refl (no_ack full p.id st (ground arith)) refl)
        (λ e.
          let of_id : acked ≡ if_ack p.ack p.id = ap (λ (b : Bool). if_ack b p.id) (ground arith) in
          if_intro (Answers st none acked) (p.ack && is_awaited p.id st.awaited) _ _
            (λ e'.
              replies_Exchange loop_open _ p.id acked st (binary_answer p.arguments p.attachments)
                (of_id
                  ∙ ap (λ (b : Bool). if_ack b p.id)
                      (and_left p.ack (is_awaited p.id st.awaited) e'))
                (and_right p.ack (is_awaited p.id st.awaited) e'))
            (λ e'. nothing refl refl (ack_step p.ack p.id st.awaited acked of_id e') refl))

  attach_Exchange :
      (loop_open : Bool) (p : Option Pending) (bytes : Option Bytes) (st : PumpState)
      → Answers st none (attachment_ack p bytes) (attach json config loop_open p bytes st)
  unfolding attach answers
  attach_Exchange loop_open none bytes st = nothing refl refl (Differs-none st.awaited) refl
  attach_Exchange loop_open (some p) none st = nothing refl refl (Differs-none st.awaited) refl
  attach_Exchange loop_open (some p) (some bytes) st =
      complete_Exchange loop_open (record p { attachments = p.attachments ++ (bytes ∷ []) }) st

  received_Exchange :
      (loop_open : Bool) (r : Received) (st : PumpState)
      → Answers st none (received_ack config st r) (pump_received json config loop_open r st)
  unfolding pump_received pump_binary forget_pending answers
  received_Exchange loop_open ended st = nothing refl refl (Differs-none st.awaited) refl
  received_Exchange loop_open failed st = nothing refl refl (Differs-none st.awaited) refl
  received_Exchange loop_open (frame (ping bytes)) st =
      nothing refl refl (Differs-none st.awaited) refl
  received_Exchange loop_open (frame (pong bytes)) st =
      nothing refl refl (Differs-none st.awaited) refl
  received_Exchange loop_open (frame (close reason)) st =
      nothing refl refl (Differs-none st.awaited) refl
  received_Exchange loop_open (frame (binary bytes)) st =
      attach_Exchange loop_open st.pending (unwrap_binary config.engine bytes)
        (record st { pending = none })
  received_Exchange loop_open (frame (text t)) st =
      let kept = forget json config st.pending st in
      subst
        (λ (a : Option ℕ).
          Exchange a (pump_text json config loop_open t kept).state.awaited none
            (packet_ack config.namespace (Packet.parse t))
            (answers (pump_text json config loop_open t kept).to_loop))
        (forget_awaited st.pending st) (text_Exchange loop_open t kept)

  -- Each round of the pump is a step of the promise: the loop's data frame is a request with the
  -- next id, which replaces one that waits; a complete acknowledgement of the id that is awaited is
  -- passed on as the one answer, and then no request waits; an acknowledgement of another id, and
  -- everything else, passes no answer on and leaves the id that is awaited.
  pub pump_step-Exchange :
      (e : Event) (st : PumpState)
      → Answers st (asked_id st e) (acked_id config st e) (pump_step json config e st)
  unfolding pump_step answers
  pump_step-Exchange (tick true) st = nothing refl refl (Differs-none st.awaited) refl
  pump_step-Exchange (tick false) st = nothing refl refl (Differs-none st.awaited) refl
  pump_step-Exchange (outgoing sink out) st = out_Exchange sink out st
  pump_step-Exchange (received loop_open r) st = received_Exchange loop_open r st

  pub asked_by : List Event → ℕ
  asked_by [] = 0
  asked_by (e ∷ events) = requests e + asked_by events

  answers_append : (is js : List Incoming) → answers (is ++ js) ≡ answers is + answers js
  unfolding answers
  answers_append [] js = omega arith
  answers_append (i ∷ is) js = omega (arith, answers_append is js)

  abbrev pub one_if : Bool → ℕ
  one_if true = 1
  one_if false = 0

  asked_requests : (e : Event) (st : PumpState) → one_if (waiting (asked_id st e)) ≡ requests e
  asked_requests (tick sent) st = refl
  asked_requests (received loop_open r) st = refl
  asked_requests (outgoing sink dropped) st = refl
  asked_requests (outgoing sink (handed (text t))) st = refl
  asked_requests (outgoing sink (handed (binary bytes))) st = refl
  asked_requests (outgoing sink (handed (ping bytes))) st = refl
  asked_requests (outgoing sink (handed (pong bytes))) st = refl
  asked_requests (outgoing sink (handed (close reason))) st = refl

  Exchange-bound :
      (before after asked acked : Option ℕ) (answered : ℕ)
      → Exchange before after asked acked answered
      → answered + one_if (waiting after) ≤ one_if (waiting asked) + one_if (waiting before)
  Exchange-bound before after asked acked answered (nothing same none_asked other none_answered) =
      rw (same, none_asked, none_answered) (omega arith)
  Exchange-bound before after asked acked answered (request id one now none_answered) =
      rw (now, one, none_answered) (omega arith)
  Exchange-bound before after asked acked answered (answer id was of_id now none_asked one) =
      rw (was, now, none_asked, one) (omega arith)

  -- Over any run the answers that the loop gets, and the request that waits at the end, are together
  -- no more than the requests it made and the one that waited at the start.
  pub answers-pump_run :
      (events : List Event) (st : PumpState)
      → answers (pump_run json config events st).to_loop
          + one_if (waiting (pump_run json config events st).state.awaited)
        ≤ asked_by events + one_if (waiting st.awaited)
  unfolding pump_run asked_by answers
  answers-pump_run [] st = omega arith
  answers-pump_run (e ∷ events) st =
      let turn = pump_step json config e st in
      let first = Exchange-bound _ _ _ _ _ (pump_step-Exchange e st) in
      let rest = answers-pump_run events turn.state in
      if_intro
        (λ (t : Turn).
          answers t.to_loop + one_if (waiting t.state.awaited)
          ≤ requests e + asked_by events + one_if (waiting st.awaited))
        turn.running _ _
        (λ more. omega (
          arith,
          answers_append turn.to_loop (pump_run json config events turn.state).to_loop,
          first,
          asked_requests e st,
          rest,
        ))
        (λ over. omega (arith, first, asked_requests e st))
