-- ===== src/SocketIo/Pump/Invariant.antt =====
-- socketio.rs: what holds of the pump's state in every run.
use wsblast.Common.{
  ℕ, ◌^◌, ◌≤◌, ◌<◌, ◌≡◌, refl, Bool, true, false, ◌&&◌, ◌||◌, if_intro, Option, none, some, List,
  [], ◌∷◌, ◌++◌, Bytes, codes, length, ltb, ◌==◌, arith,
}
use wsblast.Common.Text.{text_eq}
use wsblast.SocketIo.EngineIo.{unwrap_binary}
use wsblast.SocketIo.Packet.{Packet, encode, max_attachments}
use wsblast.SocketIo.Packet
use wsblast.SocketIo.Packet.Bounds.{parse_few}
use wsblast.SocketIo.Frame.{
  Frame, text, binary, ping, pong, close, Received, frame, ended, failed, SocketIoConfig, Json,
}
use wsblast.SocketIo.Pump.{
  Pending, PumpState, Turn, Sink, takes_all, fails_first, fails_later, Outgoing, dropped, handed,
  Event, tick, outgoing, received, start, increment, count_unsolicited, is_awaited, replies,
  send_event, binary_reply, pump_out, complete, pump_binary, attach, forget, pump_own, pump_packet,
  forget_pending, pump_text, pump_received, pump_step, pump_run,
}

-- A packet whose attachments arrive lacks one, and announced no more than the limit.
abbrev Waits : Option Pending → Type 0
Waits none = Unit {0}
Waits (some p) = (length p.attachments < p.needed) × (p.needed ≤ max_attachments)

-- The id that is awaited is the one sent last.
abbrev IsLatest : Option ℕ → ℕ → Type 0
IsLatest none next = Unit {0}
IsLatest (some id) next = next ≡ increment id

pub record IsSound (st : PumpState) : Type 0 where
  pub small_id : st.next_id < 2 ^ 64
  pub latest : IsLatest st.awaited st.next_id
  pub lacks : Waits st.pending
  pub small_count : st.unsolicited < 2 ^ 64

abbrev Keeps : Turn → Type 0
Keeps turn = IsSound turn.state

module _ (json : Json) (config : SocketIoConfig) where
  count-IsSound : (st : PumpState) → IsSound st → IsSound (count_unsolicited st)
  count-IsSound st w = record {
    small_id = w.small_id;
    latest = w.latest;
    lacks = w.lacks;
    small_count = omega arith;
  }

  cleared-IsSound : (st : PumpState) → IsSound st → IsSound (record st { pending = none })
  cleared-IsSound st w = record {
    small_id = w.small_id;
    latest = w.latest;
    lacks = tt;
    small_count = w.small_count;
  }

  send-IsSound :
      (sink : Sink) (packet : Frame) (attachment : List Frame) (st : PumpState)
      → IsSound st
      → Keeps (send_event json config sink packet attachment st)
  unfolding send_event
  send-IsSound sink packet attachment st w =
      let sent : IsSound (record st { awaited = some st.next_id; next_id = increment st.next_id }) =
        record {
          small_id = omega arith;
          latest = refl;
          lacks = w.lacks;
          small_count = w.small_count;
        } in
      by_sink sink sent
    where
      by_sink :
          (s : Sink)
          → IsSound (record st { awaited = some st.next_id; next_id = increment st.next_id })
          → Keeps (send_event json config s packet attachment st)
      by_sink takes_all h = h
      by_sink fails_first h = h
      by_sink fails_later h = h

  out-IsSound :
      (sink : Sink) (out : Outgoing) (st : PumpState)
      → IsSound st
      → Keeps (pump_out json config sink out st)
  unfolding pump_out
  out-IsSound sink dropped st w = w
  out-IsSound sink (handed (close reason)) st w = w
  out-IsSound sink (handed (ping bytes)) st w = w
  out-IsSound sink (handed (pong bytes)) st w = w
  out-IsSound sink (handed (text t)) st w = send-IsSound sink _ _ st w
  out-IsSound sink (handed (binary bytes)) st w = send-IsSound sink _ _ st w

  replies-IsSound :
      (loop_open : Bool) (f : Frame) (st : PumpState) → IsSound st → Keeps (replies loop_open f st)
  replies-IsSound loop_open f st w = record {
    small_id = w.small_id;
    latest = tt;
    lacks = w.lacks;
    small_count = w.small_count;
  }

  own-IsSound :
      (loop_open : Bool) (p : Packet) (st : PumpState)
      → IsSound st
      → Keeps (pump_own json config loop_open p st)
  unfolding pump_own
  own-IsSound loop_open p st w =
      if_intro Keeps ((p.kind == b'3' || p.kind == b'6') && is_awaited p.id st.awaited) _ _
        (λ e. replies-IsSound loop_open (text p.text) st w)
        (λ e.
          if_intro Keeps (p.kind == b'1' || p.kind == b'4') _ _ (λ e'. w)
            (λ e'. count-IsSound st w))

  packet-IsSound :
      (loop_open : Bool) (p : Option Packet) (st : PumpState)
      → ((q : Packet) → p ≡ some q → q.attachments ≤ max_attachments)
      → IsSound st
      → Keeps (pump_packet json config loop_open p st)
  unfolding pump_packet
  packet-IsSound loop_open none st few w = count-IsSound st w
  packet-IsSound loop_open (some p) st few w =
      let few_p = few p refl in
      if_intro Keeps (ltb 0 p.attachments) _ _
        (λ e. record {
          small_id = w.small_id;
          latest = w.latest;
          lacks = (ground arith, few_p);
          small_count = w.small_count;
        })
        (λ e.
          if_intro Keeps (text_eq p.namespace config.namespace) _ _
            (λ own. own-IsSound loop_open p st w) (λ other. count-IsSound st w))

  text-IsSound :
      (loop_open : Bool) (t : Bytes) (st : PumpState)
      → IsSound st
      → Keeps (pump_text json config loop_open t st)
  unfolding pump_text
  text-IsSound loop_open t st w =
      if_intro Keeps (text_eq t (codes "2")) _ _ (λ e. w)
        (λ e.
          if_intro Keeps (text_eq t (codes "1")) _ _ (λ e'. w)
            (λ e'.
              if_intro Keeps (text_eq t (codes "3") || text_eq t (codes "6")) _ _ (λ e''. w)
                (λ e''.
                  packet-IsSound loop_open (Packet.parse t) st (λ q read. parse_few t q read) w)))

  complete-IsSound :
      (loop_open : Bool) (p : Pending) (st : PumpState)
      → p.needed ≤ max_attachments
      → IsSound st
      → Keeps (complete json config loop_open p st)
  unfolding complete
  complete-IsSound loop_open p st few w =
      if_intro Keeps (ltb (length p.attachments) p.needed) _ _
        (λ e. record {
          small_id = w.small_id;
          latest = w.latest;
          lacks = (ground arith, few);
          small_count = w.small_count;
        })
        (λ e.
          if_intro Keeps (p.ack && is_awaited p.id st.awaited) _ _
            (λ e'.
              replies-IsSound loop_open (binary_reply json config p.arguments p.attachments) st w)
            (λ e'. count-IsSound st w))

  attach-IsSound :
      (loop_open : Bool) (p : Option Pending) (bytes : Option Bytes) (st : PumpState)
      → Waits p
      → IsSound st
      → Keeps (attach json config loop_open p bytes st)
  unfolding attach
  attach-IsSound loop_open none bytes st h w = count-IsSound st w
  attach-IsSound loop_open (some p) none st h w = count-IsSound st w
  attach-IsSound loop_open (some p) (some bytes) st h w =
      complete-IsSound loop_open (record p { attachments = p.attachments ++ (bytes ∷ []) }) st h.1 w

  forget-IsSound :
      (p : Option Pending) (st : PumpState) → IsSound st → IsSound (forget json config p st)
  unfolding forget
  forget-IsSound none st w = w
  forget-IsSound (some p) st w = count-IsSound (record st { pending = none }) (cleared-IsSound st w)

  received-IsSound :
      (loop_open : Bool) (r : Received) (st : PumpState)
      → IsSound st
      → Keeps (pump_received json config loop_open r st)
  unfolding pump_received pump_binary forget_pending
  received-IsSound loop_open ended st w = w
  received-IsSound loop_open failed st w = w
  received-IsSound loop_open (frame (ping bytes)) st w = w
  received-IsSound loop_open (frame (pong bytes)) st w = w
  received-IsSound loop_open (frame (close reason)) st w = w
  received-IsSound loop_open (frame (text t)) st w =
      text-IsSound loop_open t (forget json config st.pending st) (forget-IsSound st.pending st w)
  received-IsSound loop_open (frame (binary bytes)) st w =
      attach-IsSound loop_open st.pending (unwrap_binary config.engine bytes)
        (record st { pending = none }) w.lacks (cleared-IsSound st w)

  step-IsSound : (e : Event) (st : PumpState) → IsSound st → Keeps (pump_step json config e st)
  unfolding pump_step
  step-IsSound (tick true) st w = w
  step-IsSound (tick false) st w = w
  step-IsSound (outgoing sink out) st w = out-IsSound sink out st w
  step-IsSound (received loop_open r) st w = received-IsSound loop_open r st w

  run-IsSound :
      (events : List Event) (st : PumpState) → IsSound st → Keeps (pump_run json config events st)
  unfolding pump_run
  run-IsSound [] st w = w
  run-IsSound (e ∷ events) st w =
      let turn = pump_step json config e st in
      let next = step-IsSound e st w in
      if_intro Keeps turn.running _ _ (λ more. run-IsSound events turn.state next) (λ over. next)

  -- In every run from the start the awaited id is the one sent last, a binary packet that waits lacks
  -- an attachment and announced 1024 at most, and the counters stay within 64 bits.
  pub pump_run-IsSound : (events : List Event) → IsSound (pump_run json config events start).state
  pump_run-IsSound events =
      run-IsSound events start
        (record { small_id = omega arith; latest = tt; lacks = tt; small_count = omega arith })
