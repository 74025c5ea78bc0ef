-- ===== src/SocketIo/Pump.antt =====
-- src/socketio.rs: `pump`, which moves frames between the echo loop and the WebSocket. The runtime
-- chooses which side is served next, so a run is a list of events.
pub mod Promise
pub mod Exchange
pub mod Invariant
pub mod Reply
use wsblast.Common.{
  ℕ, zero, suc, ◌+◌, ◌%◌, ◌^◌, Bool, true, false, not, ◌&&◌, ◌||◌, Option, none, some, List, [],
  ◌∷◌, ◌++◌, Bytes, codes, length, ltb, ◌==◌, if◌then◌else◌,
}
use wsblast.Common.Text.{text_eq}
use wsblast.SocketIo.EngineIo.{EngineIo, wrap_binary, unwrap_binary}
use wsblast.SocketIo.Packet.{Packet, placeholder, encode}
use wsblast.SocketIo.Packet
use wsblast.SocketIo.Frame.{
  Frame, text, binary, ping, pong, close, Received, frame, ended, failed, SocketIoConfig, Json,
}

-- A binary packet from the server whose attachments are still arriving.
pub record Pending : Type 0 where
  pub ack : Bool
  pub id : Option ℕ
  pub arguments : Bytes
  pub needed : ℕ
  pub attachments : List Bytes

pub record PumpState : Type 0 where
  pub next_id : ℕ
  pub awaited : Option ℕ
  pub pending : Option Pending
  pub unsolicited : ℕ

-- What the pump passes to the loop: a frame, or the error that ended the connection.
pub data Incoming : Type 0 where
  passed : Frame → Incoming
  broken : Incoming

pub record Turn : Type 0 where
  pub state : PumpState
  pub to_sink : List Frame
  pub to_loop : List Incoming
  pub running : Bool

-- How the socket takes the frames of an event: all of them, not even the first, or it fails later.
pub data Sink : Type 0 where
  takes_all fails_first fails_later : Sink

-- What the loop hands over; `dropped` where its end of the channel is gone.
pub data Outgoing : Type 0 where
  dropped : Outgoing
  handed : Frame → Outgoing

pub data Event : Type 0 where
  tick : Bool → Event
  outgoing : Sink → Outgoing → Event
  received : Bool → Received → Event

abbrev pub start : PumpState
start = record { next_id = 0; awaited = none; pending = none; unsolicited = 0 }

-- `+= 1` on a `u64`
abbrev pub increment : ℕ → ℕ
increment n = (n + 1) % 2 ^ 64

abbrev pub quiet : PumpState → List Frame → Turn
quiet st frames = record { state = st; to_sink = frames; to_loop = []; running = true }

abbrev pub ends : PumpState → List Frame → List Incoming → Turn
ends st frames given = record { state = st; to_sink = frames; to_loop = given; running = false }

abbrev pub count_unsolicited : PumpState → PumpState
count_unsolicited st = record st { unsolicited = increment st.unsolicited }

-- `id.is_some() && id == awaited`
abbrev pub is_awaited : Option ℕ → Option ℕ → Bool
is_awaited none awaited = false
is_awaited (some id) none = false
is_awaited (some id) (some a) = id == a

-- The loop's end of the channel may be gone; then the pump ends with the reply.
abbrev pub replies : Bool → Frame → PumpState → Turn
replies loop_open f st = record {
  state = record st { awaited = none };
  to_sink = [];
  to_loop = passed f ∷ [];
  running = loop_open;
}

-- `Vec::pop`
last_of : List Bytes → Option Bytes
last_of [] = none
last_of (b ∷ []) = some b
last_of (b ∷ c ∷ bs) = last_of (c ∷ bs)

module _ (json : Json) (config : SocketIoConfig) where
  unfoldable pub event_packet : ℕ → Bytes → Packet
  event_packet id payload =
      let argument = if json.is_json payload then payload else json.quoted payload in
      record {
        kind = b'2';
        attachments = 0;
        namespace = config.namespace;
        id = some id;
        text = b'[' ∷ (json.quoted config.event ++ (b',' ∷ (argument ++ (b']' ∷ []))));
      }

  pub binary_event_packet : ℕ → Packet
  binary_event_packet id = record {
    kind = b'5';
    attachments = 1;
    namespace = config.namespace;
    id = some id;
    text = b'[' ∷ (json.quoted config.event ++ (b',' ∷ (placeholder ++ (b']' ∷ []))));
  }

  pub binary_reply : Bytes → List Bytes → Frame
  unfolding last_of
  binary_reply arguments attachments =
      let only_attachment = length attachments == 1 && json.is_placeholder arguments in
      elim (last_of attachments) [
        | none ↦ text arguments
        | some bytes ↦ if only_attachment then binary bytes else text arguments
      ]

  disconnect : Bytes
  disconnect =
      encode (record {
        kind = b'1';
        attachments = 0;
        namespace = config.namespace;
        id = none;
        text = [];
      })

  -- The frames of an event, with the id that its acknowledgement will carry.
  pub send_event : Sink → Frame → List Frame → PumpState → Turn
  send_event sink packet attachment st =
      let sent = record st { awaited = some st.next_id; next_id = increment st.next_id } in
      elim sink [
        | takes_all ↦ quiet sent (packet ∷ attachment)
        | fails_first ↦ ends sent (packet ∷ []) (broken ∷ [])
        | fails_later ↦ ends sent (packet ∷ attachment) (broken ∷ [])
      ]

  pub pump_out : Sink → Outgoing → PumpState → Turn
  unfolding event_packet binary_event_packet disconnect send_event
  pump_out sink dropped st = ends st (text disconnect ∷ close none ∷ []) []
  pump_out sink (handed (close reason)) st = ends st (text disconnect ∷ close reason ∷ []) []
  pump_out sink (handed (text payload)) st =
      send_event sink (text (encode (event_packet st.next_id payload))) [] st
  pump_out sink (handed (binary bytes)) st =
      send_event sink (text (encode (binary_event_packet st.next_id)))
        (binary (wrap_binary config.engine bytes) ∷ []) st
  pump_out sink (handed (ping bytes)) st = quiet st (ping bytes ∷ [])
  pump_out sink (handed (pong bytes)) st = quiet st (pong bytes ∷ [])

  -- A binary packet with one more attachment.
  pub complete : Bool → Pending → PumpState → Turn
  unfolding binary_reply
  complete loop_open p st =
      if ltb (length p.attachments) p.needed
      then quiet (record st { pending = some p }) []
      else if p.ack && is_awaited p.id st.awaited
      then replies loop_open (binary_reply p.arguments p.attachments) st
      else quiet (count_unsolicited st) []

  -- An attachment, where a packet waits for one and the frame holds one.
  pub attach : Bool → Option Pending → Option Bytes → PumpState → Turn
  unfolding complete
  attach loop_open none bytes st = quiet (count_unsolicited st) []
  attach loop_open (some p) none st = quiet (count_unsolicited st) []
  attach loop_open (some p) (some bytes) st =
      complete loop_open (record p { attachments = p.attachments ++ (bytes ∷ []) }) st

  pub pump_binary : Bool → Bytes → PumpState → Turn
  unfolding attach
  pump_binary loop_open bytes st =
      attach loop_open st.pending (unwrap_binary config.engine bytes) (record st { pending = none })

  -- A packet with no attachments on the session's namespace.
  pub pump_own : Bool → Packet → PumpState → Turn
  pump_own loop_open p st =
      if (p.kind == b'3' || p.kind == b'6') && is_awaited p.id st.awaited
      then replies loop_open (text p.text) st
      else if p.kind == b'1' || p.kind == b'4'
      then ends st [] (passed (close none) ∷ [])
      else quiet (count_unsolicited st) []

  pub pump_packet : Bool → Option Packet → PumpState → Turn
  unfolding pump_own
  pump_packet loop_open none st = quiet (count_unsolicited st) []
  pump_packet loop_open (some p) st =
      let own = text_eq p.namespace config.namespace in
      if ltb 0 p.attachments
      then quiet
          (record st {
            pending = some (record {
              ack = p.kind == b'6' && own;
              id = p.id;
              arguments = p.text;
              needed = p.attachments;
              attachments = [];
            });
          })
          []
      else if own
      then pump_own loop_open p st
      else quiet (count_unsolicited st) []

  -- A text frame ends a binary packet that is still waiting for attachments.
  pub forget : Option Pending → PumpState → PumpState
  forget none st = st
  forget (some p) st = count_unsolicited (record st { pending = none })

  pub forget_pending : PumpState → PumpState
  unfolding forget
  forget_pending st = forget st.pending st

  pub pump_text : Bool → Bytes → PumpState → Turn
  unfolding pump_packet
  pump_text loop_open t st =
      if text_eq t (codes "2")
      then quiet st (text (codes "3") ∷ [])
      else if text_eq t (codes "1")
      then ends st [] (passed (close none) ∷ [])
      else if text_eq t (codes "3") || text_eq t (codes "6")
      then quiet st []
      else pump_packet loop_open (Packet.parse t) st

  pub pump_received : Bool → Received → PumpState → Turn
  unfolding pump_binary pump_text forget_pending
  pump_received loop_open ended st = ends st [] []
  pump_received loop_open failed st = ends st [] (broken ∷ [])
  pump_received loop_open (frame (text t)) st = pump_text loop_open t (forget_pending st)
  pump_received loop_open (frame (ping bytes)) st = quiet st (pong bytes ∷ [])
  pump_received loop_open (frame (pong bytes)) st = quiet st []
  pump_received loop_open (frame (close reason)) st = ends st [] (passed (close reason) ∷ [])
  pump_received loop_open (frame (binary bytes)) st = pump_binary loop_open bytes st

  -- One round of the loop. `tick` says whether the ping could be sent.
  unfoldable pub pump_step : Event → PumpState → Turn
  unfolding pump_out pump_received
  pump_step (tick true) st = quiet st (text (codes "2") ∷ [])
  pump_step (tick false) st = ends st (text (codes "2") ∷ []) (broken ∷ [])
  pump_step (outgoing sink out) st = pump_out sink out st
  pump_step (received loop_open r) st = pump_received loop_open r st

  abbrev pub behind : Turn → Turn → Turn
  behind first rest = record rest {
    to_sink = first.to_sink ++ rest.to_sink;
    to_loop = first.to_loop ++ rest.to_loop;
  }

  -- The loop, until a round ends it.
  pub pump_run : List Event → PumpState → Turn
  unfolding pump_step
  pump_run [] st = quiet st []
  pump_run (e ∷ events) st =
      let turn = pump_step e st in
      let rest = behind turn (pump_run events turn.state) in if turn.running then rest else turn
