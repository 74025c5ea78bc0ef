-- ===== src/SocketIo/Pump/Reply.antt =====
-- socketio.rs: the acknowledgement of an event comes back to the loop as the reply to it.
use wsblast.Common.{
  ℕ, ◌≡◌, refl, ap, ◌∙◌, Bool, true, Option, none, some, List, [], ◌∷◌, Bytes, ==_iff, arith, ◌++◌,
  if◌then◌else◌,
}
use wsblast.Common.Text.{text_eq, text_eq_refl}
use wsblast.SocketIo.EngineIo.{wrap_binary, unwrap_binary, unwrap-wrap_binary}
use wsblast.SocketIo.Packet.{Packet, encode}
use wsblast.SocketIo.Packet
use wsblast.SocketIo.Packet.RoundTrip.{IsPacket, parse-encode}
use wsblast.SocketIo.Frame.{Frame, text, binary, frame, SocketIoConfig, Json}
use wsblast.SocketIo.Pump.{
  Pending, PumpState, passed, Turn, takes_all, handed, outgoing, received, quiet, is_awaited,
  replies, send_event, event_packet, binary_event_packet, last_of, binary_reply, pump_out, complete,
  pump_binary, attach, forget, pump_own, pump_packet, forget_pending, pump_text, pump_received,
  pump_step,
}

module _ (json : Json) (config : SocketIoConfig) where
  abbrev pub ack_packet : ℕ → Bytes → Packet
  ack_packet id arguments = record {
    kind = b'3';
    attachments = 0;
    namespace = config.namespace;
    id = some id;
    text = arguments;
  }

  abbrev pub binary_ack_packet : ℕ → Bytes → Packet
  binary_ack_packet id arguments = record {
    kind = b'6';
    attachments = 1;
    namespace = config.namespace;
    id = some id;
    text = arguments;
  }

  packet_text :
      (loop_open : Bool) (p : Packet) (st : PumpState)
      → IsPacket p
      → pump_text json config loop_open (encode p) st
        ≡ pump_packet json config loop_open (some p) st
  unfolding pump_text encode
  packet_text loop_open p st w =
      ap (λ (o : Option Packet). pump_packet json config loop_open o st) (parse-encode p w)

  own_reply :
      (id : ℕ) (arguments : Bytes) (st : PumpState)
      → st.awaited ≡ some id
      → pump_packet json config true (some (ack_packet id arguments)) st
        ≡ replies true (text arguments) st
  unfolding pump_packet pump_own
  own_reply id arguments st e =
      let here : text_eq config.namespace config.namespace ≡ true = text_eq_refl config.namespace in
      let same : is_awaited (some id) st.awaited ≡ true =
        ap (is_awaited (some id)) e ∙ (==_iff id id).1 refl in
      rw (here, same)

  sent_awaited :
      (f : Frame) (more : List Frame) (st : PumpState) (p : Option Pending)
      → (forget json config p (send_event json config takes_all f more st).state).awaited
        ≡ some st.next_id
  unfolding send_event forget
  sent_awaited f more st none = refl
  sent_awaited f more st (some p) = refl

  -- The event's name and the payload: JSON as it is, and other text as a JSON string.
  abbrev pub arguments_of : Bytes → Bytes
  arguments_of payload =
      b'['
      ∷ (json.quoted config.event
          ++ (b','
              ∷ ((if json.is_json payload then payload else json.quoted payload) ++ (b']' ∷ []))))

  -- One event of the session's namespace goes out with this payload and this id, where the server
  -- can read it.
  pub record Emits (payload : Bytes) (turn : Turn) (id : ℕ) : Type 0 where
    pub event : Packet
    pub goes_out : turn.to_sink ≡ text (encode event) ∷ []
    pub read_back : Packet.parse (encode event) ≡ some event
    pub is_event : event.kind ≡ b'2'
    pub in_session : event.namespace ≡ config.namespace
    pub with_id : event.id ≡ some id
    pub carries : event.text ≡ arguments_of payload

  event-IsPacket :
      (payload arguments : Bytes) (id : ℕ)
      → IsPacket (ack_packet id arguments)
      → IsPacket (event_packet json config id payload)
  unfolding event_packet
  event-IsPacket payload arguments id w = record {
    kind_from = omega arith;
    kind_to = omega arith;
    few = omega arith;
    in_namespace = w.in_namespace;
    id_fits = w.id_fits;
    no_digit = refl;
    no_slash = refl;
  }

  text-Emits :
      (payload arguments : Bytes) (st : PumpState)
      → IsPacket (ack_packet st.next_id arguments)
      → Emits payload
          (pump_step json config (outgoing takes_all (handed (text payload))) st)
          st.next_id
  unfolding pump_step pump_out send_event event_packet
  text-Emits payload arguments st w = record {
    event = event_packet json config st.next_id payload;
    goes_out = refl;
    read_back =
        parse-encode (event_packet json config st.next_id payload)
          (event-IsPacket payload arguments st.next_id w);
    is_event = refl;
    in_session = refl;
    with_id = refl;
    carries = refl;
  }

  -- The loop sends a text and the socket takes it: one event goes out that the server reads with an
  -- id of its own. If the server's next text acknowledges that id, the acknowledgement's arguments,
  -- and nothing else, are what the loop gets, and no request waits.
  pub pump-ack :
      (payload arguments : Bytes) (st : PumpState)
      → IsPacket (ack_packet st.next_id arguments)
      → let sent = pump_step json config (outgoing takes_all (handed (text payload))) st in
        let turn =
          pump_step json config
            (received true (frame (text (encode (ack_packet st.next_id arguments)))))
            sent.state in
        Emits payload sent st.next_id
        × (turn.to_loop ≡ passed (text arguments) ∷ [])
        × (turn.state.awaited ≡ none)
        × (turn.running ≡ true)
  unfolding pump_step pump_out pump_received forget_pending
  pump-ack payload arguments st w =
      let ack = ack_packet st.next_id arguments in
      let event = text (encode (event_packet json config st.next_id payload)) in
      let sent = (send_event json config takes_all event [] st).state in
      let kept = forget json config sent.pending sent in
      let turn : pump_text json config true (encode ack) kept ≡ replies true (text arguments) kept =
        packet_text true ack kept w
        ∙ own_reply st.next_id arguments kept (sent_awaited event [] st sent.pending) in
      (
        text-Emits payload arguments st w,
        ap (λ (t : Turn). t.to_loop) turn,
        ap (λ (t : Turn). t.state.awaited) turn,
        ap (λ (t : Turn). t.running) turn,
      )

  binary_pending :
      (id : ℕ) (arguments : Bytes) (st : PumpState)
      → pump_packet json config true (some (binary_ack_packet id arguments)) st
        ≡ quiet
            (record st {
              pending = some (record {
                ack = text_eq config.namespace config.namespace;
                id = some id;
                arguments = arguments;
                needed = 1;
                attachments = [];
              });
            })
            []
  unfolding pump_packet
  binary_pending id arguments st = refl

  one_attachment :
      (arguments bytes : Bytes)
      → json.is_placeholder arguments ≡ true
      → binary_reply json config arguments (bytes ∷ []) ≡ binary bytes
  unfolding binary_reply last_of
  one_attachment arguments bytes e = rw e

  -- The attachment of the acknowledgement that is awaited.
  attached_reply :
      (id : ℕ) (arguments bytes : Bytes) (st : PumpState)
      → st.awaited ≡ some id
      → json.is_placeholder arguments ≡ true
      → attach json config true
          (some (record {
            ack = text_eq config.namespace config.namespace;
            id = some id;
            arguments = arguments;
            needed = 1;
            attachments = [];
          }))
          (some bytes)
          st
        ≡ replies true (binary bytes) st
  unfolding attach complete
  attached_reply id arguments bytes st e only =
      let here : text_eq config.namespace config.namespace ≡ true = text_eq_refl config.namespace in
      let same : is_awaited (some id) st.awaited ≡ true =
        ap (is_awaited (some id)) e ∙ (==_iff id id).1 refl in
      rw (here, same, one_attachment arguments bytes only)

  -- The loop sends bytes, the socket takes the event and its attachment, and the server's next two
  -- frames are the event's acknowledgement and its only attachment: those bytes are what the loop
  -- gets, and no request waits.
  pub pump-binary_ack :
      (bytes arguments reply : Bytes) (st : PumpState)
      → IsPacket (binary_ack_packet st.next_id arguments)
      → json.is_placeholder arguments ≡ true
      → let sent = pump_step json config (outgoing takes_all (handed (binary bytes))) st in
        let announced =
          pump_step json config
            (received true (frame (text (encode (binary_ack_packet st.next_id arguments)))))
            sent.state in
        let turn =
          pump_step json config
            (received true (frame (binary (wrap_binary config.engine reply))))
            announced.state in
        (announced.to_loop ≡ [])
        × (turn.to_loop ≡ passed (binary reply) ∷ [])
        × (turn.state.awaited ≡ none)
        × (turn.running ≡ true)
  unfolding pump_step pump_out pump_received forget_pending pump_binary
  pump-binary_ack bytes arguments reply st w only =
      let ack = binary_ack_packet st.next_id arguments in
      let attachment : List Frame = binary (wrap_binary config.engine bytes) ∷ [] in
      let event = text (encode (binary_event_packet json config st.next_id)) in
      let sent = (send_event json config takes_all event attachment st).state in
      let kept = forget json config sent.pending sent in
      let first : pump_text json config true (encode ack) kept ≡ announces ack kept =
        packet_text true ack kept w ∙ binary_pending st.next_id arguments kept in
      let second : attach json config true (announces ack kept).state.pending
            (unwrap_binary config.engine (wrap_binary config.engine reply))
            (record ((announces ack kept).state) { pending = none })
          ≡ replies true (binary reply) (record kept { pending = none }) =
        rw (unwrap-wrap_binary config.engine reply) (
          attached_reply st.next_id arguments reply (record kept { pending = none })
            (sent_awaited event attachment st sent.pending) only) in
      let turn =
        ap
          (λ (t : Turn).
            attach json config true t.state.pending
              (unwrap_binary config.engine (wrap_binary config.engine reply))
              (record (t.state) { pending = none }))
          first
        ∙ second in
      (
        ap (λ (t : Turn). t.to_loop) first,
        ap (λ (t : Turn). t.to_loop) turn,
        ap (λ (t : Turn). t.state.awaited) turn,
        ap (λ (t : Turn). t.running) turn,
      )
    where
      announces : Packet → PumpState → Turn
      announces p s =
          quiet
            (record s {
              pending = some (record {
                ack = text_eq config.namespace config.namespace;
                id = p.id;
                arguments = p.text;
                needed = 1;
                attachments = [];
              });
            })
            []
