-- ===== src/SocketIo/Runs.antt =====
-- socketio.rs at concrete packets and sessions.
use wsblast.Common.{
  ◌+◌, ◌≤◌, ◌≡◌, refl, Bool, true, false, none, some, List, [], ◌∷◌, ◌++◌, Bytes, codes, arith,
}
use wsblast.Common.Text.{text_eq}
use wsblast.SocketIo.EngineIo.{v3}
use wsblast.SocketIo.Packet.{Packet, encode, parse, placeholder}
use wsblast.SocketIo.Packet.RoundTrip.{IsPacket, parse-encode}
use wsblast.SocketIo.Frame.{text, ping, Received, frame, SocketIoConfig, Json}
use wsblast.SocketIo.Session
use wsblast.SocketIo.Session.{opened, open_run}
use wsblast.SocketIo.Session.Chatter.{pinged, heartbeat, open_run_opens}
use wsblast.SocketIo.Settings.{validate}
use wsblast.SocketIo.Pump.{
  passed, takes_all, handed, Event, tick, outgoing, received, start, pump_step, pump_run,
}
use wsblast.SocketIo.Pump.Promise.{Answers, answers, waiting}
use wsblast.SocketIo.Pump.Exchange.{one_if, asked_by, pump_step-Exchange, answers-pump_run}
use wsblast.SocketIo.Pump.Invariant.{IsSound, pump_run-IsSound}
use wsblast.SocketIo.Pump.Reply.{ack_packet, binary_ack_packet, Emits, pump-ack}

abbrev binary_ack : Packet
binary_ack = record {
  kind = b'6';
  attachments = 2;
  namespace = codes "/chat";
  id = some 12;
  text = codes "[1]";
}

ack_text : encode binary_ack ≡ codes "462-/chat,12[1]"
unfolding encode
ack_text = refl

ack_read : parse (codes "462-/chat,12[1]") ≡ some binary_ack
unfolding parse
ack_read = refl

too_many : parse (codes "451025-[]") ≡ none
unfolding parse
too_many = refl

binary_ack-IsPacket : IsPacket binary_ack
binary_ack-IsPacket = record {
  kind_from = omega arith;
  kind_to = omega arith;
  few = omega arith;
  in_namespace = (refl, (refl, (refl, (refl, (refl, tt)))));
  id_fits = omega arith;
  no_digit = refl;
  no_slash = refl;
}

parse-encode_example : parse (encode binary_ack) ≡ some binary_ack
parse-encode_example = parse-encode binary_ack binary_ack-IsPacket

-- A JSON library for these runs: every text is JSON, and every open packet asks for 25 s.
abbrev json : Json
json = record {
  quoted = λ t. b'"' ∷ (t ++ (b'"' ∷ []));
  is_json = λ t. false;
  is_object = λ t. true;
  is_placeholder = λ t. text_eq t (b'[' ∷ (placeholder ++ (b']' ∷ [])));
  ping_interval = λ t. some (some 25000);
}

abbrev chat : SocketIoConfig
chat = record { namespace = codes "/chat"; event = codes "message"; auth = none; engine = v3 }

chat_valid : validate json chat ≡ none
unfolding validate
chat_valid = refl

abbrev connected : Packet
connected = record {
  kind = b'0';
  attachments = 0;
  namespace = codes "/chat";
  id = none;
  text = codes "{}";
}

connected-IsPacket : IsPacket connected
connected-IsPacket = record {
  kind_from = omega arith;
  kind_to = omega arith;
  few = omega arith;
  in_namespace = (refl, (refl, (refl, (refl, (refl, tt)))));
  id_fits = tt;
  no_digit = refl;
  no_slash = refl;
}

abbrev greeting : List (Bool × Received)
greeting =
    (true, frame (text (codes "0{}")))
    ∷ (true, frame (ping []))
    ∷ (true, frame (text (codes "2")))
    ∷ (true, frame (text (encode connected)))
    ∷ []

open_run_opens_example :
    (open_run json chat none Session.start greeting).progress ≡ opened (some 25000)
open_run_opens_example =
    open_run_opens json chat none connected connected-IsPacket refl refl (codes "{}") (some 25000)
      ((true, frame (ping [])) ∷ (true, frame (text (codes "2"))) ∷ []) [] true refl (omega arith)
      (pinged [], (heartbeat, tt))

pump_step-Exchange_example :
    Answers
      (record start { next_id = 8; awaited = some 7 })
      none
      (some 6)
      (pump_step json chat
        (received true (frame (text (codes "43/chat,6[]"))))
        (record start { next_id = 8; awaited = some 7 }))
unfolding parse
pump_step-Exchange_example =
    pump_step-Exchange json chat (received true (frame (text (codes "43/chat,6[]"))))
      (record start { next_id = 8; awaited = some 7 })

abbrev run : List Event
run =
    outgoing takes_all (handed (text (codes "hi")))
    ∷ received true (frame (text (codes "43/chat,0[\"ok\"]")))
    ∷ tick true
    ∷ []

answers-pump_run_example :
    answers (pump_run json chat run start).to_loop
      + one_if json chat (waiting (pump_run json chat run start).state.awaited)
    ≤ asked_by json chat run + one_if json chat (waiting start.awaited)
answers-pump_run_example = answers-pump_run json chat run start

pump_run-IsSound_example : IsSound (pump_run json chat run start).state
pump_run-IsSound_example = pump_run-IsSound json chat run

first_ack-IsPacket : IsPacket (ack_packet json chat 0 (codes "[\"ok\"]"))
first_ack-IsPacket = record {
  kind_from = omega arith;
  kind_to = omega arith;
  few = omega arith;
  in_namespace = (refl, (refl, (refl, (refl, (refl, tt)))));
  id_fits = omega arith;
  no_digit = refl;
  no_slash = refl;
}

pump-ack_example :
    let sent = pump_step json chat (outgoing takes_all (handed (text (codes "hi")))) start in
    let turn =
      pump_step json chat
        (received true (frame (text (encode (ack_packet json chat 0 (codes "[\"ok\"]"))))))
        sent.state in
    Emits json chat (codes "hi") sent 0
    × (turn.to_loop ≡ passed (text (codes "[\"ok\"]")) ∷ [])
    × (turn.state.awaited ≡ none)
    × (turn.running ≡ true)
pump-ack_example = pump-ack json chat (codes "hi") (codes "[\"ok\"]") start first_ack-IsPacket

abbrev only_placeholder : Bytes
only_placeholder = b'[' ∷ (placeholder ++ (b']' ∷ []))

first_binary_ack-IsPacket : IsPacket (binary_ack_packet json chat 0 only_placeholder)
first_binary_ack-IsPacket = record {
  kind_from = omega arith;
  kind_to = omega arith;
  few = omega arith;
  in_namespace = (refl, (refl, (refl, (refl, (refl, tt)))));
  id_fits = omega arith;
  no_digit = refl;
  no_slash = refl;
}
