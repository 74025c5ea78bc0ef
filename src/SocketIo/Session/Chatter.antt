-- ===== src/SocketIo/Session/Chatter.antt =====
-- socketio.rs: what a server may send between its open packet and its answer to the connect.
use wsblast.Common.{
  ℕ, zero, suc, ◌≡◌, refl, ap, subst, ◌∙◌, inl, inr, Bool, true, false, Bool-cases, Option, none,
  some, List, [], ◌∷◌, ◌++◌, Bytes, codes, All, if◌then◌else◌,
}
use wsblast.Common.Text.{text_eq, text_eq_refl}
use wsblast.SocketIo.EngineIo.{EngineIo, v3, v4}
use wsblast.SocketIo.Packet.{Packet, encode}
use wsblast.SocketIo.Packet.RoundTrip.{IsPacket, parse-encode}
use wsblast.SocketIo.Frame.{text, binary, ping, pong, Received, frame, SocketIoConfig, Json}
use wsblast.SocketIo.Session.{
  Opening, waits, opened, gives_up, protocol_error, Round, silent, start, positive, begin,
  on_open_packet, on_message, on_text, open_step, open_run,
}
use wsblast.SocketIo.Session.Outcome.{Fitting}

-- What a server may send in between to a session on a namespace: pings and pongs, attachments,
-- heartbeats that are answered, events, and any packet on another namespace.
pub data Chatter (namespace : Bytes) : Bool → Received → Type 0 where
  pinged : {sent_ok : Bool} (bytes : Bytes) → Chatter namespace sent_ok (frame (ping bytes))
  ponged : {sent_ok : Bool} (bytes : Bytes) → Chatter namespace sent_ok (frame (pong bytes))
  attached : {sent_ok : Bool} (bytes : Bytes) → Chatter namespace sent_ok (frame (binary bytes))
  heartbeat : Chatter namespace true (frame (text (codes "2")))
  emitted :
      {sent_ok : Bool} (p : Packet)
      → IsPacket p
      → p.kind ≡ b'2'
      → Chatter namespace sent_ok (frame (text (encode p)))
  addressed_elsewhere :
      {sent_ok : Bool} (p : Packet)
      → IsPacket p
      → text_eq p.namespace namespace ≡ false
      → Chatter namespace sent_ok (frame (text (encode p)))

-- The interval a session keeps.
abbrev pub agreed : EngineIo → Option ℕ → Option ℕ
agreed v3 interval = positive interval
agreed v4 interval = none

module _ (json : Json) (config : SocketIoConfig) (auth : Option Bytes) where
  open_text :
      (sent_ok : Bool) (t : Bytes) (st : Opening)
      → st.is_open ≡ true
      → open_step json config auth sent_ok (frame (text t)) st
        ≡ on_text json config auth sent_ok t st
  unfolding open_step
  open_text sent_ok t st e =
      ap
        (λ (b : Bool).
          if b
          then on_text json config auth sent_ok t st
          else on_open_packet json config auth sent_ok t)
        e

  open_packet :
      (t : Bytes) (interval : Option ℕ)
      → json.ping_interval t ≡ some interval
      → (open_step json config auth true (frame (text (b'0' ∷ t))) start).progress
        ≡ (begin json config auth config.engine true interval).progress
  unfolding open_step on_open_packet
  open_packet t interval e = rw (e, on_open_packet)

  encoded_text :
      (sent_ok : Bool) (p : Packet) (st : Opening)
      → on_text json config auth sent_ok (encode p) st ≡ on_message json config auth (encode p) st
  unfolding on_text encode
  encoded_text sent_ok p st = refl

  event_message :
      (p : Packet) (st : Opening)
      → IsPacket p
      → p.kind ≡ b'2'
      → (on_message json config auth (encode p) st).progress ≡ waits st
  unfolding on_message
  event_message p st w kind = elim (Bool-cases (text_eq p.namespace config.namespace)) [
    | inl here ↦ rw (parse-encode p w, on_message, here, kind)
    | inr elsewhere ↦ rw (parse-encode p w, on_message, elsewhere)
  ]

  other_message :
      (p : Packet) (st : Opening)
      → IsPacket p
      → text_eq p.namespace config.namespace ≡ false
      → (on_message json config auth (encode p) st).progress ≡ waits st
  unfolding on_message
  other_message p st w elsewhere = rw (parse-encode p w, on_message, elsewhere)

  connect_message :
      (p : Packet) (st : Opening)
      → IsPacket p
      → p.kind ≡ b'0'
      → p.namespace ≡ config.namespace
      → (on_message json config auth (encode p) st).progress ≡ opened st.ping_every
  unfolding on_message
  connect_message p st w kind here =
      let same : text_eq p.namespace config.namespace ≡ true =
        subst (λ (n : Bytes). text_eq p.namespace n ≡ true) here (text_eq_refl p.namespace) in
      rw (parse-encode p w, on_message, same, kind)

  Chatter-step :
      {sent_ok : Bool} {r : Received} (st : Opening)
      → Chatter config.namespace sent_ok r
      → st.is_open ≡ true
      → (open_step json config auth sent_ok r st).progress ≡ waits st
  unfolding open_step
  Chatter-step st (pinged bytes) e = refl
  Chatter-step st (ponged bytes) e = refl
  Chatter-step st (attached bytes) e =
      ap
        (λ (b : Bool). (if b then silent (waits st) else silent (gives_up protocol_error)).progress)
        e
  Chatter-step st heartbeat e =
      ap (λ (r : Round). r.progress) (open_text true (codes "2") st e) ∙ unfold on_text in refl
  Chatter-step {sent_ok} st (emitted p w kind) e =
      ap (λ (r : Round). r.progress) (open_text sent_ok (encode p) st e ∙ encoded_text sent_ok p st)
      ∙ event_message p st w kind
  Chatter-step {sent_ok} st (addressed_elsewhere p w other) e =
      ap (λ (r : Round). r.progress) (open_text sent_ok (encode p) st e ∙ encoded_text sent_ok p st)
      ∙ other_message p st w other

  run_on :
      (sent_ok : Bool) (r : Received) (st st' : Opening) (rest : List (Bool × Received))
      → (open_step json config auth sent_ok r st).progress ≡ waits st'
      → (open_run json config auth st ((sent_ok, r) ∷ rest)).progress
        ≡ (open_run json config auth st' rest).progress
  unfolding open_run
  run_on sent_ok r st st' rest e = rw (e, open_run)

  run_ends :
      (sent_ok : Bool) (r : Received) (st : Opening) (interval : Option ℕ)
      (rest : List (Bool × Received))
      → (open_step json config auth sent_ok r st).progress ≡ opened interval
      → (open_run json config auth st ((sent_ok, r) ∷ rest)).progress ≡ opened interval
  unfolding open_run
  run_ends sent_ok r st interval rest e = rw (e, open_run) e

  module _ (p : Packet) (w : IsPacket p) (kind : p.kind ≡ b'0')
      (here : p.namespace ≡ config.namespace) where
    Chatter-run :
        (events rest : List (Bool × Received)) (sent_ok : Bool) (st : Opening)
        → All (λ e. Chatter config.namespace e.0 e.1) events
        → st.is_open ≡ true
        → (open_run json config auth st
            (events ++ ((sent_ok, frame (text (encode p))) ∷ rest))).progress
          ≡ opened st.ping_every
    Chatter-run [] rest sent_ok st h e =
        run_ends sent_ok (frame (text (encode p))) st st.ping_every rest (
          ap (λ (r : Round). r.progress)
            (open_text sent_ok (encode p) st e ∙ encoded_text sent_ok p st)
          ∙ connect_message p st w kind here)
    Chatter-run ((ok, r) ∷ events) rest sent_ok st (c, h) e =
        run_on ok r st st (events ++ ((sent_ok, frame (text (encode p))) ∷ rest))
          (Chatter-step st c e)
        ∙ Chatter-run events rest sent_ok st h e

    begun :
        (engine : EngineIo) (interval : Option ℕ)
        → Fitting engine (agreed engine interval)
        → (begin json config auth engine true interval).progress
          ≡ waits (record { is_open = true; ping_every = agreed engine interval })
    unfolding begin
    begun v4 interval h = refl
    begun v3 none h = absurd h
    begun v3 (some zero) h = absurd h
    begun v3 (some (suc ms)) h = elim (Bool-cases (text_eq config.namespace (codes "/"))) [
      | inl default ↦ rw default
      | inr other ↦ rw other
    ]

    -- A session opens once the server has sent an open packet first, with an interval that fits the
    -- version, and then answers the connect on the session's namespace, if only pings, pongs,
    -- attachments, heartbeats, events and packets on other namespaces come in between, and the connect
    -- and the heartbeats' answers are sent.
    pub open_run_opens :
        (open_text : Bytes) (interval : Option ℕ) (events rest : List (Bool × Received))
        (sent_ok : Bool)
        → json.ping_interval open_text ≡ some interval
        → Fitting config.engine (agreed config.engine interval)
        → All (λ e. Chatter config.namespace e.0 e.1) events
        → (open_run json config auth start (
            (true, frame (text (b'0' ∷ open_text)))
            ∷ (events ++ ((sent_ok, frame (text (encode p))) ∷ rest)))).progress
          ≡ opened (agreed config.engine interval)
    open_run_opens open_text interval events rest sent_ok read fits h =
        let st : Opening = record { is_open = true; ping_every = agreed config.engine interval } in
        run_on true (frame (text (b'0' ∷ open_text))) start st
          (events ++ ((sent_ok, frame (text (encode p))) ∷ rest))
          (open_packet open_text interval read ∙ begun config.engine interval fits)
        ∙ Chatter-run events rest sent_ok st h refl
