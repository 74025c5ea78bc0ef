-- ===== src/SocketIo/Session/Outcome.antt =====
-- socketio.rs: what a session that `open` has opened is told about its pings.
use wsblast.Common.{
  ℕ, zero, suc, ◌<◌, ◌≡◌, subst, inl, inr, Bool, true, false, Bool-cases, Option-cases, if_intro,
  ◌||◌, Option, none, some, List, [], ◌∷◌, Bytes, codes, ◌==◌, arith,
}
use wsblast.Common.Text.{text_eq, strip_prefix}
use wsblast.SocketIo.EngineIo.{EngineIo, v3, v4}
use wsblast.SocketIo.Packet
use wsblast.SocketIo.Frame.{
  text, binary, ping, pong, close, Received, frame, ended, failed, SocketIoConfig, Json,
}
use wsblast.SocketIo.Session.{
  Opening, Progress, waits, opened, gives_up, protocol_error, Progress-cases, silent, sends,
  connect_packet, start, begin, on_open_packet, on_message, on_text, open_step, open_run,
}

-- The interval that fits a version: an Engine.IO 3 client pings, a version 4 client does not.
abbrev pub Fitting : EngineIo → Option ℕ → Type 0
Fitting v3 none = ⊥
Fitting v3 (some ms) = 0 < ms
Fitting v4 none = Unit {0}
Fitting v4 (some ms) = ⊥

abbrev InStep : EngineIo → Progress → Type 0
InStep engine (waits st) = st.is_open ≡ true → Fitting engine st.ping_every
InStep engine (opened interval) = Fitting engine interval
InStep engine (gives_up e) = Unit {0}

module _ (json : Json) (config : SocketIoConfig) (auth : Option Bytes) where
  begin-InStep :
      (engine : EngineIo) (sent_ok : Bool) (interval : Option ℕ)
      → InStep engine (begin json config auth engine sent_ok interval).progress
  unfolding begin
  begin-InStep v4 true interval = λ e. tt
  begin-InStep v4 false interval = tt
  begin-InStep v3 sent_ok none = tt
  begin-InStep v3 sent_ok (some zero) = tt
  begin-InStep v3 sent_ok (some (suc ms)) =
      elim (Bool-cases (text_eq config.namespace (codes "/"))) [
        | inl default ↦ rw default (λ e. omega arith)
        | inr other ↦ rw other (connect-InStep sent_ok ms)
      ]
    where
      connect-InStep :
          (sent : Bool) (n : ℕ)
          → InStep v3
              (sends sent
                (text (Packet.encode (connect_packet json config auth [])))
                (record { is_open = true; ping_every = some (suc n) })).progress
      connect-InStep true n = λ e. omega arith
      connect-InStep false n = tt

  open_packet-InStep :
      (sent_ok : Bool) (t : Bytes)
      → InStep config.engine (on_open_packet json config auth sent_ok t).progress
  unfolding on_open_packet
  open_packet-InStep sent_ok t = elim (Option-cases (strip_prefix (codes "0") t)) [
    | inl missing ↦ rw (missing, on_open_packet) tt
    | inr (open_text, found) ↦ elim (Option-cases (json.ping_interval open_text)) [
      | inl malformed ↦ rw (found, on_open_packet, malformed) tt
      | inr (interval, read) ↦
          rw (found, on_open_packet, read) (begin-InStep config.engine sent_ok interval)
    ]
  ]

  message-InStep :
      (t : Bytes) (st : Opening)
      → Fitting config.engine st.ping_every
      → InStep config.engine (on_message json config auth t st).progress
  unfolding on_message
  message-InStep t st h = elim (Option-cases (Packet.parse t)) [
    | inl malformed ↦ rw (malformed, on_message) (λ e. h)
    | inr (p, read) ↦ elim (Bool-cases (text_eq p.namespace config.namespace)) [
      | inr elsewhere ↦ rw (read, on_message, elsewhere) (λ e. h)
      | inl here ↦ elim (Bool-cases (p.kind == b'0')) [
        | inl connected ↦ rw (read, on_message, here, connected) h
        | inr other ↦ elim (Bool-cases (p.kind == b'4' || p.kind == b'1')) [
          | inl refused ↦ rw (read, on_message, here, other, refused) tt
          | inr event ↦ rw (read, on_message, here, other, event) (λ e. h)
        ]
      ]
    ]
  ]

  text-InStep :
      (sent_ok : Bool) (t : Bytes) (st : Opening)
      → Fitting config.engine st.ping_every
      → InStep config.engine (on_text json config auth sent_ok t st).progress
  unfolding on_text
  text-InStep sent_ok t st h = elim (Bool-cases (text_eq t (codes "2"))) [
    | inl heartbeat ↦ rw heartbeat (elim (Bool-cases sent_ok) [
      | inl yes_sent ↦ rw yes_sent (λ e. h)
      | inr unsent ↦ rw unsent tt
    ])
    | inr other ↦ elim (Bool-cases (text_eq t (codes "1"))) [
      | inl closed ↦ rw (other, closed) tt
      | inr message ↦ rw (other, message) (message-InStep t st h)
    ]
  ]

  step-InStep :
      (sent_ok : Bool) (r : Received) (st : Opening)
      → InStep config.engine (waits st)
      → InStep config.engine (open_step json config auth sent_ok r st).progress
  unfolding open_step
  step-InStep sent_ok (frame (text t)) st h =
      if_intro (λ r. InStep config.engine r.progress) st.is_open
        (on_text json config auth sent_ok t st) (on_open_packet json config auth sent_ok t)
        (λ ready. text-InStep sent_ok t st (h ready)) (λ early. open_packet-InStep sent_ok t)
  step-InStep sent_ok (frame (ping bytes)) st h = h
  step-InStep sent_ok (frame (pong bytes)) st h = h
  step-InStep sent_ok (frame (close reason)) st h = tt
  step-InStep sent_ok ended st h = tt
  step-InStep sent_ok failed st h = tt
  step-InStep sent_ok (frame (binary bytes)) st h =
      if_intro (λ r. InStep config.engine r.progress) st.is_open (silent (waits st))
        (silent (gives_up protocol_error)) (λ ready. h) (λ early. tt)

  run-InStep :
      (events : List (Bool × Received)) (st : Opening)
      → InStep config.engine (waits st)
      → InStep config.engine (open_run json config auth st events).progress
  unfolding open_run
  run-InStep [] st h = h
  run-InStep ((sent_ok, r) ∷ rest) st h =
      let next = step-InStep sent_ok r st h in
      elim (Progress-cases (open_step json config auth sent_ok r st).progress) [
        | inl (st', more) ↦
            rw (more, open_run) (run-InStep rest st' (subst (InStep config.engine) more next))
        | inr (inl (interval, done)) ↦ rw (done, open_run) next
        | inr (inr (e, lost)) ↦ rw (lost, open_run) next
      ]

  -- Whatever the server sends, a session that opens is told to ping at a positive interval where it
  -- speaks Engine.IO 3, and not to ping where it speaks Engine.IO 4.
  pub open_run-Fitting :
      (events : List (Bool × Received)) (interval : Option ℕ)
      → (open_run json config auth start events).progress ≡ opened interval
      → Fitting config.engine interval
  open_run-Fitting events interval e =
      subst (InStep config.engine) e (run-InStep events start (λ closed. cc))
