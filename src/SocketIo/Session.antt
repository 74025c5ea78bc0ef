-- ===== src/SocketIo/Session.antt =====
-- src/socketio.rs: `open`, which opens a session, one frame of the server at a time.
pub mod Outcome
pub mod Chatter
use wsblast.Common.{
  ℕ, zero, suc, ◌≡◌, refl, ◌⊎◌, inl, inr, Bool, true, false, not, ◌&&◌, ◌||◌, Option, none, some,
  List, [], ◌∷◌, ◌++◌, Bytes, codes, ltb, ◌==◌, if◌then◌else◌,
}
use wsblast.Common.Text.{text_eq, strip_prefix}
use wsblast.Metrics.{ErrorCategory, unexpected_close, protocol_error, read_error, write_error}
use wsblast.SocketIo.EngineIo.{EngineIo, v3, v4}
use wsblast.SocketIo.Packet.{Packet, encode}
use wsblast.SocketIo.Packet
use wsblast.SocketIo.Frame.{
  Frame, text, binary, ping, pong, close, Received, frame, ended, failed, SocketIoConfig, Json,
}

pub record Opening : Type 0 where
  pub is_open : Bool
  pub ping_every : Option ℕ

pub data Progress : Type 0 where
  waits : Opening → Progress
  opened : Option ℕ → Progress
  gives_up : ErrorCategory → Progress

-- To split on how far a session is and keep the equation.
pub Progress-cases :
    (p : Progress)
    → ((st : Opening) × (p ≡ waits st))
      ⊎ ((interval : Option ℕ) × (p ≡ opened interval))
      ⊎ ((e : ErrorCategory) × (p ≡ gives_up e))
Progress-cases (waits st) = inl (st, refl)
Progress-cases (opened interval) = inr (inl (interval, refl))
Progress-cases (gives_up e) = inr (inr (e, refl))

-- What a round leads to, and the frames it sends.
pub record Round : Type 0 where
  pub progress : Progress
  pub sent : List Frame

abbrev pub silent : Progress → Round
silent progress = record { progress = progress; sent = [] }

-- A send that fails ends the session.
abbrev pub sends : Bool → Frame → Opening → Round
sends sent_ok f st = record {
  progress = if sent_ok then waits st else gives_up write_error;
  sent = f ∷ [];
}

abbrev pub behind : List Frame → Round → Round
behind sent r = record r { sent = sent ++ r.sent }

abbrev pub start : Opening
start = record { is_open = false; ping_every = none }

-- `filter(|ms| *ms > 0)`
abbrev pub positive : Option ℕ → Option ℕ
positive none = none
positive (some zero) = none
positive (some (suc ms)) = some (suc ms)

abbrev or_empty : Option Bytes → Bytes
or_empty none = []
or_empty (some auth) = auth

module _ (json : Json) (config : SocketIoConfig) (auth : Option Bytes) where
  pub connect_packet : Bytes → Packet
  connect_packet credentials = record {
    kind = b'0';
    attachments = 0;
    namespace = config.namespace;
    id = none;
    text = credentials;
  }

  abbrev connect : Bool → Bytes → Option ℕ → Round
  connect sent_ok credentials interval =
      sends sent_ok (text (encode (connect_packet credentials)))
        (record { is_open = true; ping_every = interval })

  -- An Engine.IO 3 client needs the interval; the server joins the default namespace on its own.
  pub begin : EngineIo → Bool → Option ℕ → Round
  unfolding connect_packet
  begin v4 sent_ok interval = connect sent_ok (or_empty auth) none
  begin v3 sent_ok interval = elim (positive interval) [
    | none ↦ silent (gives_up protocol_error)
    | some ms ↦
        if text_eq config.namespace (codes "/")
        then silent (waits (record { is_open = true; ping_every = some ms }))
        else connect sent_ok [] (some ms)
  ]

  -- The open packet: `0{"sid":...,"pingInterval":...}`.
  pub on_open_packet : Bool → Bytes → Round
  unfolding begin
  on_open_packet sent_ok t = elim (strip_prefix (codes "0") t) [
    | none ↦ silent (gives_up protocol_error)
    | some open_text ↦ elim (json.ping_interval open_text) [
      | none ↦ silent (gives_up protocol_error)
      | some interval ↦ begin config.engine sent_ok interval
    ]
  ]

  abbrev on_kind : ℕ → Opening → Round
  on_kind kind st =
      if kind == b'0'
      then silent (opened st.ping_every)
      else if kind == b'4' || kind == b'1'
      then silent (gives_up protocol_error)
      else silent (waits st)

  pub on_message : Bytes → Opening → Round
  on_message t st = elim (Packet.parse t) [
    | none ↦ silent (waits st)
    | some p ↦ if text_eq p.namespace config.namespace then on_kind p.kind st else silent (waits st)
  ]

  pub on_text : Bool → Bytes → Opening → Round
  unfolding on_message
  on_text sent_ok t st =
      if text_eq t (codes "2")
      then sends sent_ok (text (codes "3")) st
      else if text_eq t (codes "1")
      then silent (gives_up unexpected_close)
      else on_message t st

  -- One round of the loop. The pong's result is not looked at.
  pub open_step : Bool → Received → Opening → Round
  unfolding on_open_packet on_text
  open_step sent_ok (frame (text t)) st =
      if st.is_open then on_text sent_ok t st else on_open_packet sent_ok t
  open_step sent_ok (frame (ping bytes)) st = record { progress = waits st; sent = pong bytes ∷ [] }
  open_step sent_ok (frame (close reason)) st = silent (gives_up unexpected_close)
  open_step sent_ok ended st = silent (gives_up unexpected_close)
  open_step sent_ok (frame (binary bytes)) st =
      if st.is_open then silent (waits st) else silent (gives_up protocol_error)
  open_step sent_ok (frame (pong bytes)) st = silent (waits st)
  open_step sent_ok failed st = silent (gives_up read_error)

  -- The loop, over what arrives and whether a send in that round succeeds.
  pub open_run : Opening → List (Bool × Received) → Round
  unfolding open_step
  open_run st [] = silent (waits st)
  open_run st ((sent_ok, r) ∷ rest) =
      let round = open_step sent_ok r st in
      elim round.progress [
        | waits st' ↦ behind round.sent (open_run st' rest)
        | opened interval ↦ round
        | gives_up e ↦ round
      ]
