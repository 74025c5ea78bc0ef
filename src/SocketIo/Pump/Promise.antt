-- ===== src/SocketIo/Pump/Promise.antt =====
-- socketio.rs: the pump's promise to the echo loop, as a relation on the id that is awaited.
use wsblast.Common.{
  sym, ap, ◌≢◌, leb, ℕ, ◌+◌, ◌≡◌, refl, subst, Bool, true, false, ◌&&◌, ◌||◌, Option, none, some,
  List, [], ◌∷◌, ◌++◌, Bytes, length, ◌==◌, arith,
}
use wsblast.Common.Text.{text_eq}
use wsblast.SocketIo.EngineIo.{unwrap_binary}
use wsblast.SocketIo.Packet.{Packet, encode}
use wsblast.SocketIo.Packet
use wsblast.SocketIo.Frame.{
  text, binary, ping, pong, close, Received, frame, ended, failed, SocketIoConfig,
}
use wsblast.SocketIo.Pump.{
  Pending, PumpState, Incoming, passed, broken, Turn, dropped, handed, Event, tick, outgoing,
  received, is_awaited,
}

-- A request is waiting for its answer.
abbrev pub waiting : Option ℕ → Bool
waiting none = false
waiting (some id) = true

-- The answers among what the loop gets; a close frame or an error is none.
abbrev pub is_answer : Incoming → ℕ
is_answer (passed (text t)) = 1
is_answer (passed (binary bytes)) = 1
is_answer (passed (ping bytes)) = 0
is_answer (passed (pong bytes)) = 0
is_answer (passed (close reason)) = 0
is_answer broken = 0

unfoldable pub answers : List Incoming → ℕ
answers [] = 0
answers (i ∷ is) = is_answer i + answers is

-- The loop's requests.
abbrev pub requests : Event → ℕ
requests (tick sent) = 0
requests (received loop_open r) = 0
requests (outgoing sink dropped) = 0
requests (outgoing sink (handed (text t))) = 1
requests (outgoing sink (handed (binary bytes))) = 1
requests (outgoing sink (handed (ping bytes))) = 0
requests (outgoing sink (handed (pong bytes))) = 0
requests (outgoing sink (handed (close reason))) = 0

-- No acknowledgement of the id that is awaited, where one is.
abbrev pub Differs : Option ℕ → Option ℕ → Type 0
Differs none acked = Unit {0}
Differs (some id) none = Unit {0}
Differs (some id) (some other) = id ≢ other

-- One step of the promise: the id awaited before and after, the id of a request and that of an
-- acknowledgement, where there is one, and how many answers are passed on.
pub data Exchange (before after asked acked : Option ℕ) (answered : ℕ) : Type 0 where
  nothing :
      after ≡ before
      → asked ≡ none
      → Differs before acked
      → answered ≡ 0
      → Exchange before after asked acked answered
  request :
      (id : ℕ)
      → asked ≡ some id
      → after ≡ some id
      → answered ≡ 0
      → Exchange before after asked acked answered
  answer :
      (id : ℕ)
      → before ≡ some id
      → acked ≡ some id
      → after ≡ none
      → asked ≡ none
      → answered ≡ 1
      → Exchange before after asked acked answered

-- A request has the next id.
abbrev pub asked_id : PumpState → Event → Option ℕ
asked_id st (tick sent) = none
asked_id st (received loop_open r) = none
asked_id st (outgoing sink dropped) = none
asked_id st (outgoing sink (handed (text t))) = some st.next_id
asked_id st (outgoing sink (handed (binary bytes))) = some st.next_id
asked_id st (outgoing sink (handed (ping bytes))) = none
asked_id st (outgoing sink (handed (pong bytes))) = none
asked_id st (outgoing sink (handed (close reason))) = none

-- An acknowledgement that is complete: a packet of its kinds on the session's namespace with no
-- attachments to come, or the last attachment of one that waits.
abbrev pub if_ack : Bool → Option ℕ → Option ℕ
if_ack true id = id
if_ack false id = none

abbrev pub packet_ack : Bytes → Option Packet → Option ℕ
packet_ack namespace none = none
packet_ack namespace (some p) =
    if_ack
      (p.attachments == 0 && (text_eq p.namespace namespace && (p.kind == b'3' || p.kind == b'6')))
      p.id

abbrev pub attachment_ack : Option Pending → Option Bytes → Option ℕ
attachment_ack none bytes = none
attachment_ack (some p) none = none
attachment_ack (some p) (some bytes) =
    if_ack (leb p.needed (length (p.attachments ++ (bytes ∷ []))) && p.ack) p.id

abbrev pub received_ack : SocketIoConfig → PumpState → Received → Option ℕ
received_ack config st ended = none
received_ack config st failed = none
received_ack config st (frame (text t)) = packet_ack config.namespace (Packet.parse t)
received_ack config st (frame (binary bytes)) =
    attachment_ack st.pending (unwrap_binary config.engine bytes)
received_ack config st (frame (ping bytes)) = none
received_ack config st (frame (pong bytes)) = none
received_ack config st (frame (close reason)) = none

abbrev pub acked_id : SocketIoConfig → PumpState → Event → Option ℕ
acked_id config st (tick sent) = none
acked_id config st (outgoing sink out) = none
acked_id config st (received loop_open r) = received_ack config st r

-- What a turn means to the loop.
abbrev pub Answers : PumpState → Option ℕ → Option ℕ → Turn → Type 0
Answers st asked acked turn =
    Exchange st.awaited turn.state.awaited asked acked (answers turn.to_loop)

pub Differs-none : (awaited : Option ℕ) → Differs awaited none
Differs-none none = tt
Differs-none (some id) = tt

pub is_awaited-Differs :
    (id awaited : Option ℕ) → is_awaited id awaited ≡ false → Differs awaited id
is_awaited-Differs none awaited e = Differs-none awaited
is_awaited-Differs (some id) none e = tt
is_awaited-Differs (some id) (some a) e = λ same. ground arith

pub awaited_same :
    (id awaited : Option ℕ)
    → is_awaited id awaited ≡ true
    → (n : ℕ) × (id ≡ some n) × (awaited ≡ some n)
awaited_same none awaited e = cc
awaited_same (some id) none e = cc
awaited_same (some id) (some a) e = let same : id ≡ a = ground arith in (a, ap some same, refl)

-- A frame that is passed on only where its id is awaited.
pub ack_step :
    (test : Bool) (id awaited : Option ℕ) (acked : Option ℕ)
    → acked ≡ if_ack test id
    → (test && is_awaited id awaited) ≡ false
    → Differs awaited acked
ack_step true id awaited acked e h =
    subst (Differs awaited) (sym e) (is_awaited-Differs id awaited h)
ack_step false id awaited acked e h = subst (Differs awaited) (sym e) (Differs-none awaited)
