-- ===== src/Worker/Streaming.antt =====
-- worker.rs: the stream loop and the listen loop. An event is the branch of `select!` that is
-- taken, with what the runtime, the socket, the clock and the random draws do in it; an event whose
-- branch is disabled is passed over.
pub mod Ledger
pub mod Steps
pub mod Counts
pub mod Accounts
use wsblast.Common.{
  ℕ, zero, suc, ◌+◌, Bool, false, not, ◌&&◌, Option, none, some, List, [], ◌∷◌, ◌++◌, Bytes, codes,
  leb, if◌then◌else◌,
}
use wsblast.SocketIo.Frame.{Frame, text, binary, ping, pong, close}
use wsblast.Metrics.{attempt, Recorders, Recording, add64}
use wsblast.Metrics.Methods.{
  record_error, record_message_sent, record_message_recv, record_chaos_delayed,
  record_chaos_dropped, record_chaos_corrupted, record_chaos_read_pause, record_chaos_close,
}
use wsblast.Worker.{message_byte_len, reading, writing, TungsteniteError, categorize_session_error}
use wsblast.Worker.Echo.{
  SendPlan, Arrival, arrived, broken, Exit, goes_on, exits, finished, keepalive_ping, session_end,
}

-- A tick of the pacing timer. `refusal` is the error of the send; `stops_last` tells whether the
-- run is cancelled when the session ends.
pub record Tick : Type 0 where
  pub claimed : Bool
  pub plan : SendPlan
  pub stops_delay : Bool
  pub corruption : Frame → Frame × Bool
  pub refusal : Option TungsteniteError
  pub closes : Option Bool
  pub stops_thinking : Bool
  pub stops_last : Bool

-- What `stream.next()` gives, and when; `none` is the end of the stream.
pub record Reading : Type 0 where
  pub received : Option Arrival
  pub read_at : ℕ
  pub read_pause : Option ℕ
  pub stops_last : Bool

-- The branches that both loops have.
pub data ListenEvent : Type 0 where
  keepalive_due cancelled : ListenEvent
  resumes : ℕ → ListenEvent
  reads : Reading → ListenEvent

pub data StreamEvent : Type 0 where
  ticks : Tick → StreamEvent
  listens : ListenEvent → StreamEvent

pub record StreamConfig : Type 0 where
  pub keepalive : Bool
  pub render : ℕ → Frame
  pub thinks : Bool

pub record Streaming (L I : Type 0) : Type 0 where
  pub recording : Recording L I
  pub seq : ℕ
  pub outgoing : List Frame
  pub read_resume : Option ℕ

module _ {L I : Type 0} where
  abbrev pub puts : List Frame → Streaming L I → Streaming L I
  puts frames s = record s { outgoing = s.outgoing ++ frames }

  abbrev pub counts : (Recording L I → Recording L I) → Streaming L I → Streaming L I
  counts f s = record s { recording = f s.recording }

  -- `sink.send(Message::Close(None))` and `break`, in a run that is cancelled.
  abbrev pub breaks_off : Streaming L I → Streaming L I × Exit
  breaks_off s = (puts (close none ∷ []) s, exits finished)

  abbrev pub next_seq : Streaming L I → Streaming L I
  next_seq s = record s { seq = add64 s.seq 1 }

module _ {L I : Type 0} (recorders : Recorders L I) (c : StreamConfig) where
  -- `chaos_close_now`, `chaos_close` and `apply_think_time`
  unfoldable pub after_write : Tick → Option Bool → Streaming L I → Streaming L I × Exit
  after_write t none s = if c.thinks && t.stops_thinking then breaks_off s else (s, goes_on)
  after_write t (some graceful) s =
      let s' = counts (record_chaos_close recorders) s in
      (
        if graceful then puts (close (some (codes "wsblast chaos close")) ∷ []) s' else s',
        exits (session_end t.stops_last),
      )

  unfoldable pub write_message :
      Tick → Frame → Option TungsteniteError → Streaming L I → Streaming L I × Exit
  unfolding after_write
  write_message t frame (some e) s = (
    counts (record_error recorders (categorize_session_error e writing) attempt) s,
    exits (session_end t.stops_last),
  )
  write_message t frame none s = after_write t t.closes (
      next_seq
        (counts (record_message_sent recorders (message_byte_len frame)) (puts (frame ∷ []) s)))

  unfoldable pub corrupt_and_write : Tick → Frame × Bool → Streaming L I → Streaming L I × Exit
  unfolding write_message
  corrupt_and_write t (frame, changed) s =
      write_message t frame t.refusal
        (if changed then counts (record_chaos_corrupted recorders) s else s)

  unfoldable pub plan_and_write : Tick → Streaming L I → Streaming L I × Exit
  unfolding corrupt_and_write
  plan_and_write t s =
      corrupt_and_write t
        (if t.plan.corrupts then t.corruption (c.render s.seq) else (c.render s.seq, false)) s

  unfoldable pub delayed_write : Tick → ℕ → Streaming L I → Streaming L I × Exit
  unfolding plan_and_write
  delayed_write t zero s = plan_and_write t s
  delayed_write t (suc d) s =
      let s' = counts (record_chaos_delayed recorders) s in
      if t.stops_delay then breaks_off s' else plan_and_write t s'

  unfoldable pub on_tick : Tick → Streaming L I → Streaming L I × Exit
  unfolding delayed_write
  on_tick t s =
      if not t.claimed
      then breaks_off s
      else if t.plan.skips
      then (next_seq (counts (record_chaos_dropped recorders) s), goes_on)
      else delayed_write t t.plan.delay s

  -- `chaos_read_pause`
  unfoldable pub pauses_reads : ℕ → Option ℕ → Streaming L I → Streaming L I
  pauses_reads now none s = record s { read_resume = none }
  pauses_reads now (some pause) s = record (counts (record_chaos_read_pause recorders) s) {
    read_resume = some (now + pause);
  }

  abbrev pub receives : Reading → Frame → Streaming L I → Streaming L I
  receives r frame s =
      pauses_reads r.read_at r.read_pause
        (counts (record_message_recv recorders (message_byte_len frame) none) s)

  -- `match msg_opt`
  unfoldable pub on_read : Reading → Option Arrival → Streaming L I → Streaming L I × Exit
  unfolding pauses_reads
  on_read r none s = (s, exits (session_end r.stops_last))
  on_read r (some (broken e)) s = (
    counts (record_error recorders (categorize_session_error e reading) attempt) s,
    exits (session_end r.stops_last),
  )
  on_read r (some (arrived (text t))) s = (receives r (text t) s, goes_on)
  on_read r (some (arrived (binary b))) s = (receives r (binary b) s, goes_on)
  on_read r (some (arrived (ping payload))) s = (puts (pong payload ∷ []) s, goes_on)
  on_read r (some (arrived (pong payload))) s = (s, goes_on)
  on_read r (some (arrived (close reason))) s = (s, exits (session_end r.stops_last))

  -- `sleep_until_resume`, once its instant has come.
  abbrev pub on_resume : ℕ → Option ℕ → Streaming L I → Streaming L I
  on_resume now none s = s
  on_resume now (some at) s = if leb at now then record s { read_resume = none } else s

  -- A frame is read only when no pause is on.
  abbrev pub on_unpaused : Reading → Option ℕ → Streaming L I → Streaming L I × Exit
  on_unpaused r none s = on_read r r.received s
  on_unpaused r (some at) s = (s, goes_on)

  unfoldable pub listen_pass : ListenEvent → Streaming L I → Streaming L I × Exit
  unfolding on_read
  listen_pass keepalive_due s = (if c.keepalive then puts (keepalive_ping ∷ []) s else s, goes_on)
  listen_pass (resumes now) s = (on_resume now s.read_resume s, goes_on)
  listen_pass (reads r) s = on_unpaused r s.read_resume s
  listen_pass cancelled s = breaks_off s

  unfoldable pub stream_pass : StreamEvent → Streaming L I → Streaming L I × Exit
  unfolding on_tick listen_pass
  stream_pass (ticks t) s = on_tick t s
  stream_pass (listens e) s = listen_pass e s

  abbrev pub unless_exited :
      (Streaming L I → Streaming L I × Exit) → Streaming L I × Exit → Streaming L I × Exit
  unless_exited rest (s, goes_on) = rest s
  unless_exited rest (s, exits end) = (s, exits end)

  unfoldable pub stream_run : List StreamEvent → Streaming L I → Streaming L I × Exit
  unfolding stream_pass
  stream_run [] s = (s, goes_on)
  stream_run (e ∷ events) s = unless_exited (λ t. stream_run events t) (stream_pass e s)

  unfoldable pub listen_run : List ListenEvent → Streaming L I → Streaming L I × Exit
  unfolding listen_pass
  listen_run [] s = (s, goes_on)
  listen_run (e ∷ events) s = unless_exited (λ t. listen_run events t) (listen_pass e s)
