-- ===== src/Worker/Echo.antt =====
-- worker.rs: the echo loop. What the runtime, the socket, the clock, the random draws and the other
-- workers do in one pass of the loop is a `Pass`; the loop goes through a list of them.
use wsblast.Common.{
  ℕ, zero, suc, ◌+◌, Bool, false, ◌&&◌, Option, none, some, List, [], ◌∷◌, ◌++◌, Bytes, codes, leb,
  if◌then◌else◌,
}
use wsblast.SocketIo.Frame.{Frame, text, binary, ping, pong, close}
use wsblast.Metrics.{ErrorCategory, Recording, add64}
use wsblast.Worker.{reading, TungsteniteError, categorize_session_error}
use wsblast.Worker.Schedule.{SendSchedule, advance}

pub data SessionEnd : Type 0 where
  finished lost : SessionEnd

-- What chaos does to one data send.
pub record SendPlan : Type 0 where
  pub delay : ℕ
  pub skips : Bool
  pub corrupts : Bool

pub data Arrival : Type 0 where
  arrived : Frame → Arrival
  broken : TungsteniteError → Arrival

pub data Sending : Type 0 where
  written stopped : Sending
  refused : TungsteniteError → Sending

-- `stops` are cancellations of the run; `keepalives` are the ticks before the slot of a paced
-- session, and whether one is due in an unpaced session.
pub record Pass : Type 0 where
  pub stops_first : Bool
  pub keepalives : ℕ
  pub stops_waiting : Bool
  pub claimed : Bool
  pub plan : SendPlan
  pub stops_delay : Bool
  pub corruption : Frame → Frame × Bool
  pub sent_at : ℕ
  pub sending : Sending
  pub arrivals : List Arrival
  pub stops_reply : Bool
  pub times_out : Bool
  pub received_at : ℕ
  pub closes : Option Bool
  pub read_pause : Option ℕ
  pub stops_pause : Bool
  pub stops_thinking : Bool
  pub now : ℕ
  pub stops_last : Bool

-- `matched` is the rule of `--match` for a frame, the frame that was sent, its number and whether
-- it was corrupted; `passes` is `--expect`.
pub record EchoConfig : Type 0 where
  pub keepalive : Bool
  pub render : ℕ → Frame
  pub matched : Bool → Frame → Frame → ℕ → Bool
  pub passes : Frame → Bool
  pub thinks : Bool

pub record Session (L I : Type 0) : Type 0 where
  pub recording : Recording L I
  pub schedule : Option SendSchedule
  pub seq : ℕ
  pub outgoing : List Frame

pub data Exit : Type 0 where
  goes_on : Exit
  exits : SessionEnd → Exit

-- How the wait for a reply ends on its own.
pub data ReplyResult : Type 0 where
  reply : Frame → ReplyResult
  server_close pending : ReplyResult
  fails : ErrorCategory → ReplyResult

-- What `await_reply` has done: its result, the pongs it sent and the frames it skipped.
pub record Awaited : Type 0 where
  pub result : ReplyResult
  pub pongs : List Frame
  pub unsolicited : ℕ

-- `session_end`, for a run that may have been cancelled by then.
abbrev pub session_end : Bool → SessionEnd
session_end cancelled = if cancelled then finished else lost

abbrev settled : ReplyResult → Awaited
settled result = record { result = result; pongs = []; unsolicited = 0 }

abbrev after_pong : Bytes → Awaited → Awaited
after_pong payload a = record a { pongs = pong payload ∷ a.pongs }

abbrev after_skipped : Awaited → Awaited
after_skipped a = record a { unsolicited = add64 a.unsolicited 1 }

-- `reads` is the test on data frames.
unfoldable pub await_reply : (Frame → Bool) → List Arrival → Awaited
unfolding categorize_session_error
await_reply reads [] = settled pending
await_reply reads (arrived (text t) ∷ arrivals) =
    let rest = await_reply reads arrivals in
    if reads (text t) then settled (reply (text t)) else after_skipped rest
await_reply reads (arrived (binary b) ∷ arrivals) =
    let rest = await_reply reads arrivals in
    if reads (binary b) then settled (reply (binary b)) else after_skipped rest
await_reply reads (arrived (ping payload) ∷ arrivals) =
    after_pong payload (await_reply reads arrivals)
await_reply reads (arrived (pong payload) ∷ arrivals) = await_reply reads arrivals
await_reply reads (arrived (close reason) ∷ arrivals) = settled server_close
await_reply reads (broken e ∷ arrivals) = settled (fails (categorize_session_error e reading))

abbrev pub keepalive_ping : Frame
keepalive_ping = ping (codes "hb")

unfoldable pub keepalive_pings : ℕ → List Frame
keepalive_pings zero = []
keepalive_pings (suc n) = keepalive_ping ∷ keepalive_pings n

-- The ping that keeps the connection alive, while a paced session waits for its slot, or where one
-- is due in an unpaced one.
unfoldable pub pings_of : EchoConfig → Pass → Option SendSchedule → List Frame
unfolding keepalive_pings
pings_of c p (some schedule) = keepalive_pings (if c.keepalive then p.keepalives else 0)
pings_of c p none = keepalive_pings (if c.keepalive && leb 1 p.keepalives then 1 else 0)

-- A paced session may be cancelled while it waits for its slot.
abbrev pub stops_before_slot : Pass → Option SendSchedule → Bool
stops_before_slot p (some schedule) = p.stops_waiting
stops_before_slot p none = false

abbrev pub rescheduled : (SendSchedule → SendSchedule) → Option SendSchedule → Option SendSchedule
rescheduled f none = none
rescheduled f (some schedule) = some (f schedule)

abbrev pub due_of : Option SendSchedule → Option ℕ
due_of none = none
due_of (some schedule) = some schedule.next_due

abbrev pub later : ℕ → Option ℕ → Option ℕ
later delay none = none
later delay (some due) = some (due + delay)

module _ {L I : Type 0} where
  abbrev pub writes : List Frame → Session L I → Session L I
  writes frames s = record s { outgoing = s.outgoing ++ frames }

  -- `sink.send(Message::Close(None))` and the end of a cancelled run.
  abbrev pub closes_run : Session L I → Session L I × Exit
  closes_run s = (writes (close none ∷ []) s, exits finished)

  abbrev pub reschedules : (SendSchedule → SendSchedule) → Session L I → Session L I
  reschedules f s = record s { schedule = rescheduled f s.schedule }

  abbrev pub records : (Recording L I → Recording L I) → Session L I → Session L I
  records f s = record s { recording = f s.recording }

  -- `seq += 1` and `schedule.advance()`
  unfoldable pub next_request : Session L I → Session L I
  unfolding advance
  next_request s = record s { seq = add64 s.seq 1; schedule = rescheduled advance s.schedule }
