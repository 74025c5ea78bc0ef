-- ===== src/Worker/Streaming/Accounts.antt =====
-- worker.rs: what a streaming session counts and writes.
use wsblast.Common.{
  map, length, ◌≡◌, refl, ℕ, zero, suc, ◌+◌, Bool, true, false, not, ◌&&◌, Option, none, some, List,
  [], ◌∷◌, if◌then◌else◌, if_intro, leb, arith,
}
use wsblast.SocketIo.Frame.{Frame, text, binary, ping, pong, close}
use wsblast.Metrics.{Recorders}
use wsblast.Metrics.Methods.{
  record_chaos_delayed, record_chaos_dropped, record_chaos_read_pause, record_chaos_close,
}
use wsblast.Worker.{message_byte_len, TungsteniteError}
use wsblast.Worker.Echo.{
  Arrival, arrived, broken, Exit, goes_on, exits, session_end, keepalive_ping,
}
use wsblast.Worker.Streaming.{
  Tick, Reading, ListenEvent, keepalive_due, cancelled, resumes, reads, StreamEvent, ticks, listens,
  StreamConfig, Streaming, counts, next_seq, after_write, write_message, corrupt_and_write,
  plan_and_write, delayed_write, on_tick, pauses_reads, receives, on_read, on_resume, on_unpaused,
  listen_pass, stream_pass, unless_exited, stream_run, listen_run,
}
use wsblast.Worker.Streaming.Ledger.{ticks_in, skips_in, listens_in, Kept, then-Kept, more-Kept}
use wsblast.Worker.Streaming.Steps.{stays-Kept, puts-Kept, breaks_off-Kept}
use wsblast.Worker.Streaming.Counts.{
  error-Kept, written-Kept, dropped-Kept, read-Kept, delayed-Kept, corrupted-Kept, closed-Kept,
  paused-Kept, resumed-Kept,
}

module _ {L I : Type 0} (recorders : Recorders L I) (c : StreamConfig) where
  after_write-Kept :
      (t : Tick) (o : Option Bool) (s : Streaming L I)
      → Kept 0 0 0 s (after_write recorders c t o s)
  unfolding after_write
  after_write-Kept t none s =
      if_intro (λ (r : Streaming L I × Exit). Kept 0 0 0 s r) (c.thinks && t.stops_thinking) _ _
        (λ u. breaks_off-Kept 0 s) (λ u. stays-Kept 0 s goes_on)
  after_write-Kept t (some graceful) s =
      let s' = counts (record_chaos_close recorders) s in
      let closed = closed-Kept recorders s in
      let end = exits (session_end t.stops_last) in
      then-Kept 0 0 0 0 0 0 s s' _ closed (
        if_intro (λ (u : Streaming L I). Kept 0 0 0 s' (u, end)) graceful _ _
          (λ u. puts-Kept 0 s' _ end (omega arith)) (λ u. stays-Kept 0 s' end))

  write_message-Kept :
      (t : Tick) (frame : Frame) (o : Option TungsteniteError) (s : Streaming L I)
      → Kept 1 0 0 s (write_message recorders c t frame o s)
  unfolding write_message
  write_message-Kept t frame (some e) s =
      more-Kept _ _ (omega arith) (omega arith) (omega arith)
        (error-Kept recorders _ 0 s (session_end t.stops_last))
  write_message-Kept t frame none s =
      then-Kept 1 0 0 0 0 0 s _ _ (written-Kept recorders frame (message_byte_len frame) s)
        (after_write-Kept t t.closes _)

  corrupt_and_write-Kept :
      (t : Tick) (m : Frame × Bool) (s : Streaming L I)
      → Kept 1 0 0 s (corrupt_and_write recorders c t m s)
  unfolding corrupt_and_write
  corrupt_and_write-Kept t (frame, true) s =
      then-Kept 0 0 0 1 0 0 s _ _ (corrupted-Kept recorders s)
        (write_message-Kept t frame t.refusal _)
  corrupt_and_write-Kept t (frame, false) s = write_message-Kept t frame t.refusal s

  delayed_write-Kept :
      (t : Tick) (d : ℕ) (s : Streaming L I) → Kept 1 0 0 s (delayed_write recorders c t d s)
  unfolding delayed_write plan_and_write
  delayed_write-Kept t zero s = corrupt_and_write-Kept t _ s
  delayed_write-Kept t (suc d) s =
      let s' = counts (record_chaos_delayed recorders) s in
      then-Kept 0 0 0 1 0 0 s s' _ (delayed-Kept recorders s) (
        if_intro (λ (r : Streaming L I × Exit). Kept 1 0 0 s' r) t.stops_delay _ _
          (λ u. more-Kept _ _ (omega arith) (omega arith) (omega arith) (breaks_off-Kept 0 s'))
          (λ u. corrupt_and_write-Kept t _ s'))

  plan-Kept :
      (t : Tick) (skips : Bool) (s : Streaming L I)
      → Kept 1 (if skips then 1 else 0) 0 s (
          if skips
          then (next_seq (counts (record_chaos_dropped recorders) s), goes_on)
          else delayed_write recorders c t t.plan.delay s)
  plan-Kept t true s = dropped-Kept recorders s
  plan-Kept t false s = delayed_write-Kept t t.plan.delay s

  on_tick-Kept :
      (t : Tick) (s : Streaming L I)
      → Kept 1 (if t.plan.skips then 1 else 0) 0 s (on_tick recorders c t s)
  unfolding on_tick
  on_tick-Kept t s =
      let q : ℕ = if t.plan.skips then 1 else 0 in
      if_intro (λ (r : Streaming L I × Exit). Kept 1 q 0 s r) (not t.claimed) _ _
        (λ u. more-Kept _ _ (omega arith) (omega arith) (omega arith) (breaks_off-Kept 0 s))
        (λ u. plan-Kept t t.plan.skips s)

  pauses_reads-Kept :
      (now : ℕ) (o : Option ℕ) (s : Streaming L I)
      → Kept 0 0 0 s (pauses_reads recorders c now o s, goes_on)
  unfolding pauses_reads
  pauses_reads-Kept now none s = resumed-Kept recorders 0 none s
  pauses_reads-Kept now (some pause) s =
      then-Kept 0 0 0 0 0 0 s (counts (record_chaos_read_pause recorders) s) _
        (paused-Kept recorders s) (resumed-Kept recorders 0 (some (now + pause)) _)

  receives-Kept :
      (r : Reading) (frame : Frame) (s : Streaming L I)
      → Kept 0 0 1 s (receives recorders c r frame s, goes_on)
  receives-Kept r frame s =
      then-Kept 0 0 1 0 0 0 s _ _ (read-Kept recorders (message_byte_len frame) s)
        (pauses_reads-Kept r.read_at r.read_pause _)

  on_read-Kept :
      (r : Reading) (o : Option Arrival) (s : Streaming L I)
      → Kept 0 0 1 s (on_read recorders c r o s)
  unfolding on_read
  on_read-Kept r none s = stays-Kept 1 s _
  on_read-Kept r (some (broken e)) s = error-Kept recorders _ 1 s _
  on_read-Kept r (some (arrived (text t))) s = receives-Kept r (text t) s
  on_read-Kept r (some (arrived (binary b))) s = receives-Kept r (binary b) s
  on_read-Kept r (some (arrived (ping payload))) s =
      puts-Kept 1 s (pong payload) goes_on (omega arith)
  on_read-Kept r (some (arrived (pong payload))) s = stays-Kept 1 s goes_on
  on_read-Kept r (some (arrived (close reason))) s = stays-Kept 1 s _

  on_unpaused-Kept :
      (r : Reading) (o : Option ℕ) (s : Streaming L I)
      → Kept 0 0 1 s (on_unpaused recorders c r o s)
  on_unpaused-Kept r none s = on_read-Kept r r.received s
  on_unpaused-Kept r (some at) s = stays-Kept 1 s goes_on

  on_resume-Kept :
      (now : ℕ) (o : Option ℕ) (s : Streaming L I)
      → Kept 0 0 1 s (on_resume recorders c now o s, goes_on)
  on_resume-Kept now none s = stays-Kept 1 s goes_on
  on_resume-Kept now (some at) s =
      if_intro (λ (u : Streaming L I). Kept 0 0 1 s (u, goes_on)) (leb at now) _ _
        (λ u. resumed-Kept recorders 1 none s) (λ u. stays-Kept 1 s goes_on)

  listen_pass-Kept :
      (e : ListenEvent) (s : Streaming L I) → Kept 0 0 1 s (listen_pass recorders c e s)
  unfolding listen_pass
  listen_pass-Kept keepalive_due s =
      if_intro (λ (u : Streaming L I). Kept 0 0 1 s (u, goes_on)) c.keepalive _ _
        (λ u. puts-Kept 1 s keepalive_ping goes_on (omega arith)) (λ u. stays-Kept 1 s goes_on)
  listen_pass-Kept (resumes now) s = on_resume-Kept now s.read_resume s
  listen_pass-Kept (reads r) s = on_unpaused-Kept r s.read_resume s
  listen_pass-Kept cancelled s = breaks_off-Kept 1 s

  exits-Kept :
      (n q m n' q' m' : ℕ) (s : Streaming L I) (rest : Streaming L I → Streaming L I × Exit)
      (r : Streaming L I × Exit)
      → Kept n q m s r
      → ((t : Streaming L I) → Kept n' q' m' t (rest t))
      → Kept (n + n') (q + q') (m + m') s (unless_exited recorders c rest r)
  exits-Kept n q m n' q' m' s rest (t, goes_on) h k = then-Kept n q m n' q' m' s t (rest t) h (k t)
  exits-Kept n q m n' q' m' s rest (t, exits end) h k =
      more-Kept s (t, exits end) (omega arith) (omega arith) (omega arith) h

  -- Every tick of a streaming session takes at most one number: each number is that of a message that
  -- was written and counted, or of a send that chaos dropped, which a run with chaos counts. An event
  -- other than a tick reads one message or writes one frame of the protocol's own at most, and so
  -- does the end of the session; an error is counted only where it ends the session, and the number
  -- of open connections stays as it was.
  pub stream_run-Kept :
      (events : List StreamEvent) (s : Streaming L I)
      → Kept
          (ticks_in events)
          (skips_in events)
          (listens_in events)
          s
          (stream_run recorders c events s)
  unfolding stream_run stream_pass ticks_in skips_in listens_in
  stream_run-Kept [] s = stays-Kept 0 s goes_on
  stream_run-Kept (ticks t ∷ events) s = more-Kept _ _ (omega arith) (omega arith) (omega arith) (
      exits-Kept 1 (if t.plan.skips then 1 else 0) 0 (ticks_in events) (skips_in events)
        (listens_in events) s (λ u. stream_run recorders c events u) (on_tick recorders c t s)
        (on_tick-Kept t s) (stream_run-Kept events))
  stream_run-Kept (listens e ∷ events) s = more-Kept _ _ (omega arith) (omega arith) (omega arith) (
      exits-Kept 0 0 1 (ticks_in events) (skips_in events) (listens_in events) s
        (λ u. stream_run recorders c events u) (listen_pass recorders c e s) (listen_pass-Kept e s)
        (stream_run-Kept events))

  same_rest :
      {f g : Streaming L I → Streaming L I × Exit} (r : Streaming L I × Exit)
      → ((t : Streaming L I) → f t ≡ g t)
      → unless_exited recorders c f r ≡ unless_exited recorders c g r
  same_rest (t, goes_on) h = h t
  same_rest (t, exits end) h = refl

  -- The listen loop is the stream loop of a session that has no ticks.
  stream_run-listens :
      (events : List ListenEvent) (s : Streaming L I)
      → stream_run recorders c (map listens events) s ≡ listen_run recorders c events s
  unfolding stream_run stream_pass listen_run
  stream_run-listens [] s = refl
  stream_run-listens (e ∷ events) s =
      same_rest (listen_pass recorders c e s) (stream_run-listens events)

  -- A session that only listens writes no message and takes no number.
  listen_run-Kept :
      (events : List ListenEvent) (s : Streaming L I)
      → Kept 0 0 (length events) s (listen_run recorders c events s)
  unfolding listen_run
  listen_run-Kept [] s = stays-Kept 0 s goes_on
  listen_run-Kept (e ∷ events) s = more-Kept _ _ (omega arith) (omega arith) (omega arith) (
      exits-Kept 0 0 1 0 0 (length events) s (λ t. listen_run recorders c events t)
        (listen_pass recorders c e s) (listen_pass-Kept e s) (listen_run-Kept events))
