-- ===== src/Worker/Runs.antt =====
-- worker.rs at concrete runs.
use wsblast.Common.{
  ℕ, ◌+◌, ◌%◌, ◌^◌, ◌≡◌, refl, Bool, true, false, none, some, codes, List, [], ◌∷◌,
}
use wsblast.SocketIo.Frame.{text}
use wsblast.Metrics.{Recorders, Recording, WorkerMetrics}
use wsblast.Metrics.Live.{empty_shard}
use wsblast.Metrics.Methods.{
  record_chaos_read_pause, record_message_recv, record_chaos_dropped, record_message_sent,
  record_chaos_delayed,
}
use wsblast.Worker.{same_frame}
use wsblast.Worker.Schedule.{new_backoff}
use wsblast.Worker.Echo.{Pass, EchoConfig, Session, Arrival, arrived, written, exits, finished}
use wsblast.Worker.Loop.{echo_run}
use wsblast.Worker.Replies.{Accounted}
use wsblast.Worker.Accounts.{echo_run-Accounted}
use wsblast.Worker.Streaming.{
  Tick, Reading, keepalive_due, reads, StreamEvent, ticks, listens, StreamConfig, Streaming,
  stream_run,
}
use wsblast.Worker.Streaming.Ledger.{ticks_in, skips_in, listens_in, Kept}
use wsblast.Worker.Streaming.Accounts.{stream_run-Kept}
use wsblast.Worker.Lifecycle.{Attempt, Life, opened, connect_timed_out, run_worker}
use wsblast.Worker.Connections.{active_of, open_at, active-run_worker}

abbrev no_recorder : Recorders ℕ ℕ
no_recorder = record {
  record_handshake = λ shard micros n. n + 1;
  record_rtt = λ shard micros n. n + 1;
  record_response = λ shard micros n. n + 1;
  record_action_rtt = λ action shard micros n. n;
  record_action_response = λ action shard micros n. n;
  record_interval = λ micros n. n + 1;
}

abbrev quiet : WorkerMetrics ℕ
quiet = record {
  messages_sent = 0;
  messages_recv = 0;
  bytes_sent = 0;
  bytes_recv = 0;
  errors = [];
  sent_message_errors = 0;
  reconnects = 0;
  unsolicited_frames = 0;
  interrupted = false;
  interval = none;
  interval_uses_response = false;
  chaos = none;
  actions = [];
  current_action = none;
  shard = 0;
}

abbrev quiet_recording : Recording ℕ ℕ
quiet_recording = record { worker = quiet; counters = empty_shard; latency = 0 }

-- Every frame has the text `hi`, and a reply must equal it.
abbrev exact_echo : EchoConfig
exact_echo = record {
  keepalive = false;
  render = λ seq. text (codes "hi");
  matched = λ corrupted sent got seq. same_frame sent got;
  passes = λ frame. true;
  thinks = false;
}

-- A pass in which `arrivals` come after the send, and then nothing.
abbrev plain_pass : List Arrival → Pass
plain_pass arrivals = record {
  stops_first = false;
  keepalives = 0;
  stops_waiting = false;
  claimed = true;
  plan = record { delay = 0; skips = false; corrupts = false };
  stops_delay = false;
  corruption = λ frame. (frame, false);
  sent_at = 1000000;
  sending = written;
  arrivals = arrivals;
  stops_reply = false;
  times_out = true;
  received_at = 3000000;
  closes = none;
  read_pause = none;
  stops_pause = false;
  stops_thinking = false;
  now = 3000000;
  stops_last = false;
}

-- An answer after a frame of another text, and then a reply that does not come.
abbrev two_passes : List Pass
two_passes =
    plain_pass (arrived (text (codes "ho")) ∷ arrived (text (codes "hi")) ∷ []) ∷ plain_pass [] ∷ []

abbrev quiet_session : Session ℕ ℕ
quiet_session = record { recording = quiet_recording; schedule = none; seq = 0; outgoing = [] }

echo_run-Accounted_example :
    Accounted 2 quiet_session (echo_run no_recorder exact_echo two_passes quiet_session)
echo_run-Accounted_example = echo_run-Accounted no_recorder exact_echo two_passes quiet_session

abbrev quiet_life : Life ℕ ℕ
quiet_life = record {
  recording = quiet_recording;
  connected_before = false;
  backoff = new_backoff;
  waits = [];
}

-- A handshake that times out, and one that succeeds.
abbrev two_attempts : List Attempt
two_attempts =
    record {
      connected = connect_timed_out;
      started_at = 0;
      passes = [];
      cancelled_after = false;
      cancelled_waiting = false;
    }
    ∷ record {
      connected = opened 2000000;
      started_at = 5000000;
      passes = two_passes;
      cancelled_after = false;
      cancelled_waiting = false;
    }
    ∷ []

active-run_worker_example :
    active_of (run_worker no_recorder exact_echo none false two_attempts quiet_life).0.recording
      % 2 ^ 64
    ≡ (active_of quiet_life.recording
        + open_at (run_worker no_recorder exact_echo none false two_attempts quiet_life).1)
      % 2 ^ 64
active-run_worker_example =
    active-run_worker no_recorder exact_echo none false two_attempts quiet_life

abbrev counting : StreamConfig
counting = record { keepalive = true; render = λ seq. text (codes "hi"); thinks = false }

abbrev tick_at : Bool → Bool → Tick
tick_at claimed skips = record {
  claimed = claimed;
  plan = record { delay = 5; skips = skips; corrupts = false };
  stops_delay = false;
  corruption = λ frame. (frame, false);
  refusal = none;
  closes = none;
  stops_thinking = false;
  stops_last = false;
}

-- A read, with a pause of `pause` after it.
abbrev reading_at : ℕ → ℕ → Reading
reading_at now pause = record {
  received = some (arrived (text (codes "ho")));
  read_at = now;
  read_pause = some pause;
  stops_last = false;
}

-- A message, one that is dropped, two reads of which the second is paused, a ping, and a tick at
-- which no send is left.
abbrev stream_events : List StreamEvent
stream_events =
    ticks (tick_at true false)
    ∷ ticks (tick_at true true)
    ∷ listens (reads (reading_at 100 50))
    ∷ listens (reads (reading_at 120 50))
    ∷ listens keepalive_due
    ∷ ticks (tick_at false false)
    ∷ []

abbrev quiet_streaming : Streaming ℕ ℕ
quiet_streaming = record { recording = quiet_recording; seq = 0; outgoing = []; read_resume = none }

stream_end : (stream_run no_recorder counting stream_events quiet_streaming).1 ≡ exits finished
unfolding stream_run
stream_end = refl

stream_numbers : (stream_run no_recorder counting stream_events quiet_streaming).0.seq ≡ 2
unfolding stream_run
stream_numbers = refl

stream_reads :
    (stream_run no_recorder counting stream_events quiet_streaming).0.recording.worker.messages_recv
    ≡ 1
unfolding stream_run record_chaos_read_pause record_message_recv record_chaos_dropped
    record_message_sent record_chaos_delayed
stream_reads = refl

stream_run-Kept_example :
    Kept 3 1 3 quiet_streaming (stream_run no_recorder counting stream_events quiet_streaming)
unfolding ticks_in skips_in listens_in
stream_run-Kept_example = stream_run-Kept no_recorder counting stream_events quiet_streaming
