-- ===== src/Metrics.antt =====
-- src/metrics.rs: what a worker records. A method of `WorkerMetrics` changes the worker's own
-- counters, its shard of the live counters and the run's latency recorder, so it is a function of
-- the three. `+=` and `fetch_add` on u64 wrap; durations are nanoseconds.
pub mod Methods
pub mod Totals
pub mod Merge
pub mod Sums
pub mod Machines
pub mod Live
pub mod Balance
pub mod Landing
pub mod Snapshots
pub mod Arrivals
mod Runs
use wsblast.Common.{
  ℕ, zero, suc, ◌+◌, ◌-◌, ◌/◌, ◌%◌, ◌^◌, min, max, Bool, true, false, not, ◌&&◌, Option, none, some,
  List, [], ◌∷◌, ◌++◌, length, ltb, ◌==◌, if◌then◌else◌,
}

-- Category under which a failure is counted (src/error.rs).
pub data ErrorCategory : Type 0 where
  dns_resolution tcp_connect tls_handshake http_upgrade_rejected : ErrorCategory
  protocol_error write_error read_error timeout unexpected_close other check_failed : ErrorCategory

-- The discriminants, by which categories are compared.
unfoldable pub discriminant : ErrorCategory → ℕ
discriminant dns_resolution = 0
discriminant tcp_connect = 1
discriminant tls_handshake = 2
discriminant http_upgrade_rejected = 3
discriminant protocol_error = 4
discriminant write_error = 5
discriminant read_error = 6
discriminant timeout = 7
discriminant unexpected_close = 8
discriminant other = 9
discriminant check_failed = 10

pub data ErrorScope : Type 0 where
  attempt sent_message : ErrorScope

pub record CounterShard : Type 0 where
  pub active_connections : ℕ
  pub connections_established : ℕ
  pub connections_failed : ℕ
  pub reconnects : ℕ
  pub messages_sent : ℕ
  pub messages_received : ℕ
  pub bytes_sent : ℕ
  pub bytes_received : ℕ
  pub total_errors : ℕ
  pub unsolicited_frames : ℕ

pub record ActionCounts : Type 0 where
  pub sent : ℕ
  pub errors : ℕ
  pub sent_message_errors : ℕ

pub record ChaosSummary : Type 0 where
  pub seed : ℕ
  pub delayed : ℕ
  pub dropped : ℕ
  pub corrupted : ℕ
  pub closes : ℕ
  pub read_pauses : ℕ

abbrev pub Errors : Type 0
Errors = List (ErrorCategory × ℕ)

pub record WorkerMetrics (I : Type 0) : Type 0 where
  pub messages_sent : ℕ
  pub messages_recv : ℕ
  pub bytes_sent : ℕ
  pub bytes_recv : ℕ
  pub errors : Errors
  pub sent_message_errors : ℕ
  pub reconnects : ℕ
  pub unsolicited_frames : ℕ
  pub interrupted : Bool
  pub interval : Option I
  pub interval_uses_response : Bool
  pub chaos : Option ChaosSummary
  pub actions : List ActionCounts
  pub current_action : Option ℕ
  pub shard : ℕ

-- The run's latency recorder `L` (src/histogram.rs) and a worker's `IntervalRecorder` `I`
-- (src/timeseries.rs), by the methods that are called here.
pub record Recorders (L I : Type 0) : Type 0 where
  pub record_handshake : ℕ → ℕ → L → L
  pub record_rtt : ℕ → ℕ → L → L
  pub record_response : ℕ → ℕ → L → L
  pub record_action_rtt : ℕ → ℕ → ℕ → L → L
  pub record_action_response : ℕ → ℕ → ℕ → L → L
  pub record_interval : ℕ → I → I

-- A worker with its shard of the live counters and the recorder that it shares.
pub record Recording (L I : Type 0) : Type 0 where
  pub worker : WorkerMetrics I
  pub counters : CounterShard
  pub latency : L

abbrev pub add64 : ℕ → ℕ → ℕ
add64 a b = (a + b) % 2 ^ 64

-- `fetch_sub(1)`
abbrev pub less_one64 : ℕ → ℕ
less_one64 a = (a + (2 ^ 64 - 1)) % 2 ^ 64

abbrev pub no_counts : ActionCounts
no_counts = record { sent = 0; errors = 0; sent_message_errors = 0 }

abbrev pub micros_of : ℕ → ℕ
micros_of duration = max 1 (min (duration / 1000) 60000000)

-- `*errors.entry(err).or_insert(0) += n`
unfoldable pub add_error : ErrorCategory → ℕ → Errors → Errors
unfolding discriminant
add_error err n [] = (err, add64 0 n) ∷ []
add_error err n ((category, count) ∷ errors) =
    let rest = add_error err n errors in
    if discriminant category == discriminant err
    then (category, add64 count n) ∷ errors
    else (category, count) ∷ rest

-- `actions.resize(index + 1)` where it is shorter, then a change at `index`.
unfoldable pub change_action :
    ℕ → (ActionCounts → ActionCounts) → List ActionCounts → List ActionCounts
change_action zero f [] = f no_counts ∷ []
change_action zero f (c ∷ actions) = f c ∷ actions
change_action (suc index) f [] = no_counts ∷ change_action index f []
change_action (suc index) f (c ∷ actions) = c ∷ change_action index f actions

-- `if let Some(action) = self.action_counts() { … }`
unfoldable pub with_action_counts :
    (ActionCounts → ActionCounts) → Option ℕ → List ActionCounts → List ActionCounts
unfolding change_action
with_action_counts f none actions = actions
with_action_counts f (some index) actions = change_action index f actions
