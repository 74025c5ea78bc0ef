-- ===== src/Metrics/Runs.antt =====
-- metrics.rs at concrete workers.
use wsblast.Common.{map, All, ℕ, ◌+◌, min, ◌≡◌, refl, false, none, some, List, [], ◌∷◌, arith}
use wsblast.Metrics.{timeout, WorkerMetrics, Recorders, discriminant, add_error}
use wsblast.Metrics.Totals.{
  Histograms, MetricsTotals, add_errors, add_chaos, is_absorbed, new_totals, add_action_latencies,
  add_recorder, add_action_counts, add_worker_counts,
}
use wsblast.Metrics.Merge.{
  Reported, error_sum, AggregatedMetrics, add_worker, add_workers, add_actions, add_totals,
  established_of, interrupted_of, finish_totals, merge, with_not_started, outcomes, outcomes-merge,
}
use wsblast.Metrics.Sums.{tallies_of, SameTallies}
use wsblast.Metrics.Machines.{add_totals-add_workers}
use wsblast.Metrics.Methods.{record_message_sent}
use wsblast.Metrics.Live.{
  empty_shard, snapshot, sent, Running, bytes_out, sents, Step, calls, lands, run_steps,
}
use wsblast.Metrics.Landing.{sum_of, Even, Balanced}
use wsblast.Metrics.Snapshots.{Shows, IsDone, still, snapshot-run_steps}
use wsblast.Metrics.Arrivals.{no_arrivals, observe_peak, observe, observe_all, grants, grants-min}

-- A recorder that keeps what it is told.
abbrev kept_latencies : Recorders (List ℕ) ℕ
kept_latencies = record {
  record_handshake = λ shard micros latency. micros ∷ latency;
  record_rtt = λ shard micros latency. micros ∷ latency;
  record_response = λ shard micros latency. micros ∷ latency;
  record_action_rtt = λ action shard micros latency. latency;
  record_action_response = λ action shard micros latency. latency;
  record_interval = λ micros interval. interval + 1;
}

abbrev fresh_worker : ℕ → WorkerMetrics ℕ
fresh_worker shard = record {
  messages_sent = 0;
  messages_recv = 0;
  bytes_sent = 0;
  bytes_recv = 0;
  errors = [];
  sent_message_errors = 0;
  reconnects = 0;
  unsolicited_frames = 0;
  interrupted = false;
  interval = none;
  interval_uses_response = false;
  chaos = none;
  actions = [];
  current_action = none;
  shard = shard;
}

abbrev two_workers : Running (List ℕ) ℕ
two_workers = record {
  shards = empty_shard ∷ empty_shard ∷ [];
  latency = [];
  workers = fresh_worker 0 ∷ fresh_worker 1 ∷ [];
  outstanding = [];
}

two_workers-Balanced : Balanced two_workers
unfolding sum_of Even error_sum
two_workers-Balanced = record {
  sents = refl;
  recvs = refl;
  bytes_out = refl;
  bytes_in = refl;
  again = refl;
  skips = refl;
  errors = refl;
}

-- Both workers send, and the additions of the two calls take effect in turns.
abbrev two_sends : List Step
two_sends =
    calls 0 (sent 10)
    ∷ calls 1 (sent 20)
    ∷ lands 0 bytes_out
    ∷ lands 1 sents
    ∷ lands 0 sents
    ∷ lands 1 bytes_out
    ∷ []

two_sends-IsDone : All IsDone (run_steps kept_latencies two_sends two_workers).outstanding
unfolding run_steps record_message_sent
two_sends-IsDone = (refl, (refl, tt))

two_sends_shown :
    (snapshot (map still (run_steps kept_latencies two_sends two_workers).shards)).bytes_sent ≡ 30
unfolding run_steps record_message_sent snapshot
two_sends_shown = refl

-- Before they have, a snapshot may show the bytes of a message without the message.
abbrev halfway : List Step
halfway = calls 0 (sent 10) ∷ lands 0 bytes_out ∷ []

halfway_shown :
    let snap = snapshot (map still (run_steps kept_latencies halfway two_workers).shards) in
    (snap.bytes_sent ≡ 10) × (snap.messages_sent ≡ 0)
unfolding run_steps record_message_sent snapshot
halfway_shown = (refl, refl)

snapshot-run_steps_example :
    Shows
      (snapshot (map still (run_steps kept_latencies two_sends two_workers).shards))
      (run_steps kept_latencies two_sends two_workers).workers
snapshot-run_steps_example =
    snapshot-run_steps kept_latencies two_sends two_workers two_workers-Balanced two_sends-IsDone

-- Histograms that keep only how many samples they have.
abbrev counting : Histograms ℕ ℕ
counting = record {
  new = some 0;
  add = λ a b. some (a + b);
  len = λ h. h;
  add_handshakes = λ latency h. h + latency;
  add_rtts = λ latency h. h + latency;
  add_responses = λ latency h. h;
  action_names = λ latency. [];
  add_action_rtts = λ latency index h. h;
  add_action_responses = λ latency index h. h;
}

abbrev reported : ℕ → ℕ → Reported ℕ ℕ
reported address sends = record {
  address = address;
  latency = 2;
  metrics = record (fresh_worker 0) {
    messages_sent = sends;
    errors = (timeout, 1) ∷ [];
    sent_message_errors = 1;
  };
}

-- Two of the five slots were established.
abbrev two_merged : AggregatedMetrics
two_merged = record {
  total_connections_attempted = 5;
  total_connections_established = 2;
  total_connections_failed = 3;
  total_connections_interrupted = 0;
  total_connections_not_started = 0;
  total_reconnects = 0;
  total_unsolicited_frames = 0;
  total_messages_sent = 7;
  total_messages_recv = 0;
  total_bytes_sent = 0;
  total_bytes_recv = 0;
  error_breakdown = (timeout, 2) ∷ [];
  chaos = none;
}

merge_run : merge counting (reported 1 3 ∷ reported 1 4 ∷ []) 5 ≡ some two_merged
unfolding merge new_totals add_workers add_worker add_recorder is_absorbed add_action_latencies
    add_worker_counts add_action_counts add_errors add_error discriminant add_chaos finish_totals
    established_of interrupted_of
merge_run = refl

outcomes-merge_example : outcomes (with_not_started two_merged 1) ≡ 5
outcomes-merge_example = outcomes-merge counting (reported 1 3 ∷ reported 1 4 ∷ []) 5 1 merge_run

abbrev no_totals : MetricsTotals ℕ
no_totals = record {
  handshake = 0;
  rtt = 0;
  response = 0;
  messages_sent = 0;
  messages_recv = 0;
  bytes_sent = 0;
  bytes_recv = 0;
  reconnects = 0;
  unsolicited_frames = 0;
  sent_message_errors = 0;
  interrupted = 0;
  errors = [];
  chaos = none;
  absorbed = [];
  actions = [];
}

new_run : new_totals counting ≡ some no_totals
unfolding new_totals
new_run = refl

abbrev both_totals : MetricsTotals ℕ
both_totals = record no_totals {
  handshake = 4;
  rtt = 4;
  messages_sent = 7;
  sent_message_errors = 2;
  errors = (timeout, 2) ∷ [];
  absorbed = 1 ∷ [];
}

both_run :
    add_totals counting
      (add_workers counting (reported 1 3 ∷ []) no_totals)
      (add_workers counting (reported 1 4 ∷ []) no_totals)
    ≡ some both_totals
unfolding add_totals add_actions add_workers add_worker add_recorder is_absorbed
    add_action_latencies add_worker_counts add_action_counts add_errors add_error discriminant
    add_chaos
both_run = refl

add_totals-add_workers_example :
    SameTallies
      (tallies_of both_totals)
      (tallies_of (add_workers counting (reported 1 3 ∷ reported 1 4 ∷ []) no_totals))
add_totals-add_workers_example =
    add_totals-add_workers counting (reported 1 3 ∷ []) (reported 1 4 ∷ []) new_run both_run

grants-min_example :
    grants 3 5 (record { shards = []; next_shard = 0; requests_claimed = 0 }) ≡ min 3 5
grants-min_example =
    grants-min 3 5 (record { shards = []; next_shard = 0; requests_claimed = 0 }) refl (omega arith)

abbrev falling : List (ℕ × ℕ)
falling = (0, 9) ∷ (1, 2) ∷ []

abbrev rising : List (ℕ × ℕ)
rising = (0, 1) ∷ (2, 7) ∷ []

peaks_run :
    (observe_all falling no_arrivals).peak_open + (observe_all rising no_arrivals).peak_open ≡ 16
unfolding observe_all observe observe_peak
peaks_run = refl
