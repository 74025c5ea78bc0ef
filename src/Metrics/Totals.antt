-- ===== src/Metrics/Totals.antt =====
-- metrics.rs: the totals of a run's workers, and what a run reports of them. Arcs are compared by
-- address, a number here; hdrhistogram's `Histogram` and a recorder's distributions are parameters.
use wsblast.Common.{
  ℕ, suc, Bool, true, false, Option, none, some, List, [], ◌∷◌, ◌++◌, Bytes, ◌==◌, if◌then◌else◌,
  ◌>>=◌,
}
use wsblast.Common.Text.{text_eq}
use wsblast.Metrics.{ActionCounts, ChaosSummary, Errors, WorkerMetrics, add64, no_counts, add_error}

-- The histograms of the latencies, with a `None` for an error.
pub record Histograms (H L : Type 0) : Type 0 where
  pub new : Option H
  pub add : H → H → Option H
  pub len : H → ℕ
  pub add_handshakes : L → H → H
  pub add_rtts : L → H → H
  pub add_responses : L → H → H
  pub action_names : L → List Bytes
  pub add_action_rtts : L → ℕ → H → H
  pub add_action_responses : L → ℕ → H → H

pub record ActionTotals (H : Type 0) : Type 0 where
  pub rtt : H
  pub response : H
  pub counts : ActionCounts

pub record MetricsTotals (H : Type 0) : Type 0 where
  pub handshake : H
  pub rtt : H
  pub response : H
  pub messages_sent : ℕ
  pub messages_recv : ℕ
  pub bytes_sent : ℕ
  pub bytes_recv : ℕ
  pub reconnects : ℕ
  pub unsolicited_frames : ℕ
  pub sent_message_errors : ℕ
  pub interrupted : ℕ
  pub errors : Errors
  pub chaos : Option ChaosSummary
  pub absorbed : List ℕ
  pub actions : List (Bytes × ActionTotals H)

unfoldable pub add_chaos_counts : ChaosSummary → ChaosSummary → ChaosSummary
add_chaos_counts into other = record into {
  delayed = add64 into.delayed other.delayed;
  dropped = add64 into.dropped other.dropped;
  corrupted = add64 into.corrupted other.corrupted;
  closes = add64 into.closes other.closes;
  read_pauses = add64 into.read_pauses other.read_pauses;
}

unfoldable pub add_chaos : Option ChaosSummary → Option ChaosSummary → Option ChaosSummary
unfolding add_chaos_counts
add_chaos (some into) (some other) = some (add_chaos_counts into other)
add_chaos none (some other) = some other
add_chaos into none = into

-- `for (category, count) in other { *errors.entry(category).or_insert(0) += count }`
unfoldable pub add_errors : Errors → Errors → Errors
unfolding add_error
add_errors errors [] = errors
add_errors errors ((category, count) ∷ others) = add_errors (add_error category count errors) others

abbrev pub u64_from : Bool → ℕ
u64_from b = if b then 1 else 0

-- Whether a recorder was added before.
unfoldable pub is_absorbed : ℕ → List ℕ → Bool
is_absorbed address [] = false
is_absorbed address (a ∷ absorbed) = if a == address then true else is_absorbed address absorbed

module _ {H : Type 0} where
  abbrev pub add_counts_to : ActionCounts → ActionTotals H → ActionTotals H
  add_counts_to counts t = record t {
    counts = record {
      sent = add64 t.counts.sent counts.sent;
      errors = add64 t.counts.errors counts.errors;
      sent_message_errors = add64 t.counts.sent_message_errors counts.sent_message_errors;
    };
  }

module _ {H L : Type 0} (hdr : Histograms H L) where
  unfoldable pub new_action : Option (ActionTotals H)
  new_action = do
    rtt ← hdr.new
    response ← hdr.new
    some (record { rtt = rtt; response = response; counts = no_counts })

  unfoldable pub new_totals : Option (MetricsTotals H)
  new_totals = do
    handshake ← hdr.new
    rtt ← hdr.new
    response ← hdr.new
    some (record {
      handshake = handshake;
      rtt = rtt;
      response = response;
      messages_sent = 0;
      messages_recv = 0;
      bytes_sent = 0;
      bytes_recv = 0;
      reconnects = 0;
      unsolicited_frames = 0;
      sent_message_errors = 0;
      interrupted = 0;
      errors = [];
      chaos = none;
      absorbed = [];
      actions = [];
    })

  -- A change of the totals of an action, which are created where it has none.
  unfoldable pub change_named :
      Bytes
      → (ActionTotals H → Option (ActionTotals H))
      → List (Bytes × ActionTotals H)
      → Option (List (Bytes × ActionTotals H))
  unfolding new_action
  change_named name f [] = do created ← new_action; changed ← f created; some ((name, changed) ∷ [])
  change_named name f ((n, t) ∷ actions) =
      let rest = change_named name f actions in
      if text_eq n name
      then (f t >>= λ changed. some ((n, changed) ∷ actions))
      else (rest >>= λ others. some ((n, t) ∷ others))

  -- `if let Some(action) = self.action(name)`
  abbrev pub or_unchanged {ℓ} : {A : Type ℓ} → Option A → A → A
  or_unchanged none before = before
  or_unchanged (some after) before = after

  unfoldable pub add_action_latencies :
      L → ℕ → List Bytes → List (Bytes × ActionTotals H) → List (Bytes × ActionTotals H)
  unfolding change_named
  add_action_latencies latency index [] actions = actions
  add_action_latencies latency index (name ∷ names) actions =
      let added =
        change_named name
          (λ t. some (record t {
            rtt = hdr.add_action_rtts latency index t.rtt;
            response = hdr.add_action_responses latency index t.response;
          }))
          actions in
      add_action_latencies latency (suc index) names (or_unchanged added actions)

  unfoldable pub add_recorder : ℕ → L → MetricsTotals H → MetricsTotals H
  unfolding is_absorbed add_action_latencies
  add_recorder address latency t = if is_absorbed address t.absorbed then t else record t {
    handshake = hdr.add_handshakes latency t.handshake;
    rtt = hdr.add_rtts latency t.rtt;
    response = hdr.add_responses latency t.response;
    actions = add_action_latencies latency 0 (hdr.action_names latency) t.actions;
    absorbed = t.absorbed ++ (address ∷ []);
  }

  -- The worker's counts of its actions, by the names of the recorder.
  unfoldable pub add_action_counts :
      List Bytes → List ActionCounts → List (Bytes × ActionTotals H) → List (Bytes × ActionTotals H)
  unfolding change_named
  add_action_counts [] counts actions = actions
  add_action_counts (name ∷ names) [] actions = actions
  add_action_counts (name ∷ names) (c ∷ counts) actions =
      add_action_counts names counts
        (or_unchanged (change_named name (λ t. some (add_counts_to c t)) actions) actions)

  unfoldable pub add_worker_counts :
      {I : Type 0} → L → WorkerMetrics I → MetricsTotals H → MetricsTotals H
  unfolding add_action_counts add_errors add_chaos
  add_worker_counts latency w t = record t {
    actions = add_action_counts (hdr.action_names latency) w.actions t.actions;
    messages_sent = add64 t.messages_sent w.messages_sent;
    messages_recv = add64 t.messages_recv w.messages_recv;
    bytes_sent = add64 t.bytes_sent w.bytes_sent;
    bytes_recv = add64 t.bytes_recv w.bytes_recv;
    reconnects = add64 t.reconnects w.reconnects;
    unsolicited_frames = add64 t.unsolicited_frames w.unsolicited_frames;
    sent_message_errors = add64 t.sent_message_errors w.sent_message_errors;
    interrupted = add64 t.interrupted (u64_from w.interrupted);
    errors = add_errors t.errors w.errors;
    chaos = add_chaos t.chaos w.chaos;
  }
