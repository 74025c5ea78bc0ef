-- ===== src/Metrics/Merge.antt =====
-- metrics.rs: totals of workers, of machines, and the counts of the report. The rates, and the
-- latency statistics, are in floating point or hdrhistogram's, and are left out.
use wsblast.Common.{
  ℕ, ◌+◌, ◌-◌, min, Option, some, List, [], ◌∷◌, Bytes, ◌≡◌, subst, bind_cases, arith, ◌>>=◌,
}
use wsblast.Metrics.{ChaosSummary, Errors, WorkerMetrics, add64}
use wsblast.Metrics.Totals.{
  Histograms, ActionTotals, MetricsTotals, add_chaos, add_errors, add_counts_to, new_totals,
  change_named, add_recorder, add_worker_counts,
}

-- A worker with the recorder that it shares and its address.
pub record Reported (L I : Type 0) : Type 0 where
  pub address : ℕ
  pub latency : L
  pub metrics : WorkerMetrics I

-- `error_breakdown.values().sum()`
unfoldable pub error_sum : Errors → ℕ
error_sum [] = 0
error_sum ((category, count) ∷ errors) = add64 count (error_sum errors)

pub record AggregatedMetrics : Type 0 where
  pub total_connections_attempted : ℕ
  pub total_connections_established : ℕ
  pub total_connections_failed : ℕ
  pub total_connections_interrupted : ℕ
  pub total_connections_not_started : ℕ
  pub total_reconnects : ℕ
  pub total_unsolicited_frames : ℕ
  pub total_messages_sent : ℕ
  pub total_messages_recv : ℕ
  pub total_bytes_sent : ℕ
  pub total_bytes_recv : ℕ
  pub error_breakdown : Errors
  pub chaos : Option ChaosSummary

module _ {H L : Type 0} (hdr : Histograms H L) where
  unfoldable pub add_worker : {I : Type 0} → Reported L I → MetricsTotals H → MetricsTotals H
  unfolding add_recorder add_worker_counts
  add_worker w t =
      add_worker_counts hdr w.latency w.metrics (add_recorder hdr w.address w.latency t)

  unfoldable pub add_workers :
      {I : Type 0} → List (Reported L I) → MetricsTotals H → MetricsTotals H
  unfolding add_worker
  add_workers [] t = t
  add_workers (w ∷ workers) t = add_workers workers (add_worker w t)

  -- `for (name, theirs) in &other.actions`
  unfoldable pub add_actions :
      List (Bytes × ActionTotals H)
      → List (Bytes × ActionTotals H)
      → Option (List (Bytes × ActionTotals H))
  unfolding change_named
  add_actions [] ours = some ours
  add_actions ((name, theirs) ∷ others) ours =
      let added =
        change_named hdr name
          (λ t. hdr.add t.rtt theirs.rtt >>= λ rtt.
            hdr.add t.response theirs.response >>= λ response.
            some (add_counts_to theirs.counts (record t { rtt = rtt; response = response })))
          ours in
      added >>= λ next. add_actions others next

  unfoldable pub add_totals : MetricsTotals H → MetricsTotals H → Option (MetricsTotals H)
  unfolding add_actions add_errors add_chaos
  add_totals t other = do
    handshake ← hdr.add t.handshake other.handshake
    rtt ← hdr.add t.rtt other.rtt
    response ← hdr.add t.response other.response
    actions ← add_actions other.actions t.actions
    some (record t {
      handshake = handshake;
      rtt = rtt;
      response = response;
      messages_sent = add64 t.messages_sent other.messages_sent;
      messages_recv = add64 t.messages_recv other.messages_recv;
      bytes_sent = add64 t.bytes_sent other.bytes_sent;
      bytes_recv = add64 t.bytes_recv other.bytes_recv;
      reconnects = add64 t.reconnects other.reconnects;
      unsolicited_frames = add64 t.unsolicited_frames other.unsolicited_frames;
      sent_message_errors = add64 t.sent_message_errors other.sent_message_errors;
      interrupted = add64 t.interrupted other.interrupted;
      errors = add_errors t.errors other.errors;
      chaos = add_chaos t.chaos other.chaos;
      actions = actions;
    })

  -- The denominator of the error rate.
  unfoldable pub attempted_ops : MetricsTotals H → ℕ
  unfolding error_sum
  attempted_ops t = add64 t.messages_sent (error_sum t.errors - t.sent_message_errors)

  unfoldable pub established_of : MetricsTotals H → ℕ → ℕ
  established_of t attempted_conns = min (hdr.len t.handshake - t.reconnects) attempted_conns

  unfoldable pub interrupted_of : MetricsTotals H → ℕ → ℕ
  unfolding established_of
  interrupted_of t attempted_conns =
      min t.interrupted (attempted_conns - established_of t attempted_conns)

  unfoldable pub finish_totals : MetricsTotals H → ℕ → AggregatedMetrics
  unfolding established_of interrupted_of
  finish_totals t attempted_conns =
      let established = established_of t attempted_conns in
      let interrupted = interrupted_of t attempted_conns in
      record {
        total_connections_attempted = attempted_conns;
        total_connections_established = established;
        total_connections_failed = attempted_conns - established - interrupted;
        total_connections_interrupted = interrupted;
        total_connections_not_started = 0;
        total_reconnects = t.reconnects;
        total_unsolicited_frames = t.unsolicited_frames;
        total_messages_sent = t.messages_sent;
        total_messages_recv = t.messages_recv;
        total_bytes_sent = t.bytes_sent;
        total_bytes_recv = t.bytes_recv;
        error_breakdown = t.errors;
        chaos = t.chaos;
      }

  unfoldable pub merge : {I : Type 0} → List (Reported L I) → ℕ → Option AggregatedMetrics
  unfolding new_totals add_workers finish_totals
  merge workers attempted_conns = do
    totals ← new_totals hdr
    some (finish_totals (add_workers workers totals) attempted_conns)

unfoldable pub with_not_started : AggregatedMetrics → ℕ → AggregatedMetrics
with_not_started a not_started =
    let moved = min not_started a.total_connections_failed in
    record a {
      total_connections_failed = a.total_connections_failed - moved;
      total_connections_not_started = moved;
    }

abbrev pub outcomes : AggregatedMetrics → ℕ
outcomes a =
    a.total_connections_established + a.total_connections_failed + a.total_connections_interrupted
    + a.total_connections_not_started

finish_outcomes :
    {H L : Type 0} (hdr : Histograms H L) (t : MetricsTotals H) (attempted_conns not_started : ℕ)
    → outcomes (with_not_started (finish_totals hdr t attempted_conns) not_started)
      ≡ attempted_conns
unfolding finish_totals established_of interrupted_of with_not_started
finish_outcomes hdr t attempted_conns not_started = omega arith

-- Every slot of a run that merges its workers is counted under exactly one of the four outcomes: as
-- established, failed, interrupted or not started.
pub outcomes-merge :
    {H L I : Type 0} (hdr : Histograms H L) (workers : List (Reported L I))
    (attempted_conns not_started : ℕ) {a : AggregatedMetrics}
    → merge hdr workers attempted_conns ≡ some a
    → outcomes (with_not_started a not_started) ≡ attempted_conns
unfolding merge
outcomes-merge hdr workers attempted_conns not_started {a} e =
    bind_cases (new_totals hdr) _ e (λ t _ same.
      let finished : finish_totals hdr (add_workers hdr workers t) attempted_conns ≡ a = cc in
      subst (λ b. outcomes (with_not_started b not_started) ≡ attempted_conns) finished
        (finish_outcomes hdr (add_workers hdr workers t) attempted_conns not_started))
