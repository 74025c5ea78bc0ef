-- ===== src/Metrics/Balance.antt =====
-- metrics.rs: the live counters and what the workers counted.
use wsblast.Common.{ℕ, ◌+◌, ◌%◌, ◌^◌, ◌≡◌, refl, none, some, [], ◌∷◌, ◌==◌, if_intro, arith}
use wsblast.Metrics.{
  ErrorCategory, ErrorScope, attempt, Errors, Recorders, Recording, add64, add_error, discriminant,
}
use wsblast.Metrics.Merge.{error_sum}
use wsblast.Metrics.Methods.{
  record_handshake_latency, record_first_handshake, record_reconnect, record_error,
  record_connection_failed, record_connection_closed, record_message_sent, record_round_trip,
  record_message_recv, record_response_time, record_unsolicited_frames, record_chaos_delayed,
  record_chaos_dropped, record_chaos_corrupted, record_chaos_read_pause, record_chaos_close,
}
use wsblast.Metrics.Live.{
  MethodCall, first_handshake, reconnected, failed, closed, sent, received, answered_after,
  skipped_frames, erred, delayed, dropped, corrupted, paused, cut, record_event,
}

-- From one recording to the next, a worker's counters and its shard's change alike.
pub record Alike {L I : Type 0} (r r' : Recording L I) : Type 0 where
  pub sents :
      (r'.counters.messages_sent + r.worker.messages_sent) % 2 ^ 64
      ≡ (r.counters.messages_sent + r'.worker.messages_sent) % 2 ^ 64
  pub recvs :
      (r'.counters.messages_received + r.worker.messages_recv) % 2 ^ 64
      ≡ (r.counters.messages_received + r'.worker.messages_recv) % 2 ^ 64
  pub bytes_out :
      (r'.counters.bytes_sent + r.worker.bytes_sent) % 2 ^ 64
      ≡ (r.counters.bytes_sent + r'.worker.bytes_sent) % 2 ^ 64
  pub bytes_in :
      (r'.counters.bytes_received + r.worker.bytes_recv) % 2 ^ 64
      ≡ (r.counters.bytes_received + r'.worker.bytes_recv) % 2 ^ 64
  pub again :
      (r'.counters.reconnects + r.worker.reconnects) % 2 ^ 64
      ≡ (r.counters.reconnects + r'.worker.reconnects) % 2 ^ 64
  pub skips :
      (r'.counters.unsolicited_frames + r.worker.unsolicited_frames) % 2 ^ 64
      ≡ (r.counters.unsolicited_frames + r'.worker.unsolicited_frames) % 2 ^ 64
  pub errors :
      (r'.counters.total_errors + error_sum r.worker.errors) % 2 ^ 64
      ≡ (r.counters.total_errors + error_sum r'.worker.errors) % 2 ^ 64

error_sum-add_error :
    (err : ErrorCategory) (errors : Errors)
    → error_sum (add_error err 1 errors) % 2 ^ 64 ≡ (error_sum errors + 1) % 2 ^ 64
unfolding error_sum add_error
error_sum-add_error err [] = refl
error_sum-add_error err ((category, count) ∷ errors) =
    if_intro
      (λ (all : Errors). error_sum all % 2 ^ 64 ≡ (add64 count (error_sum errors) + 1) % 2 ^ 64)
      (discriminant category == discriminant err) _ _ (λ t. omega arith)
      (λ t. omega (arith, error_sum-add_error err errors))

module _ {L I : Type 0} (recorders : Recorders L I) where
  error-Alike :
      (err : ErrorCategory) (scope : ErrorScope) (r : Recording L I)
      → Alike r (record_error recorders err scope r)
  unfolding record_error
  error-Alike err scope r = record {
    sents = omega arith;
    recvs = omega arith;
    bytes_out = omega arith;
    bytes_in = omega arith;
    again = omega arith;
    skips = omega arith;
    errors = omega (arith, error_sum-add_error err r.worker.errors);
  }

  unsolicited-Alike :
      (count : ℕ) (r : Recording L I) → Alike r (record_unsolicited_frames recorders count r)
  unfolding record_unsolicited_frames
  unsolicited-Alike count r =
      if_intro (λ r'. Alike r r') (count == 0) r _ (λ t. ground arith) (λ t. ground arith)

  pub event-Alike : (e : MethodCall) (r : Recording L I) → Alike r (record_event recorders e r)
  unfolding record_event record_handshake_latency record_first_handshake record_reconnect
      record_connection_failed record_connection_closed record_message_sent record_round_trip
      record_message_recv record_response_time record_chaos_delayed record_chaos_dropped
      record_chaos_corrupted record_chaos_read_pause record_chaos_close
  event-Alike (first_handshake duration) r = ground arith
  event-Alike (reconnected duration) r = ground arith
  event-Alike (failed err) r = ground (arith, error-Alike err attempt r)
  event-Alike closed r = ground arith
  event-Alike (sent bytes) r = ground arith
  event-Alike (received bytes none) r = ground arith
  event-Alike (received bytes (some rtt)) r = ground arith
  event-Alike (answered_after duration) r = ground arith
  event-Alike (skipped_frames count) r = unsolicited-Alike count r
  event-Alike (erred err scope) r = error-Alike err scope r
  event-Alike delayed r = ground arith
  event-Alike dropped r = ground arith
  event-Alike corrupted r = ground arith
  event-Alike paused r = ground arith
  event-Alike cut r = ground arith
