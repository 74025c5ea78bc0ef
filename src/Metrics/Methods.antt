-- ===== src/Metrics/Methods.antt =====
-- metrics.rs: the `record_` methods of `WorkerMetrics`.
use wsblast.Common.{ℕ, not, Option, none, some, ◌==◌, if◌then◌else◌}
use wsblast.Metrics.{
  ErrorCategory, ErrorScope, attempt, sent_message, ActionCounts, ChaosSummary, Recorders,
  Recording, add64, less_one64, micros_of, add_error, with_action_counts,
}

abbrev one_more_sent : ActionCounts → ActionCounts
one_more_sent c = record c { sent = add64 c.sent 1 }

abbrev one_more_error : ErrorScope → ActionCounts → ActionCounts
one_more_error attempt c = record c { errors = add64 c.errors 1 }
one_more_error sent_message c = record c {
  errors = add64 c.errors 1;
  sent_message_errors = add64 c.sent_message_errors 1;
}

abbrev ends_sent : ErrorScope → ℕ → ℕ
ends_sent attempt n = n
ends_sent sent_message n = add64 n 1

-- The five chaos counts, each one more where the run injects faults.
abbrev pub counted_chaos : (ChaosSummary → ChaosSummary) → Option ChaosSummary → Option ChaosSummary
counted_chaos f none = none
counted_chaos f (some chaos) = some (f chaos)

module _ {L I : Type 0} (recorders : Recorders L I) where
  unfoldable pub record_handshake_latency : ℕ → Recording L I → Recording L I
  record_handshake_latency duration r = record r {
    latency = recorders.record_handshake r.worker.shard (micros_of duration) r.latency;
    counters = record (r.counters) { active_connections = add64 r.counters.active_connections 1 };
  }

  unfoldable pub record_first_handshake : ℕ → Recording L I → Recording L I
  unfolding record_handshake_latency
  record_first_handshake duration r =
      let r' = record_handshake_latency duration r in
      record r' {
        counters = record (r'.counters) {
          connections_established = add64 r'.counters.connections_established 1;
        };
      }

  unfoldable pub record_reconnect : ℕ → Recording L I → Recording L I
  unfolding record_handshake_latency
  record_reconnect duration r =
      let r' = record_handshake_latency duration r in
      record r' {
        worker = record (r'.worker) { reconnects = add64 r'.worker.reconnects 1 };
        counters = record (r'.counters) { reconnects = add64 r'.counters.reconnects 1 };
      }

  unfoldable pub record_error : ErrorCategory → ErrorScope → Recording L I → Recording L I
  record_error err scope r = record r {
    worker = record (r.worker) {
      errors = add_error err 1 r.worker.errors;
      sent_message_errors = ends_sent scope r.worker.sent_message_errors;
      actions = with_action_counts (one_more_error scope) r.worker.current_action r.worker.actions;
    };
    counters = record (r.counters) { total_errors = add64 r.counters.total_errors 1 };
  }

  unfoldable pub record_connection_failed : ErrorCategory → Recording L I → Recording L I
  unfolding record_error
  record_connection_failed err r =
      let r' = record_error err attempt r in
      record r' {
        counters = record (r'.counters) {
          connections_failed = add64 r'.counters.connections_failed 1;
        };
      }

  unfoldable pub record_connection_closed : Recording L I → Recording L I
  record_connection_closed r = record r {
    counters = record (r.counters) {
      active_connections = less_one64 r.counters.active_connections;
    };
  }

  unfoldable pub record_message_sent : ℕ → Recording L I → Recording L I
  record_message_sent bytes r = record r {
    worker = record (r.worker) {
      messages_sent = add64 r.worker.messages_sent 1;
      bytes_sent = add64 r.worker.bytes_sent bytes;
      actions = with_action_counts one_more_sent r.worker.current_action r.worker.actions;
    };
    counters = record (r.counters) {
      messages_sent = add64 r.counters.messages_sent 1;
      bytes_sent = add64 r.counters.bytes_sent bytes;
    };
  }

  abbrev pub action_latency : (ℕ → ℕ → ℕ → L → L) → Option ℕ → ℕ → ℕ → L → L
  action_latency recorded none shard micros latency = latency
  action_latency recorded (some action) shard micros latency = recorded action shard micros latency

  abbrev pub interval_sample : ℕ → Option I → Option I
  interval_sample micros none = none
  interval_sample micros (some interval) = some (recorders.record_interval micros interval)

  -- `if let Some(rtt_dur) = rtt`
  unfoldable pub record_round_trip : Option ℕ → Recording L I → Recording L I
  record_round_trip none r = r
  record_round_trip (some rtt) r =
      let micros = micros_of rtt in
      record r {
        latency =
            action_latency recorders.record_action_rtt r.worker.current_action r.worker.shard micros
              (recorders.record_rtt r.worker.shard micros r.latency);
        worker = record (r.worker) {
          interval =
              if not r.worker.interval_uses_response
              then interval_sample micros r.worker.interval
              else r.worker.interval;
        };
      }

  unfoldable pub record_message_recv : ℕ → Option ℕ → Recording L I → Recording L I
  unfolding record_round_trip
  record_message_recv bytes rtt r =
      let r' = record_round_trip rtt (record r {
        worker = record (r.worker) {
          messages_recv = add64 r.worker.messages_recv 1;
          bytes_recv = add64 r.worker.bytes_recv bytes;
        };
      }) in
      record r' {
        counters = record (r'.counters) {
          messages_received = add64 r'.counters.messages_received 1;
          bytes_received = add64 r'.counters.bytes_received bytes;
        };
      }

  unfoldable pub record_response_time : ℕ → Recording L I → Recording L I
  record_response_time duration r =
      let micros = micros_of duration in
      record r {
        latency =
            action_latency recorders.record_action_response r.worker.current_action r.worker.shard
              micros (recorders.record_response r.worker.shard micros r.latency);
        worker = record (r.worker) { interval = interval_sample micros r.worker.interval };
      }

  unfoldable pub record_unsolicited_frames : ℕ → Recording L I → Recording L I
  record_unsolicited_frames count r = if count == 0 then r else record r {
    worker = record (r.worker) { unsolicited_frames = add64 r.worker.unsolicited_frames count };
    counters = record (r.counters) {
      unsolicited_frames = add64 r.counters.unsolicited_frames count;
    };
  }

  abbrev pub with_chaos : (ChaosSummary → ChaosSummary) → Recording L I → Recording L I
  with_chaos f r = record r {
    worker = record (r.worker) { chaos = counted_chaos f r.worker.chaos };
  }

  unfoldable pub record_chaos_delayed : Recording L I → Recording L I
  record_chaos_delayed = with_chaos (λ c. record c { delayed = add64 c.delayed 1 })

  unfoldable pub record_chaos_dropped : Recording L I → Recording L I
  record_chaos_dropped = with_chaos (λ c. record c { dropped = add64 c.dropped 1 })

  unfoldable pub record_chaos_corrupted : Recording L I → Recording L I
  record_chaos_corrupted = with_chaos (λ c. record c { corrupted = add64 c.corrupted 1 })

  unfoldable pub record_chaos_read_pause : Recording L I → Recording L I
  record_chaos_read_pause = with_chaos (λ c. record c { read_pauses = add64 c.read_pauses 1 })

  unfoldable pub record_chaos_close : Recording L I → Recording L I
  record_chaos_close = with_chaos (λ c. record c { closes = add64 c.closes 1 })
