-- ===== src/Metrics/Live.antt =====
-- metrics.rs: the counters that a run's workers share. Each atomic operation on a counter is one
-- step: the additions of a method call take effect one by one, in any order and mixed with those of
-- other calls, and a snapshot loads one counter after the other.
use wsblast.Common.{
  ℕ, zero, suc, ◌+◌, ◌%◌, Bool, Option, none, some, List, [], ◌∷◌, length, get_elem?, ltb, leb,
}
use wsblast.Metrics.{
  ErrorCategory, ErrorScope, CounterShard, WorkerMetrics, Recorders, Recording, add64,
}
use wsblast.Metrics.Methods.{
  record_first_handshake, record_reconnect, record_error, record_connection_failed,
  record_connection_closed, record_message_sent, record_message_recv, record_response_time,
  record_unsolicited_frames, record_chaos_delayed, record_chaos_dropped, record_chaos_corrupted,
  record_chaos_read_pause, record_chaos_close,
}

pub record LiveMetrics : Type 0 where
  pub shards : List CounterShard
  pub next_shard : ℕ
  pub requests_claimed : ℕ

abbrev pub empty_shard : CounterShard
empty_shard = record {
  active_connections = 0;
  connections_established = 0;
  connections_failed = 0;
  reconnects = 0;
  messages_sent = 0;
  messages_received = 0;
  bytes_sent = 0;
  bytes_received = 0;
  total_errors = 0;
  unsolicited_frames = 0;
}

unfoldable pub empty_shards : ℕ → List CounterShard
empty_shards zero = []
empty_shards (suc n) = empty_shard ∷ empty_shards n

-- For a machine with `cores` cores.
unfoldable pub new_live : ℕ → LiveMetrics
unfolding empty_shards
new_live cores = record {
  shards = empty_shards (cores + cores);
  next_shard = 0;
  requests_claimed = 0;
}

unfoldable pub assign_shard : LiveMetrics → LiveMetrics × ℕ
assign_shard live =
    (record live { next_shard = add64 live.next_shard 1 }, live.next_shard % length live.shards)

unfoldable pub claim_request : ℕ → LiveMetrics → LiveMetrics × Bool
claim_request max live = (
  record live { requests_claimed = add64 live.requests_claimed 1 },
  ltb live.requests_claimed max,
)

unfoldable pub requests_exhausted : ℕ → LiveMetrics → Bool
requests_exhausted max live = leb max live.requests_claimed

-- One shard as the ten loads of a snapshot find it: what it holds at the first load, at the second,
-- and so on.
abbrev pub Loads : Type 0
Loads = ℕ → CounterShard

-- `LiveSnapshot` has the fields of a shard.
unfoldable pub add_shard : CounterShard → Loads → CounterShard
add_shard snap at = record {
  active_connections = add64 snap.active_connections (at 0).active_connections;
  connections_established = add64 snap.connections_established (at 1).connections_established;
  connections_failed = add64 snap.connections_failed (at 2).connections_failed;
  reconnects = add64 snap.reconnects (at 3).reconnects;
  messages_sent = add64 snap.messages_sent (at 4).messages_sent;
  messages_received = add64 snap.messages_received (at 5).messages_received;
  bytes_sent = add64 snap.bytes_sent (at 6).bytes_sent;
  bytes_received = add64 snap.bytes_received (at 7).bytes_received;
  total_errors = add64 snap.total_errors (at 8).total_errors;
  unsolicited_frames = add64 snap.unsolicited_frames (at 9).unsolicited_frames;
}

unfoldable pub add_shards : CounterShard → List Loads → CounterShard
unfolding add_shard
add_shards snap [] = snap
add_shards snap (at ∷ shards) = add_shards (add_shard snap at) shards

unfoldable pub snapshot : List Loads → CounterShard
unfolding add_shards
snapshot shards = add_shards empty_shard shards

-- What a worker records.
pub data MethodCall : Type 0 where
  first_handshake reconnected : ℕ → MethodCall
  failed : ErrorCategory → MethodCall
  closed : MethodCall
  sent : ℕ → MethodCall
  received : ℕ → Option ℕ → MethodCall
  answered_after : ℕ → MethodCall
  skipped_frames : ℕ → MethodCall
  erred : ErrorCategory → ErrorScope → MethodCall
  delayed dropped corrupted paused cut : MethodCall

module _ {L I : Type 0} (recorders : Recorders L I) where
  unfoldable pub record_event : MethodCall → Recording L I → Recording L I
  unfolding record_first_handshake record_reconnect record_error record_connection_failed
      record_connection_closed record_message_sent record_message_recv record_response_time
      record_unsolicited_frames record_chaos_delayed record_chaos_dropped record_chaos_corrupted
      record_chaos_read_pause record_chaos_close
  record_event (first_handshake duration) r = record_first_handshake recorders duration r
  record_event (reconnected duration) r = record_reconnect recorders duration r
  record_event (failed err) r = record_connection_failed recorders err r
  record_event closed r = record_connection_closed recorders r
  record_event (sent bytes) r = record_message_sent recorders bytes r
  record_event (received bytes rtt) r = record_message_recv recorders bytes rtt r
  record_event (answered_after duration) r = record_response_time recorders duration r
  record_event (skipped_frames count) r = record_unsolicited_frames recorders count r
  record_event (erred err scope) r = record_error recorders err scope r
  record_event delayed r = record_chaos_delayed recorders r
  record_event dropped r = record_chaos_dropped recorders r
  record_event corrupted r = record_chaos_corrupted recorders r
  record_event paused r = record_chaos_read_pause recorders r
  record_event cut r = record_chaos_close recorders r

-- The counters of a shard.
pub data Counter : Type 0 where
  active established failures again sents recvs bytes_out bytes_in errors skips : Counter

-- One `fetch_add` of a call takes effect on the shard; the call's other additions are outstanding.
unfoldable pub land : Counter → CounterShard → CounterShard → CounterShard × CounterShard
land active s t = (
  record s { active_connections = add64 s.active_connections t.active_connections },
  record t { active_connections = 0 },
)
land established s t = (
  record s { connections_established = add64 s.connections_established t.connections_established },
  record t { connections_established = 0 },
)
land failures s t = (
  record s { connections_failed = add64 s.connections_failed t.connections_failed },
  record t { connections_failed = 0 },
)
land again s t =
    (record s { reconnects = add64 s.reconnects t.reconnects }, record t { reconnects = 0 })
land sents s t = (
  record s { messages_sent = add64 s.messages_sent t.messages_sent },
  record t { messages_sent = 0 },
)
land recvs s t = (
  record s { messages_received = add64 s.messages_received t.messages_received },
  record t { messages_received = 0 },
)
land bytes_out s t =
    (record s { bytes_sent = add64 s.bytes_sent t.bytes_sent }, record t { bytes_sent = 0 })
land bytes_in s t = (
  record s { bytes_received = add64 s.bytes_received t.bytes_received },
  record t { bytes_received = 0 },
)
land errors s t =
    (record s { total_errors = add64 s.total_errors t.total_errors }, record t { total_errors = 0 })
land skips s t = (
  record s { unsolicited_frames = add64 s.unsolicited_frames t.unsolicited_frames },
  record t { unsolicited_frames = 0 },
)

-- The workers of a run, what they share, and for each call so far its shard and the additions that
-- have not taken effect.
pub record Running (L I : Type 0) : Type 0 where
  pub shards : List CounterShard
  pub latency : L
  pub workers : List (WorkerMetrics I)
  pub outstanding : List (ℕ × CounterShard)

unfoldable pub put_at {ℓ} : {A : Type ℓ} → ℕ → A → List A → List A
put_at index a [] = []
put_at zero a (x ∷ xs) = a ∷ xs
put_at (suc index) a (x ∷ xs) = x ∷ put_at index a xs

module _ {L I : Type 0} where
  unfoldable pub landed : ℕ → ℕ → CounterShard × CounterShard → Running L I → Running L I
  unfolding put_at
  landed index shard (counters, todo) s = record s {
    shards = put_at shard counters s.shards;
    outstanding = put_at index (shard, todo) s.outstanding;
  }

  unfoldable pub land_on :
      ℕ → Counter → ℕ → CounterShard → Option CounterShard → Running L I → Running L I
  unfolding land landed
  land_on index counter shard todo none s = s
  land_on index counter shard todo (some counters) s =
      landed index shard (land counter counters todo) s

  unfoldable pub land_one : ℕ → Counter → Option (ℕ × CounterShard) → Running L I → Running L I
  unfolding land_on
  land_one index counter none s = s
  land_one index counter (some (shard, todo)) s =
      land_on index counter shard todo (get_elem? s.shards shard) s

-- A worker calls a method, or an addition of the call at an index takes effect.
pub data Step : Type 0 where
  calls : ℕ → MethodCall → Step
  lands : ℕ → Counter → Step

module _ {L I : Type 0} (recorders : Recorders L I) where
  -- The call changes the worker's own counters, and its additions are outstanding: they are what
  -- it would make of a shard of zeros.
  unfoldable pub recorded_by : ℕ → ℕ → Recording L I → Running L I → Running L I
  unfolding put_at
  recorded_by index shard r s = record s {
    latency = r.latency;
    workers = put_at index r.worker s.workers;
    outstanding = (shard, r.counters) ∷ s.outstanding;
  }

  unfoldable pub with_worker : ℕ → MethodCall → Option (WorkerMetrics I) → Running L I → Running L I
  unfolding record_event recorded_by
  with_worker index event none s = s
  with_worker index event (some worker) s =
      recorded_by index (worker.shard % length s.shards)
        (record_event recorders event
          (record { worker = worker; counters = empty_shard; latency = s.latency }))
        s

  unfoldable pub run_step : Step → Running L I → Running L I
  unfolding with_worker land_one
  run_step (calls index event) s = with_worker index event (get_elem? s.workers index) s
  run_step (lands index counter) s = land_one index counter (get_elem? s.outstanding index) s

  unfoldable pub run_steps : List Step → Running L I → Running L I
  unfolding run_step
  run_steps [] s = s
  run_steps (step ∷ steps) s = run_steps steps (run_step step s)
