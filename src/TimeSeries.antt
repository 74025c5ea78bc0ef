-- ===== src/TimeSeries.antt =====
-- src/timeseries.rs: the phase in progress as live readers see it. Instants and durations are
-- nanoseconds, and a function that reads the clock takes the instant. The lock is held for a whole
-- operation, so an operation is a function of the state.
pub mod History
pub mod Current
mod Runs
use wsblast.Common.{
  ℕ, suc, ◌+◌, ◌-◌, ◌*◌, ◌/◌, ◌^◌, max, Bool, true, false, Option, none, some, List, [], ◌∷◌, Bytes,
  ltb, ◌==◌, if◌then◌else◌,
}

-- 1 second for runs up to 600 seconds, or the seconds that keep a run within 600 points.
unfoldable pub interval_for : ℕ → ℕ
interval_for duration = max ((duration / 1000000000 + 599) / 600) 1 * 1000000000

-- The percentiles of an interval are `L`, and an instant's distance stops at 0.
module _ (L : Type 0) where
  pub record RemotePhase : Type 0 where
    pub remote_start : ℕ
    pub remote_interval : ℕ
    pub remote_basis : Bytes
    pub remote_ended : Option ℕ
    pub remote_seq : ℕ
    pub latest : Option (ℕ × L)

  -- A store is its start and interval here; what it holds is given where it is read.
  pub record LivePhase : Type 0 where
    pub store_start : ℕ
    pub store_interval : ℕ
    pub phase_basis : Bytes
    pub phase_ended : Option ℕ
    pub phase_seq : ℕ

  pub record LiveState : Type 0 where
    pub run_start : Option ℕ
    pub finished : Option ℕ
    pub phase : Option LivePhase
    pub phases_begun : ℕ
    pub remote : Option RemotePhase

  pub record PhaseClock : Type 0 where
    pub clock_seq : ℕ
    pub elapsed_ns : ℕ
    pub has_ended : Bool
    pub clock_interval : ℕ
    pub clock_basis : Bytes

  pub record CompletedInterval : Type 0 where
    pub of_phase : ℕ
    pub interval_index : ℕ
    pub completed_basis : Bytes
    pub latency : L

abbrev pub or_insert : Option ℕ → ℕ → Option ℕ
or_insert none start = some start
or_insert (some first) start = some first

abbrev pub since : ℕ → Option ℕ → ℕ → ℕ
since now (some ended) start = ended
since now none start = now - start

abbrev pub was_ended : Option ℕ → Bool
was_ended none = false
was_ended (some ended) = true

-- The index has 64 bits, and there is none before the first interval has ended.
abbrev pub before_index : ℕ → Option ℕ
before_index index =
    if ltb index (2 ^ 64) then if index == 0 then none else some (index - 1) else none

pub last_completed_index : ℕ → ℕ → Option ℕ
last_completed_index since_start interval = before_index (since_start / max interval 1)

abbrev pub run_length : ℕ → Option ℕ → ℕ
run_length now none = 0
run_length now (some start) = now - start

abbrev pub finished_at : ℕ → Option ℕ → Option ℕ → Option ℕ
finished_at now start none = some (run_length now start)
finished_at now start (some frozen) = some frozen

abbrev pub elapsed_of : ℕ → Option ℕ → Option ℕ → ℕ
elapsed_of now start none = run_length now start
elapsed_of now start (some frozen) = frozen

module _ {L : Type 0} where
  abbrev pub live_default : LiveState L
  live_default = record {
    run_start = none;
    finished = none;
    phase = none;
    phases_begun = 0;
    remote = none;
  }

  unfoldable pub begin_phase : LiveState L → ℕ → ℕ → Bytes → LiveState L
  begin_phase state start interval basis = record state {
    run_start = or_insert state.run_start start;
    phases_begun = state.phases_begun + 1;
    remote = none;
    phase = some (record {
      store_start = start;
      store_interval = interval;
      phase_basis = basis;
      phase_ended = none;
      phase_seq = state.phases_begun;
    });
  }

  abbrev pub end_remote : ℕ → Option (RemotePhase L) → Option (RemotePhase L)
  end_remote elapsed none = none
  end_remote elapsed (some remote) = some (record remote { remote_ended = some elapsed })

  abbrev pub end_local : ℕ → Option (LivePhase L) → Option (LivePhase L)
  end_local elapsed none = none
  end_local elapsed (some phase) = some (record phase { phase_ended = some elapsed })

  unfoldable pub end_phase : LiveState L → ℕ → LiveState L
  end_phase state elapsed = record state {
    remote = end_remote elapsed state.remote;
    phase = end_local elapsed state.phase;
  }

  unfoldable pub begin_remote_phase : LiveState L → ℕ → ℕ → Bytes → LiveState L
  begin_remote_phase state start interval basis = record state {
    run_start = or_insert state.run_start start;
    phases_begun = state.phases_begun + 1;
    phase = none;
    remote = some (record {
      remote_start = start;
      remote_interval = interval;
      remote_basis = basis;
      remote_ended = none;
      remote_seq = state.phases_begun;
      latest = none;
    });
  }

  abbrev pub published : ℕ → L → Option (RemotePhase L) → Option (RemotePhase L)
  published index latency none = none
  published index latency (some remote) = some (record remote { latest = some (index, latency) })

  unfoldable pub publish_remote : LiveState L → ℕ → L → LiveState L
  publish_remote state index latency = record state {
    remote = published index latency state.remote;
  }

  unfoldable pub finish : LiveState L → ℕ → LiveState L
  finish state now = record state { finished = finished_at now state.run_start state.finished }

  unfoldable pub elapsed : LiveState L → ℕ → ℕ
  elapsed state now = elapsed_of now state.run_start state.finished

  abbrev pub local_clock : ℕ → Option (LivePhase L) → Option (PhaseClock L)
  local_clock now none = none
  local_clock now (some phase) = some (record {
    clock_seq = phase.phase_seq;
    elapsed_ns = since now phase.phase_ended phase.store_start;
    has_ended = was_ended phase.phase_ended;
    clock_interval = phase.store_interval;
    clock_basis = phase.phase_basis;
  })

  abbrev pub clock_of : ℕ → Option (LivePhase L) → Option (RemotePhase L) → Option (PhaseClock L)
  clock_of now phase none = local_clock now phase
  clock_of now phase (some remote) = some (record {
    clock_seq = remote.remote_seq;
    elapsed_ns = since now remote.remote_ended remote.remote_start;
    has_ended = was_ended remote.remote_ended;
    clock_interval = remote.remote_interval;
    clock_basis = remote.remote_basis;
  })

  unfoldable pub phase_clock : LiveState L → ℕ → Option (PhaseClock L)
  phase_clock state now = clock_of now state.phase state.remote

  abbrev pub completed_remote : RemotePhase L → Option (ℕ × L) → Option (CompletedInterval L)
  completed_remote remote none = none
  completed_remote remote (some (index, latency)) = some (record {
    of_phase = remote.remote_seq;
    interval_index = index;
    completed_basis = remote.remote_basis;
    latency = latency;
  })

  -- `latency_of` is what the phase's store holds for an interval.
  abbrev pub completed_at : (ℕ → L) → LivePhase L → Option ℕ → Option (CompletedInterval L)
  completed_at latency_of phase none = none
  completed_at latency_of phase (some index) = some (record {
    of_phase = phase.phase_seq;
    interval_index = index;
    completed_basis = phase.phase_basis;
    latency = latency_of index;
  })

  unfoldable pub completed_local : (ℕ → L) → ℕ → Option (LivePhase L) → Option (CompletedInterval L)
  completed_local latency_of now none = none
  completed_local latency_of now (some phase) =
      completed_at latency_of phase
        (last_completed_index (since now phase.phase_ended phase.store_start) phase.store_interval)

  abbrev pub completed_of :
      (ℕ → L) → ℕ → Option (LivePhase L) → Option (RemotePhase L) → Option (CompletedInterval L)
  completed_of latency_of now phase none = completed_local latency_of now phase
  completed_of latency_of now phase (some remote) = completed_remote remote remote.latest

  unfoldable pub last_completed : LiveState L → (ℕ → L) → ℕ → Option (CompletedInterval L)
  last_completed state latency_of now = completed_of latency_of now state.phase state.remote
