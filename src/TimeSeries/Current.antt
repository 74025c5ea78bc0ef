-- ===== src/TimeSeries/Current.antt =====
-- timeseries.rs: what live readers see is the phase begun last, as it stands.
use wsblast.Common.{
  ℕ, ◌-◌, ◌≡◌, refl, ap, ◌∙◌, Bool, true, false, Option, none, some, List, [], ◌∷◌, ◌++◌, All,
  Bytes, arith,
}
use wsblast.TimeSeries.{
  RemotePhase, LivePhase, LiveState, PhaseClock, CompletedInterval, live_default, begin_phase,
  end_phase, begin_remote_phase, publish_remote, finished_at, finish, elapsed_of, elapsed, clock_of,
  phase_clock, completed_remote, completed_at, completed_local, completed_of, last_completed,
  last_completed_index, since, was_ended,
}
use wsblast.TimeSeries.History.{
  Op, begins, begins_remote, ends, finishes, publishes, apply, run, begins_in, Stays, last_end,
  last_published, run_append, run_begun, run_local, run_remote,
}

finished_at_elapsed :
    (now : ℕ) (start finished : Option ℕ)
    → finished_at now start finished ≡ some (elapsed_of now start finished)
finished_at_elapsed now start none = refl
finished_at_elapsed now start (some frozen) = refl

-- The time of a phase runs from its start until it is ended.
abbrev pub elapsed_by : ℕ → ℕ → Option ℕ → ℕ
elapsed_by start now none = now - start
elapsed_by start now (some duration) = duration

abbrev pub ended_by : Option ℕ → Bool
ended_by none = false
ended_by (some duration) = true

since-elapsed_by :
    (now start : ℕ) (ended : Option ℕ) → since now ended start ≡ elapsed_by start now ended
since-elapsed_by now start none = refl
since-elapsed_by now start (some duration) = refl

was_ended-ended_by : (ended : Option ℕ) → was_ended ended ≡ ended_by ended
was_ended-ended_by none = refl
was_ended-ended_by (some duration) = refl

module _ {L : Type 0} where
  -- The clock of a phase by its history.
  abbrev pub clock_by : ℕ → ℕ → ℕ → Bytes → ℕ → Option ℕ → PhaseClock L
  clock_by seq start interval basis now ended = record {
    clock_seq = seq;
    elapsed_ns = elapsed_by start now ended;
    has_ended = ended_by ended;
    clock_interval = interval;
    clock_basis = basis;
  }

  -- An interval of a phase, where there is one.
  abbrev pub interval_by : ℕ → Bytes → Option (ℕ × L) → Option (CompletedInterval L)
  interval_by seq basis none = none
  interval_by seq basis (some (index, latency)) = some (record {
    of_phase = seq;
    interval_index = index;
    completed_basis = basis;
    latency = latency;
  })

  abbrev pub held : (ℕ → L) → Option ℕ → Option (ℕ × L)
  held latency_of none = none
  held latency_of (some index) = some (index, latency_of index)

  clock_of-local :
      (now : ℕ) (phase : LivePhase L)
      → clock_of now (some phase) none
        ≡ some (
            clock_by phase.phase_seq phase.store_start phase.store_interval phase.phase_basis now
              phase.phase_ended)
  clock_of-local now phase =
      rw
        (
          since-elapsed_by now phase.store_start phase.phase_ended,
          was_ended-ended_by phase.phase_ended,
        )
        refl

  clock_of-remote :
      (now : ℕ) (o : Option (LivePhase L)) (remote : RemotePhase L)
      → clock_of now o (some remote)
        ≡ some (
            clock_by remote.remote_seq remote.remote_start remote.remote_interval
              remote.remote_basis now remote.remote_ended)
  clock_of-remote now o remote =
      rw
        (
          since-elapsed_by now remote.remote_start remote.remote_ended,
          was_ended-ended_by remote.remote_ended,
        )
        refl

  completed_at-held :
      (latency_of : ℕ → L) (phase : LivePhase L) (o : Option ℕ)
      → completed_at latency_of phase o
        ≡ interval_by phase.phase_seq phase.phase_basis (held latency_of o)
  completed_at-held latency_of phase none = refl
  completed_at-held latency_of phase (some index) = refl

  completed_remote-interval_by :
      (remote : RemotePhase L) (latest : Option (ℕ × L))
      → completed_remote remote latest ≡ interval_by remote.remote_seq remote.remote_basis latest
  completed_remote-interval_by remote none = refl
  completed_remote-interval_by remote (some (index, latency)) = refl

  module _ (now : ℕ) (latency_of : ℕ → L) (after : List (Op L)) (state : LiveState L)
      (stays : All Stays after) where
    read_local :
        (p : LivePhase L)
        → state.phase ≡ some p
        → state.remote ≡ none
        → let ended = last_end p.phase_ended after in
          (phase_clock (run state after) now
            ≡ some (clock_by p.phase_seq p.store_start p.store_interval p.phase_basis now ended))
          × (last_completed (run state after) latency_of now
              ≡ interval_by p.phase_seq p.phase_basis (
                  held latency_of
                    (last_completed_index (elapsed_by p.store_start now ended) p.store_interval)))
    unfolding phase_clock last_completed completed_local
    read_local p here away =
        let s = run state after in
        let q : LivePhase L = record p { phase_ended = last_end p.phase_ended after } in
        let (kept, none_there) = run_local after state p stays here away in
        (
          ap (λ o. clock_of now o s.remote) kept
              ∙ ap (λ o. clock_of now (some q) o) none_there
              ∙ clock_of-local now q,
          ap (λ o. completed_of latency_of now o s.remote) kept
              ∙ ap (λ o. completed_of latency_of now (some q) o) none_there
              ∙ completed_at-held latency_of q
                  (last_completed_index (since now q.phase_ended q.store_start) q.store_interval)
              ∙ ap
                  (λ (n : ℕ).
                    interval_by q.phase_seq q.phase_basis
                      (held latency_of (last_completed_index n q.store_interval)))
                  (since-elapsed_by now q.store_start q.phase_ended),
        )

    read_remote :
        (p : RemotePhase L)
        → state.remote ≡ some p
        → (phase_clock (run state after) now
            ≡ some (
                clock_by p.remote_seq p.remote_start p.remote_interval p.remote_basis now
                  (last_end p.remote_ended after)))
          × (last_completed (run state after) latency_of now
              ≡ interval_by p.remote_seq p.remote_basis (last_published p.latest after))
    unfolding phase_clock last_completed
    read_remote p here =
        let s = run state after in
        let q : RemotePhase L = record p {
          remote_ended = last_end p.remote_ended after;
          latest = last_published p.latest after;
        } in
        let kept = run_remote after state p stays here in
        (
          ap (λ o. clock_of now s.phase o) kept ∙ clock_of-remote now s.phase q,
          ap (λ o. completed_of latency_of now s.phase o) kept
              ∙ completed_remote-interval_by q q.latest,
        )

  -- Whatever was done before, once a phase has begun and while no other begins, readers see that
  -- phase, numbered by the phases before it, until its last end: for a local phase the clock and the
  -- interval completed last, and for a remote one the clock and the interval published last.
  pub phase_clock-run :
      (before after : List (Op L)) (start interval : ℕ) (basis : Bytes) (now : ℕ)
      (latency_of : ℕ → L)
      → All Stays after
      → let seq = begins_in before in
        let ended = last_end none after in
        let own = run live_default (before ++ (begins start interval basis ∷ after)) in
        let agents = run live_default (before ++ (begins_remote start interval basis ∷ after)) in
        (phase_clock own now ≡ some (clock_by seq start interval basis now ended))
        × (last_completed own latency_of now
            ≡ interval_by seq basis
                (held latency_of (last_completed_index (elapsed_by start now ended) interval)))
        × (phase_clock agents now ≡ some (clock_by seq start interval basis now ended))
        × (last_completed agents latency_of now ≡ interval_by seq basis (last_published none after))
  unfolding run apply begin_phase begin_remote_phase
  phase_clock-run before after start interval basis now latency_of stays =
      let st = run live_default before in
      let numbered : st.phases_begun ≡ begins_in before =
        omega (arith, run_begun before live_default) in
      let own = run_append before (begins start interval basis ∷ after) live_default in
      let agents = run_append before (begins_remote start interval basis ∷ after) live_default in
      let (clock, completed) =
        read_local now latency_of after (begin_phase st start interval basis) stays _ refl refl in
      let (remote_clock, remote_completed) =
        read_remote now latency_of after (begin_remote_phase st start interval basis) stays _
          refl in
      (
        ap (λ s. phase_clock s now) own
            ∙ clock
            ∙ ap (λ (n : ℕ). some (clock_by n start interval basis now (last_end none after)))
                numbered,
        ap (λ s. last_completed s latency_of now) own
            ∙ completed
            ∙ ap
                (λ (n : ℕ). interval_by n basis (
                  held latency_of
                    (last_completed_index (elapsed_by start now (last_end none after)) interval)))
                numbered,
        ap (λ s. phase_clock s now) agents
            ∙ remote_clock
            ∙ ap (λ (n : ℕ). some (clock_by n start interval basis now (last_end none after)))
                numbered,
        ap (λ s. last_completed s latency_of now) agents
            ∙ remote_completed
            ∙ ap (λ (n : ℕ). interval_by n basis (last_published none after)) numbered,
      )

  apply-finished :
      (state : LiveState L) (op : Op L) (frozen : ℕ)
      → state.finished ≡ some frozen
      → (apply state op).finished ≡ some frozen
  unfolding apply begin_phase begin_remote_phase end_phase finish publish_remote
  apply-finished state (begins start interval basis) frozen h = h
  apply-finished state (begins_remote start interval basis) frozen h = h
  apply-finished state (ends d) frozen h = h
  apply-finished state (finishes now) frozen h = ap (finished_at now state.run_start) h
  apply-finished state (publishes i l) frozen h = h

  run-finished :
      (ops : List (Op L)) (state : LiveState L) (frozen : ℕ)
      → state.finished ≡ some frozen
      → (run state ops).finished ≡ some frozen
  unfolding run
  run-finished [] state frozen h = h
  run-finished (op ∷ ops) state frozen h =
      run-finished ops (apply state op) frozen (apply-finished state op frozen h)

  -- Once the run has finished, its elapsed time stays what it was at that instant, whatever is done
  -- to the live state and whenever it is read.
  pub elapsed-finish :
      (state : LiveState L) (now later : ℕ) (ops : List (Op L))
      → elapsed (run (finish state now) ops) later ≡ elapsed state now
  unfolding elapsed finish
  elapsed-finish state now later ops =
      ap (elapsed_of later (run (finish state now) ops).run_start) (
        run-finished ops (finish state now) (elapsed state now)
          (finished_at_elapsed now state.run_start state.finished))
