-- ===== src/TimeSeries/History.antt =====
-- timeseries.rs: what is done to the live state, in order, and the phase that it leaves.
use wsblast.Common.{
  ℕ, suc, ◌+◌, ◌≡◌, refl, ap, true, false, Option, none, some, List, [], ◌∷◌, ◌++◌, All, Bytes,
  arith,
}
use wsblast.TimeSeries.{
  RemotePhase, LivePhase, LiveState, begin_phase, end_remote, end_local, end_phase,
  begin_remote_phase, published, publish_remote, finish,
}

-- What is done to the live state, with the instant where the clock is read.
pub data Op (L : Type 0) : Type 0 where
  begins begins_remote : ℕ → ℕ → Bytes → Op L
  ends finishes : ℕ → Op L
  publishes : ℕ → L → Op L

module _ {L : Type 0} where
  unfoldable pub apply : LiveState L → Op L → LiveState L
  apply state (begins start interval basis) = begin_phase state start interval basis
  apply state (begins_remote start interval basis) = begin_remote_phase state start interval basis
  apply state (ends duration) = end_phase state duration
  apply state (finishes now) = finish state now
  apply state (publishes index latency) = publish_remote state index latency

  unfoldable pub run : LiveState L → List (Op L) → LiveState L
  unfolding apply
  run state [] = state
  run state (op ∷ ops) = run (apply state op) ops

  -- What is done, read as a history: the phases begun, whether none begins, the last end and the
  -- last interval published.
  abbrev pub begins_in : List (Op L) → ℕ
  begins_in [] = 0
  begins_in (begins start interval basis ∷ ops) = suc (begins_in ops)
  begins_in (begins_remote start interval basis ∷ ops) = suc (begins_in ops)
  begins_in (ends duration ∷ ops) = begins_in ops
  begins_in (finishes now ∷ ops) = begins_in ops
  begins_in (publishes index latency ∷ ops) = begins_in ops

  abbrev pub Stays : Op L → Type 0
  Stays (begins start interval basis) = false ≡ true
  Stays (begins_remote start interval basis) = false ≡ true
  Stays (ends duration) = Unit {0}
  Stays (finishes now) = Unit {0}
  Stays (publishes index latency) = Unit {0}

  abbrev pub last_end : Option ℕ → List (Op L) → Option ℕ
  last_end before [] = before
  last_end before (begins start interval basis ∷ ops) = last_end before ops
  last_end before (begins_remote start interval basis ∷ ops) = last_end before ops
  last_end before (ends duration ∷ ops) = last_end (some duration) ops
  last_end before (finishes now ∷ ops) = last_end before ops
  last_end before (publishes index latency ∷ ops) = last_end before ops

  abbrev pub last_published : Option (ℕ × L) → List (Op L) → Option (ℕ × L)
  last_published before [] = before
  last_published before (begins start interval basis ∷ ops) = last_published before ops
  last_published before (begins_remote start interval basis ∷ ops) = last_published before ops
  last_published before (ends duration ∷ ops) = last_published before ops
  last_published before (finishes now ∷ ops) = last_published before ops
  last_published before (publishes index latency ∷ ops) = last_published (some (index, latency)) ops

  pub run_append :
      (ops later : List (Op L)) (state : LiveState L)
      → run state (ops ++ later) ≡ run (run state ops) later
  unfolding run
  run_append [] later state = refl
  run_append (op ∷ ops) later state = run_append ops later (apply state op)

  pub run_begun :
      (ops : List (Op L)) (state : LiveState L)
      → (run state ops).phases_begun ≡ state.phases_begun + begins_in ops
  unfolding run apply begin_phase begin_remote_phase end_phase finish publish_remote
  run_begun [] state = omega arith
  run_begun (begins start interval basis ∷ ops) state =
      omega (arith, run_begun ops (begin_phase state start interval basis))
  run_begun (begins_remote start interval basis ∷ ops) state =
      omega (arith, run_begun ops (begin_remote_phase state start interval basis))
  run_begun (ends duration ∷ ops) state = run_begun ops (end_phase state duration)
  run_begun (finishes now ∷ ops) state = run_begun ops (finish state now)
  run_begun (publishes index latency ∷ ops) state =
      run_begun ops (publish_remote state index latency)

  -- While no phase begins, a local phase stays with its last end, and so does a remote one, with the
  -- last interval published.
  pub run_local :
      (ops : List (Op L)) (state : LiveState L) (phase : LivePhase L)
      → All Stays ops
      → state.phase ≡ some phase
      → state.remote ≡ none
      → ((run state ops).phase
          ≡ some (record phase { phase_ended = last_end phase.phase_ended ops }))
        × ((run state ops).remote ≡ none)
  unfolding run apply end_phase finish publish_remote
  run_local [] state phase h here away = (here, away)
  run_local (begins start interval basis ∷ ops) state phase (begun, h) here away = cc
  run_local (begins_remote start interval basis ∷ ops) state phase (begun, h) here away = cc
  run_local (ends duration ∷ ops) state phase (stays, h) here away =
      run_local ops (end_phase state duration) (record phase { phase_ended = some duration }) h
        (ap (end_local duration) here) (ap (end_remote duration) away)
  run_local (finishes now ∷ ops) state phase (stays, h) here away =
      run_local ops (finish state now) phase h here away
  run_local (publishes index latency ∷ ops) state phase (stays, h) here away =
      run_local ops (publish_remote state index latency) phase h here
        (ap (published index latency) away)

  pub run_remote :
      (ops : List (Op L)) (state : LiveState L) (remote : RemotePhase L)
      → All Stays ops
      → state.remote ≡ some remote
      → (run state ops).remote
        ≡ some (record remote {
          remote_ended = last_end remote.remote_ended ops;
          latest = last_published remote.latest ops;
        })
  unfolding run apply end_phase finish publish_remote
  run_remote [] state remote h here = here
  run_remote (begins start interval basis ∷ ops) state remote (begun, h) here = cc
  run_remote (begins_remote start interval basis ∷ ops) state remote (begun, h) here = cc
  run_remote (ends duration ∷ ops) state remote (stays, h) here =
      run_remote ops (end_phase state duration) (record remote { remote_ended = some duration }) h
        (ap (end_remote duration) here)
  run_remote (finishes now ∷ ops) state remote (stays, h) here =
      run_remote ops (finish state now) remote h here
  run_remote (publishes index latency ∷ ops) state remote (stays, h) here =
      run_remote ops (publish_remote state index latency)
        (record remote { latest = some (index, latency) }) h (ap (published index latency) here)
