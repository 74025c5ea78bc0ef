-- ===== src/TimeSeries/Runs.antt =====
-- timeseries.rs at a concrete run.
use wsblast.Common.{ℕ, ◌≡◌, refl, some, List, [], ◌∷◌, codes, false, true, ◌++◌}
use wsblast.TimeSeries.{
  interval_for, live_default, begin_phase, begin_remote_phase, end_phase, publish_remote,
  phase_clock, last_completed, last_completed_index, PhaseClock,
}
use wsblast.TimeSeries.History.{Op, begins, begins_remote, ends, publishes, apply, run}
use wsblast.TimeSeries.Current.{phase_clock-run}

abbrev two_phases : List (Op ℕ)
two_phases =
    begins 0 1000000000 (codes "rtt")
    ∷ ends 3000000000
    ∷ begins_remote 4000000000 1000000000 (codes "rtt")
    ∷ publishes 6 42
    ∷ []

long_run : interval_for 3600000000000 ≡ 6000000000
unfolding interval_for
long_run = refl

remote_clock :
    phase_clock (run live_default two_phases) 6500000000
    ≡ some (record {
      clock_seq = 1;
      elapsed_ns = 2500000000;
      has_ended = false;
      clock_interval = 1000000000;
      clock_basis = codes "rtt";
    })
unfolding run apply begin_phase end_phase begin_remote_phase publish_remote phase_clock
remote_clock = refl

remote_completed :
    last_completed (run live_default two_phases) (λ i. i) 6500000000
    ≡ some
        (record { of_phase = 1; interval_index = 6; completed_basis = codes "rtt"; latency = 42 })
unfolding run apply begin_phase end_phase begin_remote_phase publish_remote last_completed
remote_completed = refl

abbrev first_phase : List (Op ℕ)
first_phase = begins 0 1000000000 (codes "rtt") ∷ ends 3000000000 ∷ []

abbrev two_published : List (Op ℕ)
two_published = publishes 5 41 ∷ publishes 6 42 ∷ ends 2600000000 ∷ []

phase_clock-run_example :
    let clock : PhaseClock ℕ = record {
      clock_seq = 1;
      elapsed_ns = 2600000000;
      has_ended = true;
      clock_interval = 1000000000;
      clock_basis = codes "rtt";
    } in
    let own =
      run live_default
        (first_phase ++ (begins 4000000000 1000000000 (codes "rtt") ∷ two_published)) in
    let agents =
      run live_default
        (first_phase ++ (begins_remote 4000000000 1000000000 (codes "rtt") ∷ two_published)) in
    (phase_clock own 6500000000 ≡ some clock)
    × (last_completed own (λ i. i) 6500000000
        ≡ some (record {
          of_phase = 1;
          interval_index = 1;
          completed_basis = codes "rtt";
          latency = 1;
        }))
    × (phase_clock agents 6500000000 ≡ some clock)
    × (last_completed agents (λ i. i) 6500000000
        ≡ some (record {
          of_phase = 1;
          interval_index = 6;
          completed_basis = codes "rtt";
          latency = 42;
        }))
unfolding last_completed_index
phase_clock-run_example =
    phase_clock-run first_phase two_published 4000000000 1000000000 (codes "rtt") 6500000000
      (λ i. i) (tt, (tt, (tt, tt)))
