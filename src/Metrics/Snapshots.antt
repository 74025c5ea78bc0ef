-- ===== src/Metrics/Snapshots.antt =====
-- metrics.rs: a snapshot of the live counters shows what the workers counted.
use wsblast.Common.{ℕ, ◌+◌, ◌%◌, ◌^◌, ◌≡◌, refl, ap, List, [], ◌∷◌, map, All, arith}
use wsblast.Metrics.{CounterShard, WorkerMetrics, Recorders, add64}
use wsblast.Metrics.Merge.{error_sum}
use wsblast.Metrics.Live.{
  Loads, empty_shard, add_shard, add_shards, snapshot, Running, Step, run_steps,
}
use wsblast.Metrics.Landing.{sum_of, Even, Balanced, steps-Balanced}

-- A shard that no one writes while it is loaded.
abbrev pub still : CounterShard → Loads
still shard n = shard

-- A call whose additions have all taken effect.
abbrev pub IsDone : ℕ × CounterShard → Type 0
IsDone (shard, todo) = todo ≡ empty_shard

-- A counter of a snapshot is the sum of the shards'.
module _ (f : CounterShard → ℕ)
    (adds : (a b : CounterShard) → f (add_shard a (still b)) ≡ add64 (f a) (f b))
    (zeroed : f empty_shard ≡ 0) where
  add_shards-sum :
      (snap : CounterShard) (shards : List CounterShard)
      → f (add_shards snap (map still shards)) % 2 ^ 64 ≡ (f snap + sum_of f shards) % 2 ^ 64
  unfolding add_shards sum_of
  add_shards-sum snap [] = omega arith
  add_shards-sum snap (shard ∷ shards) =
      omega (arith, add_shards-sum (add_shard snap (still shard)) shards, adds snap shard)

  done_sum :
      (made : List (ℕ × CounterShard))
      → All IsDone made
      → sum_of (λ (o : ℕ × CounterShard). f o.1) made ≡ 0
  unfolding sum_of
  done_sum [] h = refl
  done_sum ((j, t) ∷ made) (here, there) = omega (arith, ap f here, zeroed, done_sum made there)

  snapshot_sum :
      {L I : Type 0} (fw : WorkerMetrics I → ℕ) (s : Running L I)
      → All IsDone s.outstanding
      → Even f fw s
      → f (snapshot (map still s.shards)) % 2 ^ 64 ≡ sum_of fw s.workers % 2 ^ 64
  unfolding snapshot Even
  snapshot_sum fw s done even =
      omega (arith, add_shards-sum empty_shard s.shards, zeroed, even, done_sum s.outstanding done)

-- What a snapshot shows is what the workers counted, in 64 bits.
pub record Shows {I : Type 0} (snap : CounterShard) (workers : List (WorkerMetrics I))
    : Type 0 where
  pub sents : snap.messages_sent % 2 ^ 64 ≡ sum_of (λ w. w.messages_sent) workers % 2 ^ 64
  pub recvs : snap.messages_received % 2 ^ 64 ≡ sum_of (λ w. w.messages_recv) workers % 2 ^ 64
  pub bytes_out : snap.bytes_sent % 2 ^ 64 ≡ sum_of (λ w. w.bytes_sent) workers % 2 ^ 64
  pub bytes_in : snap.bytes_received % 2 ^ 64 ≡ sum_of (λ w. w.bytes_recv) workers % 2 ^ 64
  pub again : snap.reconnects % 2 ^ 64 ≡ sum_of (λ w. w.reconnects) workers % 2 ^ 64
  pub skips : snap.unsolicited_frames % 2 ^ 64 ≡ sum_of (λ w. w.unsolicited_frames) workers % 2 ^ 64
  pub errors : snap.total_errors % 2 ^ 64 ≡ sum_of (λ w. error_sum w.errors) workers % 2 ^ 64

-- Whatever the workers of a run record, and in whatever order the additions of their calls take
-- effect, once they have all taken effect a snapshot of the live counters shows the sums of what the
-- workers counted themselves: the frames and bytes in both directions, the reconnects, the skipped
-- frames and the errors, provided that they agreed at the start, with what was outstanding then.
pub snapshot-run_steps :
    {L I : Type 0} (recorders : Recorders L I) (steps : List Step) (s : Running L I)
    → Balanced s
    → All IsDone (run_steps recorders steps s).outstanding
    → let s' = run_steps recorders steps s in Shows (snapshot (map still s'.shards)) s'.workers
unfolding add_shard
snapshot-run_steps recorders steps s h done =
    let s' = run_steps recorders steps s in
    let even = steps-Balanced recorders steps s h in
    record {
      sents =
          snapshot_sum (λ c. c.messages_sent) (λ a b. refl) refl (λ w. w.messages_sent) s' done
            even.sents;
      recvs =
          snapshot_sum (λ c. c.messages_received) (λ a b. refl) refl (λ w. w.messages_recv) s' done
            even.recvs;
      bytes_out =
          snapshot_sum (λ c. c.bytes_sent) (λ a b. refl) refl (λ w. w.bytes_sent) s' done
            even.bytes_out;
      bytes_in =
          snapshot_sum (λ c. c.bytes_received) (λ a b. refl) refl (λ w. w.bytes_recv) s' done
            even.bytes_in;
      again =
          snapshot_sum (λ c. c.reconnects) (λ a b. refl) refl (λ w. w.reconnects) s' done
            even.again;
      skips =
          snapshot_sum (λ c. c.unsolicited_frames) (λ a b. refl) refl (λ w. w.unsolicited_frames) s'
            done even.skips;
      errors =
          snapshot_sum (λ c. c.total_errors) (λ a b. refl) refl (λ w. error_sum w.errors) s' done
            even.errors;
    }
