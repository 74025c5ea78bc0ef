-- ===== src/Metrics/Landing.antt =====
-- metrics.rs: the additions of the calls, outstanding and in effect, against what the workers count.
use wsblast.Common.{
  ℕ, zero, suc, ◌+◌, ◌%◌, ◌^◌, ◌≡◌, refl, ap, Option, none, some, List, [], ◌∷◌, get_elem?, length,
  arith,
}
use wsblast.Metrics.{CounterShard, WorkerMetrics, Recorders, Recording}
use wsblast.Metrics.Merge.{error_sum}
use wsblast.Metrics.Live.{
  empty_shard, MethodCall, Counter, active, established, failures, again, sents, recvs, bytes_out,
  bytes_in, errors, skips, land, Running, put_at, landed, land_on, land_one, Step, calls, lands,
  recorded_by, with_worker, run_step, run_steps,
}
use wsblast.Metrics.Balance.{Alike, event-Alike}

unfoldable pub sum_of {ℓ} : {A : Type ℓ} → (A → ℕ) → List A → ℕ
sum_of f [] = 0
sum_of f (x ∷ xs) = f x + sum_of f xs

sum_of-put_at :
    {A : Type 0} (f : A → ℕ) (i : ℕ) (xs : List A) {x : A} (a : A)
    → get_elem? xs i ≡ some x
    → sum_of f (put_at i a xs) + f x ≡ sum_of f xs + f a
unfolding sum_of put_at
sum_of-put_at f i [] a e = cc
sum_of-put_at f zero (y ∷ xs) {x} a e = let same : y ≡ x = cc in omega (arith, ap f same)
sum_of-put_at f (suc i) (y ∷ xs) a e = omega (arith, sum_of-put_at f i xs a e)

-- A counter of the shards, with what is outstanding, against one of the workers.
unfoldable pub Even :
    {L I : Type 0} → (CounterShard → ℕ) → (WorkerMetrics I → ℕ) → Running L I → Type 0
Even fc fw s =
    (sum_of fc s.shards + sum_of (λ (o : ℕ × CounterShard). fc o.1) s.outstanding) % 2 ^ 64
    ≡ sum_of fw s.workers % 2 ^ 64

module _ {L I : Type 0} (fc : CounterShard → ℕ) (fw : WorkerMetrics I → ℕ) where
  -- A call adds to the worker's counter what is outstanding of it.
  called-Even :
      (recorders : Recorders L I) (i j : ℕ) (s : Running L I) (w : WorkerMetrics I)
      (r : Recording L I)
      → get_elem? s.workers i ≡ some w
      → (fc r.counters + fw w) % 2 ^ 64 ≡ fw r.worker % 2 ^ 64
      → Even fc fw s
      → Even fc fw (recorded_by recorders i j r s)
  unfolding Even recorded_by sum_of
  called-Even recorders i j s w r at_worker step before =
      omega (arith, sum_of-put_at fw i s.workers r.worker at_worker)

  -- What takes effect is no longer outstanding.
  landed-Even :
      (i j : ℕ) (s : Running L I) (c t c' t' : CounterShard)
      → get_elem? s.shards j ≡ some c
      → get_elem? s.outstanding i ≡ some (j, t)
      → (fc c' + fc t') % 2 ^ 64 ≡ (fc c + fc t) % 2 ^ 64
      → Even fc fw s
      → Even fc fw (landed i j (c', t') s)
  unfolding Even landed
  landed-Even i j s c t c' t' at_shard at_call step before = omega (
    arith,
    sum_of-put_at fc j s.shards c' at_shard,
    sum_of-put_at (λ (o : ℕ × CounterShard). fc o.1) i s.outstanding (j, t') at_call,
  )

-- One addition takes effect in full.
record Lands (c s t : CounterShard) (c' : CounterShard) : Type 0 where
  pub sents :
      (c.messages_sent + s.messages_sent) % 2 ^ 64 ≡ (t.messages_sent + c'.messages_sent) % 2 ^ 64
  pub recvs :
      (c.messages_received + s.messages_received) % 2 ^ 64
      ≡ (t.messages_received + c'.messages_received) % 2 ^ 64
  pub bytes_out : (c.bytes_sent + s.bytes_sent) % 2 ^ 64 ≡ (t.bytes_sent + c'.bytes_sent) % 2 ^ 64
  pub bytes_in :
      (c.bytes_received + s.bytes_received) % 2 ^ 64
      ≡ (t.bytes_received + c'.bytes_received) % 2 ^ 64
  pub again : (c.reconnects + s.reconnects) % 2 ^ 64 ≡ (t.reconnects + c'.reconnects) % 2 ^ 64
  pub skips :
      (c.unsolicited_frames + s.unsolicited_frames) % 2 ^ 64
      ≡ (t.unsolicited_frames + c'.unsolicited_frames) % 2 ^ 64
  pub errors :
      (c.total_errors + s.total_errors) % 2 ^ 64 ≡ (t.total_errors + c'.total_errors) % 2 ^ 64

land-Lands : (k : Counter) (s t : CounterShard) → Lands (land k s t).0 (land k s t).1 s t
unfolding land
land-Lands active s t = record {
  sents = omega arith;
  recvs = omega arith;
  bytes_out = omega arith;
  bytes_in = omega arith;
  again = omega arith;
  skips = omega arith;
  errors = omega arith;
}
land-Lands established s t = record {
  sents = omega arith;
  recvs = omega arith;
  bytes_out = omega arith;
  bytes_in = omega arith;
  again = omega arith;
  skips = omega arith;
  errors = omega arith;
}
land-Lands failures s t = record {
  sents = omega arith;
  recvs = omega arith;
  bytes_out = omega arith;
  bytes_in = omega arith;
  again = omega arith;
  skips = omega arith;
  errors = omega arith;
}
land-Lands again s t = record {
  sents = omega arith;
  recvs = omega arith;
  bytes_out = omega arith;
  bytes_in = omega arith;
  again = omega arith;
  skips = omega arith;
  errors = omega arith;
}
land-Lands sents s t = record {
  sents = omega arith;
  recvs = omega arith;
  bytes_out = omega arith;
  bytes_in = omega arith;
  again = omega arith;
  skips = omega arith;
  errors = omega arith;
}
land-Lands recvs s t = record {
  sents = omega arith;
  recvs = omega arith;
  bytes_out = omega arith;
  bytes_in = omega arith;
  again = omega arith;
  skips = omega arith;
  errors = omega arith;
}
land-Lands bytes_out s t = record {
  sents = omega arith;
  recvs = omega arith;
  bytes_out = omega arith;
  bytes_in = omega arith;
  again = omega arith;
  skips = omega arith;
  errors = omega arith;
}
land-Lands bytes_in s t = record {
  sents = omega arith;
  recvs = omega arith;
  bytes_out = omega arith;
  bytes_in = omega arith;
  again = omega arith;
  skips = omega arith;
  errors = omega arith;
}
land-Lands errors s t = record {
  sents = omega arith;
  recvs = omega arith;
  bytes_out = omega arith;
  bytes_in = omega arith;
  again = omega arith;
  skips = omega arith;
  errors = omega arith;
}
land-Lands skips s t = record {
  sents = omega arith;
  recvs = omega arith;
  bytes_out = omega arith;
  bytes_in = omega arith;
  again = omega arith;
  skips = omega arith;
  errors = omega arith;
}

-- Every counter of the live shards, added up with what is outstanding, is what the workers counted.
pub record Balanced {L I : Type 0} (s : Running L I) : Type 0 where
  pub sents : Even (λ c. c.messages_sent) (λ w. w.messages_sent) s
  pub recvs : Even (λ c. c.messages_received) (λ w. w.messages_recv) s
  pub bytes_out : Even (λ c. c.bytes_sent) (λ w. w.bytes_sent) s
  pub bytes_in : Even (λ c. c.bytes_received) (λ w. w.bytes_recv) s
  pub again : Even (λ c. c.reconnects) (λ w. w.reconnects) s
  pub skips : Even (λ c. c.unsolicited_frames) (λ w. w.unsolicited_frames) s
  pub errors : Even (λ c. c.total_errors) (λ w. error_sum w.errors) s

module _ {L I : Type 0} where
  landed-Balanced :
      (i j : ℕ) (s : Running L I) (c t : CounterShard) (k : Counter)
      → get_elem? s.shards j ≡ some c
      → get_elem? s.outstanding i ≡ some (j, t)
      → Balanced s
      → Balanced (landed i j (land k c t) s)
  landed-Balanced i j s c t k at_shard at_call h =
      let all = land-Lands k c t in
      let put = λ (fc : CounterShard → ℕ) (fw : WorkerMetrics I → ℕ).
        landed-Even fc fw i j s c t (land k c t).0 (land k c t).1 at_shard at_call in
      record {
        sents = put (λ c. c.messages_sent) (λ w. w.messages_sent) all.sents h.sents;
        recvs = put (λ c. c.messages_received) (λ w. w.messages_recv) all.recvs h.recvs;
        bytes_out = put (λ c. c.bytes_sent) (λ w. w.bytes_sent) all.bytes_out h.bytes_out;
        bytes_in = put (λ c. c.bytes_received) (λ w. w.bytes_recv) all.bytes_in h.bytes_in;
        again = put (λ c. c.reconnects) (λ w. w.reconnects) all.again h.again;
        skips = put (λ c. c.unsolicited_frames) (λ w. w.unsolicited_frames) all.skips h.skips;
        errors = put (λ c. c.total_errors) (λ w. error_sum w.errors) all.errors h.errors;
      }

  land_on-Balanced :
      (i j : ℕ) (s : Running L I) (k : Counter) (t : CounterShard) (found : Option CounterShard)
      → get_elem? s.shards j ≡ found
      → get_elem? s.outstanding i ≡ some (j, t)
      → Balanced s
      → Balanced (land_on i k j t found s)
  unfolding land_on
  land_on-Balanced i j s k t none at_shard at_call h = h
  land_on-Balanced i j s k t (some c) at_shard at_call h =
      landed-Balanced i j s c t k at_shard at_call h

  land_one-Balanced :
      (i : ℕ) (s : Running L I) (k : Counter) (found : Option (ℕ × CounterShard))
      → get_elem? s.outstanding i ≡ found
      → Balanced s
      → Balanced (land_one i k found s)
  unfolding land_one
  land_one-Balanced i s k none at_call h = h
  land_one-Balanced i s k (some (j, t)) at_call h =
      land_on-Balanced i j s k t (get_elem? s.shards j) refl at_call h

module _ {L I : Type 0} (recorders : Recorders L I) where
  recorded-Balanced :
      (i j : ℕ) (s : Running L I) (w : WorkerMetrics I) (r' : Recording L I)
      → get_elem? s.workers i ≡ some w
      → Alike (record { worker = w; counters = empty_shard; latency = s.latency }) r'
      → Balanced s
      → Balanced (recorded_by recorders i j r' s)
  recorded-Balanced i j s w r' at_worker alike h =
      let put = λ (fc : CounterShard → ℕ) (fw : WorkerMetrics I → ℕ).
        called-Even fc fw recorders i j s w r' at_worker in
      record {
        sents =
            put (λ c. c.messages_sent) (λ w. w.messages_sent) (omega (arith, alike.sents)) h.sents;
        recvs =
            put (λ c. c.messages_received) (λ w. w.messages_recv) (omega (arith, alike.recvs))
              h.recvs;
        bytes_out =
            put (λ c. c.bytes_sent) (λ w. w.bytes_sent) (omega (arith, alike.bytes_out))
              h.bytes_out;
        bytes_in =
            put (λ c. c.bytes_received) (λ w. w.bytes_recv) (omega (arith, alike.bytes_in))
              h.bytes_in;
        again = put (λ c. c.reconnects) (λ w. w.reconnects) (omega (arith, alike.again)) h.again;
        skips =
            put (λ c. c.unsolicited_frames) (λ w. w.unsolicited_frames) (omega (arith, alike.skips))
              h.skips;
        errors =
            put (λ c. c.total_errors) (λ w. error_sum w.errors) (omega (arith, alike.errors))
              h.errors;
      }

  with_worker-Balanced :
      (i : ℕ) (e : MethodCall) (found : Option (WorkerMetrics I)) (s : Running L I)
      → get_elem? s.workers i ≡ found
      → Balanced s
      → Balanced (with_worker recorders i e found s)
  unfolding with_worker
  with_worker-Balanced i e none s at_worker h = h
  with_worker-Balanced i e (some w) s at_worker h =
      recorded-Balanced i (w.shard % length s.shards) s w _ at_worker
        (event-Alike recorders e
          (record { worker = w; counters = empty_shard; latency = s.latency }))
        h

  step-Balanced :
      (step : Step) (s : Running L I) → Balanced s → Balanced (run_step recorders step s)
  unfolding run_step
  step-Balanced (calls i e) s h = with_worker-Balanced i e (get_elem? s.workers i) s refl h
  step-Balanced (lands i k) s h = land_one-Balanced i s k (get_elem? s.outstanding i) refl h

  pub steps-Balanced :
      (steps : List Step) (s : Running L I) → Balanced s → Balanced (run_steps recorders steps s)
  unfolding run_steps
  steps-Balanced [] s h = h
  steps-Balanced (step ∷ steps) s h =
      steps-Balanced steps (run_step recorders step s) (step-Balanced step s h)
