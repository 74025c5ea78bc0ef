-- ===== src/Metrics/Machines.antt =====
-- metrics.rs: the totals of two machines are those of one with the workers of both.
use wsblast.Common.{ℕ, ◌≡◌, refl, sym, ap, subst, some, bind_cases, List, [], ◌∷◌, ◌++◌, if_intro}
use wsblast.Metrics.Totals.{
  Histograms, MetricsTotals, is_absorbed, new_totals, add_recorder, add_worker_counts,
}
use wsblast.Metrics.Merge.{Reported, add_worker, add_workers, add_actions, add_totals}
use wsblast.Metrics.Sums.{
  tallies_of, worker_tallies, plus, zero_tallies, SameTallies, SameTallies-trans, SameTallies-sym,
  SameTallies-refl, plus_moved, plus_same, plus_zero, plus_nothing, workers_tallies,
}

some_value : {A : Type 0} {a b : A} → some a ≡ some b → a ≡ b
some_value e = cc

module _ {H L : Type 0} (hdr : Histograms H L) where
  tallies_of-add_recorder :
      (address : ℕ) (latency : L) (t : MetricsTotals H)
      → tallies_of (add_recorder hdr address latency t) ≡ tallies_of t
  unfolding add_recorder tallies_of
  tallies_of-add_recorder address latency t =
      if_intro (λ (u : MetricsTotals H). tallies_of u ≡ tallies_of t)
        (is_absorbed address t.absorbed) _ _ (λ e. refl) (λ e. refl)

  tallies_of-new_totals :
      {n : MetricsTotals H} → new_totals hdr ≡ some n → tallies_of n ≡ zero_tallies
  unfolding new_totals tallies_of zero_tallies
  tallies_of-new_totals e = bind_cases hdr.new _ e λ handshake _ e1.
      bind_cases hdr.new _ e1
        λ rtt _ e2. bind_cases hdr.new _ e2 λ response _ e3. sym (ap tallies_of (some_value e3))

  tallies_of-add_totals :
      (t other : MetricsTotals H) {u : MetricsTotals H}
      → add_totals hdr t other ≡ some u
      → tallies_of u ≡ plus (tallies_of t) (tallies_of other)
  unfolding add_totals tallies_of plus
  tallies_of-add_totals t other {u} e =
      bind_cases (hdr.add t.handshake other.handshake) _ e λ handshake _ e1.
        bind_cases (hdr.add t.rtt other.rtt) _ e1 λ rtt _ e2.
          bind_cases (hdr.add t.response other.response) _ e2 λ response _ e3.
            bind_cases (add_actions hdr other.actions t.actions) _ e3
              λ actions _ e4. sym (ap tallies_of (some_value e4))

  module _ {I : Type 0} where
    tallies_of-add_worker :
        (w : Reported L I) (t : MetricsTotals H)
        → tallies_of (add_worker hdr w t) ≡ plus (tallies_of t) (worker_tallies w.metrics)
    unfolding add_worker add_worker_counts tallies_of plus worker_tallies
    tallies_of-add_worker w t =
        ap (λ s. plus s (worker_tallies w.metrics)) (tallies_of-add_recorder w.address w.latency t)

    add_workers-SameTallies :
        (workers : List (Reported L I)) (t : MetricsTotals H)
        → SameTallies
            (tallies_of (add_workers hdr workers t))
            (plus (tallies_of t) (workers_tallies workers))
    unfolding add_workers workers_tallies
    add_workers-SameTallies [] t = plus_nothing (tallies_of t)
    add_workers-SameTallies (w ∷ workers) t =
        SameTallies-trans (add_workers-SameTallies workers (add_worker hdr w t)) (
          subst
            (λ s.
              SameTallies (plus s (workers_tallies workers))
                (plus (tallies_of t) (plus (worker_tallies w.metrics) (workers_tallies workers))))
            (sym (tallies_of-add_worker w t))
            (plus_moved (tallies_of t) (worker_tallies w.metrics) (workers_tallies workers)))

    workers_tallies-append :
        (xs ys : List (Reported L I))
        → SameTallies (workers_tallies (xs ++ ys)) (plus (workers_tallies xs) (workers_tallies ys))
    unfolding workers_tallies
    workers_tallies-append [] ys = SameTallies-sym (plus_zero (workers_tallies ys))
    workers_tallies-append (x ∷ xs) ys =
        SameTallies-trans
          (plus_same (SameTallies-refl (worker_tallies x.metrics)) (workers_tallies-append xs ys))
          (SameTallies-sym
            (plus_moved (worker_tallies x.metrics) (workers_tallies xs) (workers_tallies ys)))

    from_new :
        (workers : List (Reported L I)) {n : MetricsTotals H}
        → new_totals hdr ≡ some n
        → SameTallies (tallies_of (add_workers hdr workers n)) (workers_tallies workers)
    from_new workers {n} e = SameTallies-trans (add_workers-SameTallies workers n) (
        subst (λ s. SameTallies (plus s (workers_tallies workers)) (workers_tallies workers))
          (sym (tallies_of-new_totals e)) (plus_zero (workers_tallies workers)))

    -- Where the histograms can be added, the totals of two machines have, added up, the counters and
    -- the counts of every error category that one machine with the workers of both has.
    pub add_totals-add_workers :
        (xs ys : List (Reported L I)) {n t : MetricsTotals H}
        → new_totals hdr ≡ some n
        → add_totals hdr (add_workers hdr xs n) (add_workers hdr ys n) ≡ some t
        → SameTallies (tallies_of t) (tallies_of (add_workers hdr (xs ++ ys) n))
    add_totals-add_workers xs ys {n} {t} e h =
        subst (λ s. SameTallies s (tallies_of (add_workers hdr (xs ++ ys) n)))
          (sym (tallies_of-add_totals (add_workers hdr xs n) (add_workers hdr ys n) h))
          (SameTallies-trans (plus_same (from_new xs e) (from_new ys e)) (
            SameTallies-trans (SameTallies-sym (workers_tallies-append xs ys))
              (SameTallies-sym (from_new (xs ++ ys) e))))
