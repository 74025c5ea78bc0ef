-- ===== src/Metrics/Arrivals.antt =====
-- metrics.rs: the arrivals of an arrival-rate run, the counts of compression, and the claims on the
-- request limit.
use wsblast.Common.{
  ℕ, zero, suc, ◌+◌, ◌^◌, ◌≤◌, ◌<◌, min, max, ◌≡◌, refl, List, [], ◌∷◌, length, ltb, if◌then◌else◌,
  arith,
}
use wsblast.Metrics.{add64}
use wsblast.Metrics.Live.{LiveMetrics, claim_request}

pub record ArrivalCounts : Type 0 where
  pub started : ℕ
  pub skipped : ℕ
  pub peak_open : ℕ
  pub interval_peaks : List ℕ

abbrev pub no_arrivals : ArrivalCounts
no_arrivals = record { started = 0; skipped = 0; peak_open = 0; interval_peaks = [] }

-- `resize(interval + 1, sessions)` where it is shorter, then the larger of the two at `interval`.
unfoldable pub observe_peak : ℕ → ℕ → List ℕ → List ℕ
observe_peak zero sessions [] = max sessions sessions ∷ []
observe_peak zero sessions (peak ∷ peaks) = max peak sessions ∷ peaks
observe_peak (suc interval) sessions [] = sessions ∷ observe_peak interval sessions []
observe_peak (suc interval) sessions (peak ∷ peaks) = peak ∷ observe_peak interval sessions peaks

unfoldable pub observe : ArrivalCounts → ℕ → ℕ → ArrivalCounts
unfolding observe_peak
observe c interval sessions = record c {
  interval_peaks = observe_peak interval sessions c.interval_peaks;
  peak_open = max c.peak_open sessions;
}

-- The observations of a run, each with its interval.
unfoldable pub observe_all : List (ℕ × ℕ) → ArrivalCounts → ArrivalCounts
unfolding observe
observe_all [] c = c
observe_all ((interval, sessions) ∷ rest) c = observe_all rest (observe c interval sessions)

-- Interval by interval, with zeros after the shorter list.
unfoldable pub add_peaks : List ℕ → List ℕ → List ℕ
add_peaks [] others = others
add_peaks (peak ∷ peaks) [] = peak ∷ peaks
add_peaks (peak ∷ peaks) (other ∷ others) = add64 peak other ∷ add_peaks peaks others

unfoldable pub highest : List ℕ → ℕ
highest [] = 0
highest (peak ∷ peaks) = max peak (highest peaks)

-- `if let Some(highest) = self.interval_peaks.iter().max()`
unfoldable pub at_most_highest : ℕ → List ℕ → ℕ
unfolding highest
at_most_highest peak_open [] = peak_open
at_most_highest peak_open (peak ∷ peaks) = min peak_open (highest (peak ∷ peaks))

unfoldable pub add_arrivals : ArrivalCounts → ArrivalCounts → ArrivalCounts
unfolding add_peaks at_most_highest
add_arrivals c other =
    let peaks = add_peaks c.interval_peaks other.interval_peaks in
    record {
      started = add64 c.started other.started;
      skipped = add64 c.skipped other.skipped;
      interval_peaks = peaks;
      peak_open = at_most_highest (add64 c.peak_open other.peak_open) peaks;
    }

highest-observe_peak :
    (interval sessions : ℕ) (peaks : List ℕ)
    → highest (observe_peak interval sessions peaks) ≡ max (highest peaks) sessions
unfolding highest observe_peak
highest-observe_peak zero sessions [] = omega arith
highest-observe_peak zero sessions (peak ∷ peaks) = omega arith
highest-observe_peak (suc interval) sessions [] =
    omega (arith, highest-observe_peak interval sessions [])
highest-observe_peak (suc interval) sessions (peak ∷ peaks) =
    omega (arith, highest-observe_peak interval sessions peaks)

peak_open-observe_all :
    (observed : List (ℕ × ℕ)) (c : ArrivalCounts)
    → c.peak_open ≡ highest c.interval_peaks
    → (observe_all observed c).peak_open ≡ highest (observe_all observed c).interval_peaks
unfolding observe_all observe
peak_open-observe_all [] c h = h
peak_open-observe_all ((interval, sessions) ∷ observed) c h =
    peak_open-observe_all observed (observe c interval sessions)
      (omega (arith, h, highest-observe_peak interval sessions c.interval_peaks))

highest-add_peaks :
    (xs ys : List ℕ)
    → highest xs + highest ys < 2 ^ 64
    → highest (add_peaks xs ys) ≤ highest xs + highest ys
unfolding highest add_peaks
highest-add_peaks [] ys h = omega arith
highest-add_peaks (x ∷ xs) [] h = omega arith
highest-add_peaks (x ∷ xs) (y ∷ ys) h = omega (arith, highest-add_peaks xs ys (omega arith))

at_most-highest :
    (peak_open : ℕ) (peaks : List ℕ)
    → highest peaks ≤ peak_open
    → (length peaks ≡ 0 → peak_open ≡ 0)
    → at_most_highest peak_open peaks ≡ highest peaks
unfolding at_most_highest highest
at_most-highest peak_open [] h k = k refl
at_most-highest peak_open (peak ∷ peaks) h k = omega (arith, h)

none_open : (xs ys : List ℕ) → length (add_peaks xs ys) ≡ 0 → (highest xs ≡ 0) × (highest ys ≡ 0)
unfolding add_peaks highest
none_open [] [] h = (refl, refl)
none_open [] (y ∷ ys) h = absurd (omega arith)
none_open (x ∷ xs) [] h = absurd (omega arith)
none_open (x ∷ xs) (y ∷ ys) h = absurd (omega arith)

-- The peak of two machines together is the highest sum of their peaks in one interval, whatever the
-- two have observed, while their peaks together stay below 2^64.
pub peak_open-add_arrivals :
    (xs ys : List (ℕ × ℕ))
    → (observe_all xs no_arrivals).peak_open + (observe_all ys no_arrivals).peak_open < 2 ^ 64
    → let c = observe_all xs no_arrivals in
      let d = observe_all ys no_arrivals in
      (add_arrivals c d).peak_open ≡ highest (add_peaks c.interval_peaks d.interval_peaks)
unfolding add_arrivals
peak_open-add_arrivals xs ys h =
    let c = observe_all xs no_arrivals in
    let d = observe_all ys no_arrivals in
    let own = peak_open-observe_all xs no_arrivals refl in
    let others = peak_open-observe_all ys no_arrivals refl in
    let sums = highest-add_peaks c.interval_peaks d.interval_peaks (omega arith) in
    at_most-highest (add64 c.peak_open d.peak_open) (add_peaks c.interval_peaks d.interval_peaks)
      (omega arith)
      (λ e. let (left, right) = none_open c.interval_peaks d.interval_peaks e in omega arith)

-- The counts that a run's connection layer kept.
pub record CompressionCounts : Type 0 where
  pub offered : ℕ
  pub negotiated : ℕ
  pub bytes_sent : ℕ
  pub wire_bytes_sent : ℕ
  pub bytes_recv : ℕ
  pub wire_bytes_recv : ℕ

unfoldable pub add_compression : CompressionCounts → CompressionCounts → CompressionCounts
add_compression c other = record {
  offered = add64 c.offered other.offered;
  negotiated = add64 c.negotiated other.negotiated;
  bytes_sent = add64 c.bytes_sent other.bytes_sent;
  wire_bytes_sent = add64 c.wire_bytes_sent other.wire_bytes_sent;
  bytes_recv = add64 c.bytes_recv other.bytes_recv;
  wire_bytes_recv = add64 c.wire_bytes_recv other.wire_bytes_recv;
}

-- How many of the next `n` claims are granted, whichever workers make them.
unfoldable pub grants : ℕ → ℕ → LiveMetrics → ℕ
unfolding claim_request
grants max zero live = 0
grants max (suc n) live =
    let (live', granted) = claim_request max live in (if granted then 1 else 0) + grants max n live'

grants_from :
    (limit n : ℕ) (live : LiveMetrics)
    → live.requests_claimed + n ≤ 2 ^ 64
    → grants limit n live + min limit live.requests_claimed ≡ min limit (live.requests_claimed + n)
unfolding grants claim_request
grants_from limit zero live h = omega arith
grants_from limit (suc zero) live h = ground arith
grants_from limit (suc (suc n)) live h =
    let next = record live { requests_claimed = add64 live.requests_claimed 1 } in
    let rest = grants_from limit (suc n) next (omega arith) in
    let one : (if ltb live.requests_claimed limit then 1 else 0) + min limit live.requests_claimed
        ≡ min limit (live.requests_claimed + 1) =
      ground arith in
    omega (arith, rest, one)

-- Of a run's claims on a request limit, as many are granted as there are, up to the limit, while
-- there are at most 2^64 of them.
pub grants-min :
    (limit n : ℕ) (live : LiveMetrics)
    → live.requests_claimed ≡ 0
    → n ≤ 2 ^ 64
    → grants limit n live ≡ min limit n
grants-min limit n live e h = omega (arith, grants_from limit n live (omega arith))
