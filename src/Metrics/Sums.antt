-- ===== src/Metrics/Sums.antt =====
-- metrics.rs: the totals of two machines are those of one with the workers of both.
use wsblast.Common.{
  ℕ, ◌+◌, ◌%◌, ◌^◌, ◌≡◌, refl, sym, ◌∙◌, List, [], ◌∷◌, ◌==◌, if◌then◌else◌, if_intro, arith,
}
use wsblast.Metrics.{ErrorCategory, Errors, WorkerMetrics, discriminant, add64, add_error}
use wsblast.Metrics.Totals.{MetricsTotals, add_errors, u64_from}
use wsblast.Metrics.Merge.{Reported}

-- The count of a category, where it may stand more than once.
unfoldable pub count_of : ErrorCategory → Errors → ℕ
count_of c [] = 0
count_of c ((category, count) ∷ errors) =
    (if discriminant category == discriminant c then count else 0) + count_of c errors

count_of-add_error :
    (c err : ErrorCategory) (n : ℕ) (errors : Errors)
    → count_of c (add_error err n errors) % 2 ^ 64
      ≡ (count_of c errors + (if discriminant err == discriminant c then n else 0)) % 2 ^ 64
unfolding count_of add_error
count_of-add_error c err n [] = ground arith
count_of-add_error c err n ((category, count) ∷ errors) =
    if_intro
      (λ (all : Errors).
        count_of c all % 2 ^ 64
        ≡ ((if discriminant category == discriminant c then count else 0)
            + count_of c errors
            + (if discriminant err == discriminant c then n else 0))
          % 2 ^ 64)
      (discriminant category == discriminant err) _ _
      (λ t.
        let same : discriminant category ≡ discriminant err = ground arith in
        rw same (ground arith))
      (λ t. omega (arith, count_of-add_error c err n errors))

count_of-add_errors :
    (c : ErrorCategory) (errors others : Errors)
    → count_of c (add_errors errors others) % 2 ^ 64
      ≡ (count_of c errors + count_of c others) % 2 ^ 64
unfolding count_of add_errors
count_of-add_errors c errors [] = omega arith
count_of-add_errors c errors ((category, count) ∷ others) = omega (
  arith,
  count_of-add_errors c (add_error category count errors) others,
  count_of-add_error c category count errors,
)

-- The counters of a worker or of totals.
pub record Tallies : Type 0 where
  pub messages_sent : ℕ
  pub messages_recv : ℕ
  pub bytes_sent : ℕ
  pub bytes_recv : ℕ
  pub reconnects : ℕ
  pub unsolicited_frames : ℕ
  pub sent_message_errors : ℕ
  pub interrupted : ℕ
  pub errors : Errors

unfoldable pub tallies_of : {H : Type 0} → MetricsTotals H → Tallies
tallies_of t = record {
  messages_sent = t.messages_sent;
  messages_recv = t.messages_recv;
  bytes_sent = t.bytes_sent;
  bytes_recv = t.bytes_recv;
  reconnects = t.reconnects;
  unsolicited_frames = t.unsolicited_frames;
  sent_message_errors = t.sent_message_errors;
  interrupted = t.interrupted;
  errors = t.errors;
}

unfoldable pub worker_tallies : {I : Type 0} → WorkerMetrics I → Tallies
worker_tallies w = record {
  messages_sent = w.messages_sent;
  messages_recv = w.messages_recv;
  bytes_sent = w.bytes_sent;
  bytes_recv = w.bytes_recv;
  reconnects = w.reconnects;
  unsolicited_frames = w.unsolicited_frames;
  sent_message_errors = w.sent_message_errors;
  interrupted = u64_from w.interrupted;
  errors = w.errors;
}

unfoldable pub plus : Tallies → Tallies → Tallies
plus a b = record {
  messages_sent = add64 a.messages_sent b.messages_sent;
  messages_recv = add64 a.messages_recv b.messages_recv;
  bytes_sent = add64 a.bytes_sent b.bytes_sent;
  bytes_recv = add64 a.bytes_recv b.bytes_recv;
  reconnects = add64 a.reconnects b.reconnects;
  unsolicited_frames = add64 a.unsolicited_frames b.unsolicited_frames;
  sent_message_errors = add64 a.sent_message_errors b.sent_message_errors;
  interrupted = add64 a.interrupted b.interrupted;
  errors = add_errors a.errors b.errors;
}

unfoldable pub zero_tallies : Tallies
zero_tallies = record {
  messages_sent = 0;
  messages_recv = 0;
  bytes_sent = 0;
  bytes_recv = 0;
  reconnects = 0;
  unsolicited_frames = 0;
  sent_message_errors = 0;
  interrupted = 0;
  errors = [];
}

-- The same 64-bit counters, and the same count of every category.
pub record SameTallies (a b : Tallies) : Type 0 where
  pub sents : a.messages_sent % 2 ^ 64 ≡ b.messages_sent % 2 ^ 64
  pub recvs : a.messages_recv % 2 ^ 64 ≡ b.messages_recv % 2 ^ 64
  pub bytes_out : a.bytes_sent % 2 ^ 64 ≡ b.bytes_sent % 2 ^ 64
  pub bytes_in : a.bytes_recv % 2 ^ 64 ≡ b.bytes_recv % 2 ^ 64
  pub again : a.reconnects % 2 ^ 64 ≡ b.reconnects % 2 ^ 64
  pub skips : a.unsolicited_frames % 2 ^ 64 ≡ b.unsolicited_frames % 2 ^ 64
  pub ends : a.sent_message_errors % 2 ^ 64 ≡ b.sent_message_errors % 2 ^ 64
  pub cuts : a.interrupted % 2 ^ 64 ≡ b.interrupted % 2 ^ 64
  pub counts : (c : ErrorCategory) → count_of c a.errors % 2 ^ 64 ≡ count_of c b.errors % 2 ^ 64

pub SameTallies-trans : {a b c : Tallies} → SameTallies a b → SameTallies b c → SameTallies a c
SameTallies-trans h k = record {
  sents = h.sents ∙ k.sents;
  recvs = h.recvs ∙ k.recvs;
  bytes_out = h.bytes_out ∙ k.bytes_out;
  bytes_in = h.bytes_in ∙ k.bytes_in;
  again = h.again ∙ k.again;
  skips = h.skips ∙ k.skips;
  ends = h.ends ∙ k.ends;
  cuts = h.cuts ∙ k.cuts;
  counts = λ c. h.counts c ∙ k.counts c;
}

pub SameTallies-sym : {a b : Tallies} → SameTallies a b → SameTallies b a
SameTallies-sym h = record {
  sents = sym h.sents;
  recvs = sym h.recvs;
  bytes_out = sym h.bytes_out;
  bytes_in = sym h.bytes_in;
  again = sym h.again;
  skips = sym h.skips;
  ends = sym h.ends;
  cuts = sym h.cuts;
  counts = λ c. sym (h.counts c);
}

pub plus_moved : (a b c : Tallies) → SameTallies (plus (plus a b) c) (plus a (plus b c))
unfolding plus
plus_moved a b c = record {
  sents = omega arith;
  recvs = omega arith;
  bytes_out = omega arith;
  bytes_in = omega arith;
  again = omega arith;
  skips = omega arith;
  ends = omega arith;
  cuts = omega arith;
  counts = λ e. omega (
    arith,
    count_of-add_errors e (add_errors a.errors b.errors) c.errors,
    count_of-add_errors e a.errors b.errors,
    count_of-add_errors e a.errors (add_errors b.errors c.errors),
    count_of-add_errors e b.errors c.errors,
  );
}

pub plus_same :
    {a a' b b' : Tallies}
    → SameTallies a a'
    → SameTallies b b'
    → SameTallies (plus a b) (plus a' b')
unfolding plus
plus_same {a} {a'} {b} {b'} h k = record {
  sents = omega (arith, h.sents, k.sents);
  recvs = omega (arith, h.recvs, k.recvs);
  bytes_out = omega (arith, h.bytes_out, k.bytes_out);
  bytes_in = omega (arith, h.bytes_in, k.bytes_in);
  again = omega (arith, h.again, k.again);
  skips = omega (arith, h.skips, k.skips);
  ends = omega (arith, h.ends, k.ends);
  cuts = omega (arith, h.cuts, k.cuts);
  counts = λ e. omega (
    arith,
    h.counts e,
    k.counts e,
    count_of-add_errors e a.errors b.errors,
    count_of-add_errors e a'.errors b'.errors,
  );
}

pub SameTallies-refl : (a : Tallies) → SameTallies a a
SameTallies-refl a = record {
  sents = refl;
  recvs = refl;
  bytes_out = refl;
  bytes_in = refl;
  again = refl;
  skips = refl;
  ends = refl;
  cuts = refl;
  counts = λ c. refl;
}

pub plus_zero : (a : Tallies) → SameTallies (plus zero_tallies a) a
unfolding plus zero_tallies count_of
plus_zero a = record {
  sents = omega arith;
  recvs = omega arith;
  bytes_out = omega arith;
  bytes_in = omega arith;
  again = omega arith;
  skips = omega arith;
  ends = omega arith;
  cuts = omega arith;
  counts = λ e. omega (arith, count_of-add_errors e [] a.errors);
}

pub plus_nothing : (a : Tallies) → SameTallies a (plus a zero_tallies)
unfolding plus zero_tallies add_errors
plus_nothing a = record {
  sents = omega arith;
  recvs = omega arith;
  bytes_out = omega arith;
  bytes_in = omega arith;
  again = omega arith;
  skips = omega arith;
  ends = omega arith;
  cuts = omega arith;
  counts = λ e. refl;
}

unfoldable pub workers_tallies : {L I : Type 0} → List (Reported L I) → Tallies
unfolding plus worker_tallies zero_tallies
workers_tallies [] = zero_tallies
workers_tallies (w ∷ workers) = plus (worker_tallies w.metrics) (workers_tallies workers)
