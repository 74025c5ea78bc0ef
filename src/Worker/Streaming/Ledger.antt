-- ===== src/Worker/Streaming/Ledger.antt =====
-- worker.rs: what a streaming session counts and writes.
use wsblast.Common.{
  ℕ, suc, ◌+◌, ◌%◌, ◌^◌, ◌≤◌, ◌≡◌, refl, ◌∙◌, Bool, true, false, Option, none, some, subst, List,
  [], ◌∷◌, if◌then◌else◌, arith, length,
}
use wsblast.Metrics.{ChaosSummary}
use wsblast.Worker.Echo.{Exit, goes_on}
use wsblast.Worker.Replies.{left_open}
use wsblast.Worker.Streaming.{StreamEvent, ticks, listens, Streaming}

-- The ticks among the events, and the other events.
unfoldable pub ticks_in : List StreamEvent → ℕ
ticks_in [] = 0
ticks_in (ticks t ∷ events) = suc (ticks_in events)
ticks_in (listens e ∷ events) = ticks_in events

unfoldable pub listens_in : List StreamEvent → ℕ
listens_in [] = 0
listens_in (ticks t ∷ events) = listens_in events
listens_in (listens e ∷ events) = suc (listens_in events)

-- The ticks at which chaos drops the send.
unfoldable pub skips_in : List StreamEvent → ℕ
skips_in [] = 0
skips_in (ticks t ∷ events) = (if t.plan.skips then 1 else 0) + skips_in events
skips_in (listens e ∷ events) = skips_in events

abbrev pub dropped_in : Option ChaosSummary → ℕ
dropped_in none = 0
dropped_in (some summary) = summary.dropped

-- Whether the run injects faults.
abbrev pub injects : Option ChaosSummary → Bool
injects none = false
injects (some summary) = true

-- Drops are counted in a run that injects faults.
abbrev pub counted : Bool → ℕ → ℕ
counted true d = d
counted false d = 0

counted_add : (b : Bool) (x y : ℕ) → counted b (x + y) ≡ counted b x + counted b y
counted_add true x y = refl
counted_add false x y = refl

-- What a session adds in `n` ticks, of which `q` are dropped, and `m` other events: `a` messages written, `d` sends dropped by
-- chaos, `b` messages read, `e` errors and `k` frames of the protocol's own.
pub record Ledger {L I : Type 0} (n q m : ℕ) (s : Streaming L I) (r : Streaming L I × Exit)
    (a d b e k : ℕ) : Type 0 where
  pub sents :
      r.0.recording.worker.messages_sent % 2 ^ 64 ≡ (s.recording.worker.messages_sent + a) % 2 ^ 64
  pub drops :
      dropped_in r.0.recording.worker.chaos % 2 ^ 64
      ≡ (dropped_in s.recording.worker.chaos + counted (injects s.recording.worker.chaos) d)
        % 2 ^ 64
  pub same_chaos : injects r.0.recording.worker.chaos ≡ injects s.recording.worker.chaos
  pub seqs : r.0.seq % 2 ^ 64 ≡ (s.seq + (a + d)) % 2 ^ 64
  pub recvs :
      r.0.recording.worker.messages_recv % 2 ^ 64 ≡ (s.recording.worker.messages_recv + b) % 2 ^ 64
  pub errors :
      r.0.recording.counters.total_errors % 2 ^ 64
      ≡ (s.recording.counters.total_errors + e) % 2 ^ 64
  pub actives : r.0.recording.counters.active_connections ≡ s.recording.counters.active_connections
  pub frames : length r.0.outgoing ≡ length s.outgoing + (a + k)
  pub ticks_ge : a + d ≤ n
  pub skips_ge : d ≤ q
  pub listens_ge : b + k ≤ m + left_open r.1
  pub ends_ge : e ≤ left_open r.1

unfoldable pub Kept : {L I : Type 0} → ℕ → ℕ → ℕ → Streaming L I → Streaming L I × Exit → Type 0
Kept n q m s r = (a : ℕ) × (d : ℕ) × (b : ℕ) × (e : ℕ) × (k : ℕ) × Ledger n q m s r a d b e k

module _ {L I : Type 0} where
  pub then-Kept :
      (n q m n' q' m' : ℕ) (s t : Streaming L I) (r : Streaming L I × Exit)
      → Kept n q m s (t, goes_on)
      → Kept n' q' m' t r
      → Kept (n + n') (q + q') (m + m') s r
  unfolding Kept
  then-Kept n q m n' q' m' s t r (a, d, b, e, k, h) (a', d', b', e', k', h') =
      let drops' =
        subst
          (λ x.
            dropped_in r.0.recording.worker.chaos % 2 ^ 64
            ≡ (dropped_in t.recording.worker.chaos + counted x d') % 2 ^ 64)
          h.same_chaos h'.drops in
      (
        a + a',
        d + d',
        b + b',
        e + e',
        k + k',
        record {
          sents = omega (arith, h.sents, h'.sents);
          drops =
              omega (arith, h.drops, drops', counted_add (injects s.recording.worker.chaos) d d');
          same_chaos = h'.same_chaos ∙ h.same_chaos;
          seqs = omega (arith, h.seqs, h'.seqs);
          recvs = omega (arith, h.recvs, h'.recvs);
          errors = omega (arith, h.errors, h'.errors);
          actives = h'.actives ∙ h.actives;
          frames = omega (arith, h.frames, h'.frames);
          ticks_ge = omega (arith, h.ticks_ge, h'.ticks_ge);
          skips_ge = omega (arith, h.skips_ge, h'.skips_ge);
          listens_ge = omega (arith, h.listens_ge, h'.listens_ge);
          ends_ge = omega (arith, h.ends_ge, h'.ends_ge);
        },
      )

  pub more-Kept :
      {n q m n' q' m' : ℕ} (s : Streaming L I) (r : Streaming L I × Exit)
      → n ≤ n'
      → q ≤ q'
      → m ≤ m'
      → Kept n q m s r
      → Kept n' q' m' s r
  unfolding Kept
  more-Kept s r ticks_le skips_le listens_le (a, d, b, e, k, h) = (
    a,
    d,
    b,
    e,
    k,
    record {
      sents = h.sents;
      drops = h.drops;
      same_chaos = h.same_chaos;
      seqs = h.seqs;
      recvs = h.recvs;
      errors = h.errors;
      actives = h.actives;
      frames = h.frames;
      ticks_ge = omega (arith, h.ticks_ge, ticks_le);
      skips_ge = omega (arith, h.skips_ge, skips_le);
      listens_ge = omega (arith, h.listens_ge, listens_le);
      ends_ge = h.ends_ge;
    },
  )

pub counted_none : (b : Bool) → counted b 0 ≡ 0
counted_none true = refl
counted_none false = refl
