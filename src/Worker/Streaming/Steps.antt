-- ===== src/Worker/Streaming/Steps.antt =====
-- worker.rs: what one step of a streaming session adds to its counts.
use wsblast.Common.{
  ℕ, ◌+◌, ◌≤◌, ◌≡◌, refl, sym, Option, none, some, subst, [], ◌∷◌, arith, length, length-append,
}
use wsblast.SocketIo.Frame.{Frame, close}
use wsblast.Metrics.{Recorders, ChaosSummary}
use wsblast.Metrics.Methods.{counted_chaos, with_chaos}
use wsblast.Worker.Echo.{finished, Exit, goes_on, exits}
use wsblast.Worker.Replies.{left_open}
use wsblast.Worker.Streaming.{Streaming, puts, counts, breaks_off}
use wsblast.Worker.Streaming.Ledger.{dropped_in, injects, counted_none, Kept}

module _ (f : ChaosSummary → ChaosSummary) where
  pub injects-counted_chaos : (o : Option ChaosSummary) → injects (counted_chaos f o) ≡ injects o
  injects-counted_chaos none = refl
  injects-counted_chaos (some summary) = refl

  -- A count of chaos that leaves the drops.
  dropped_in-counted_chaos :
      ((summary : ChaosSummary) → (f summary).dropped ≡ summary.dropped)
      → (o : Option ChaosSummary) → dropped_in (counted_chaos f o) ≡ dropped_in o
  dropped_in-counted_chaos h none = refl
  dropped_in-counted_chaos h (some summary) = h summary

module _ {L I : Type 0} where
  -- `t` has the counts of `s`.
  pub record Alike (s t : Streaming L I) : Type 0 where
    pub sents : t.recording.worker.messages_sent ≡ s.recording.worker.messages_sent
    pub drops : dropped_in t.recording.worker.chaos ≡ dropped_in s.recording.worker.chaos
    pub same_chaos : injects t.recording.worker.chaos ≡ injects s.recording.worker.chaos
    pub seqs : t.seq ≡ s.seq
    pub recvs : t.recording.worker.messages_recv ≡ s.recording.worker.messages_recv
    pub errors : t.recording.counters.total_errors ≡ s.recording.counters.total_errors
    pub actives : t.recording.counters.active_connections ≡ s.recording.counters.active_connections

  -- A step that counts nothing, and that writes `k` frames of the protocol's own.
  pub alike-Kept :
      (m k : ℕ) (s t : Streaming L I) (x : Exit)
      → Alike s t
      → length t.outgoing ≡ length s.outgoing + k
      → k ≤ m + left_open x
      → Kept 0 0 m s (t, x)
  unfolding Kept
  alike-Kept m k s t x h frames k_le = (
    0,
    0,
    0,
    0,
    k,
    record {
      sents = omega (arith, h.sents);
      drops = omega (arith, h.drops, counted_none (injects s.recording.worker.chaos));
      same_chaos = h.same_chaos;
      seqs = omega (arith, h.seqs);
      recvs = omega (arith, h.recvs);
      errors = omega (arith, h.errors);
      actives = h.actives;
      frames = omega (arith, frames);
      ticks_ge = omega arith;
      skips_ge = omega arith;
      listens_ge = omega arith;
      ends_ge = omega arith;
    },
  )

  abbrev alike : (s : Streaming L I) → Alike s s
  alike s = record {
    sents = refl;
    drops = refl;
    same_chaos = refl;
    seqs = refl;
    recvs = refl;
    errors = refl;
    actives = refl;
  }

  pub stays-Kept : (m : ℕ) (s : Streaming L I) (x : Exit) → Kept 0 0 m s (s, x)
  stays-Kept m s x = alike-Kept m 0 s s x (alike s) (omega arith) (omega arith)

  pub puts-Kept :
      (m : ℕ) (s : Streaming L I) (frame : Frame) (x : Exit)
      → 1 ≤ m + left_open x
      → Kept 0 0 m s (puts (frame ∷ []) s, x)
  puts-Kept m s frame x h =
      alike-Kept m 1 s (puts (frame ∷ []) s) x
        (record {
          sents = refl;
          drops = refl;
          same_chaos = refl;
          seqs = refl;
          recvs = refl;
          errors = refl;
          actives = refl;
        })
        (length-append s.outgoing (frame ∷ [])) h

  pub breaks_off-Kept : (m : ℕ) (s : Streaming L I) → Kept 0 0 m s (breaks_off s)
  breaks_off-Kept m s = puts-Kept m s (close none) (exits finished) (omega arith)

  -- The counts of chaos but for drops.
  pub chaos-Kept :
      (recorders : Recorders L I) (f : ChaosSummary → ChaosSummary) (s t : Streaming L I)
      → ((summary : ChaosSummary) → (f summary).dropped ≡ summary.dropped)
      → t ≡ counts (with_chaos recorders f) s
      → Kept 0 0 0 s (t, goes_on)
  chaos-Kept recorders f s t h e =
      subst (λ t. Kept 0 0 0 s (t, goes_on)) (sym e)
        (alike-Kept 0 0 s (counts (with_chaos recorders f) s) goes_on
          (record {
            sents = refl;
            drops = dropped_in-counted_chaos f h s.recording.worker.chaos;
            same_chaos = injects-counted_chaos f s.recording.worker.chaos;
            seqs = refl;
            recvs = refl;
            errors = refl;
            actives = refl;
          })
          (omega arith) (omega arith))
