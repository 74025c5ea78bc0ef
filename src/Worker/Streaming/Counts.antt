-- ===== src/Worker/Streaming/Counts.antt =====
-- worker.rs: the steps of a streaming session that are counted.
use wsblast.Common.{ℕ, ◌+◌, ◌%◌, ◌^◌, ◌≡◌, refl, Option, none, some, [], ◌∷◌, arith, length-append}
use wsblast.SocketIo.Frame.{Frame}
use wsblast.Metrics.{Recorders, ChaosSummary, add64, attempt, ErrorCategory}
use wsblast.Metrics.Methods.{
  counted_chaos, record_error, record_round_trip, record_message_sent, record_message_recv,
  record_chaos_delayed, record_chaos_dropped, record_chaos_corrupted, record_chaos_read_pause,
  record_chaos_close,
}
use wsblast.Worker.Echo.{SessionEnd, goes_on, exits}
use wsblast.Worker.Streaming.{Streaming, puts, counts, next_seq}
use wsblast.Worker.Streaming.Ledger.{dropped_in, injects, counted, counted_none, Kept}
use wsblast.Worker.Streaming.Steps.{alike-Kept, chaos-Kept, injects-counted_chaos}

module _ {L I : Type 0} (recorders : Recorders L I) where
  pub error-Kept :
      (category : ErrorCategory) (m : ℕ) (s : Streaming L I) (end : SessionEnd)
      → Kept 0 0 m s (counts (record_error recorders category attempt) s, exits end)
  unfolding Kept record_error
  error-Kept category m s end = (
    0,
    0,
    0,
    1,
    0,
    record {
      sents = omega arith;
      drops = omega (arith, counted_none (injects s.recording.worker.chaos));
      same_chaos = refl;
      seqs = omega arith;
      recvs = omega arith;
      errors = omega arith;
      actives = refl;
      frames = omega arith;
      ticks_ge = omega arith;
      skips_ge = omega arith;
      listens_ge = omega arith;
      ends_ge = omega arith;
    },
  )

  -- A message that is written takes the next number.
  pub written-Kept :
      (frame : Frame) (bytes : ℕ) (s : Streaming L I)
      → Kept 1 0 0 s
          (next_seq (counts (record_message_sent recorders bytes) (puts (frame ∷ []) s)), goes_on)
  unfolding Kept record_message_sent
  written-Kept frame bytes s = (
    1,
    0,
    0,
    0,
    0,
    record {
      sents = omega arith;
      drops = omega (arith, counted_none (injects s.recording.worker.chaos));
      same_chaos = refl;
      seqs = omega arith;
      recvs = omega arith;
      errors = omega arith;
      actives = refl;
      frames = length-append s.outgoing (frame ∷ []);
      ticks_ge = omega arith;
      skips_ge = omega arith;
      listens_ge = omega arith;
      ends_ge = omega arith;
    },
  )

  dropped_once :
      (o : Option ChaosSummary)
      → dropped_in (counted_chaos (λ x. record x { dropped = add64 x.dropped 1 }) o) % 2 ^ 64
        ≡ (dropped_in o + counted (injects o) 1) % 2 ^ 64
  dropped_once none = refl
  dropped_once (some summary) = omega arith

  -- A send that chaos drops takes the next number, too.
  pub dropped-Kept :
      (s : Streaming L I)
      → Kept 1 1 0 s (next_seq (counts (record_chaos_dropped recorders) s), goes_on)
  unfolding Kept record_chaos_dropped
  dropped-Kept s = (
    0,
    1,
    0,
    0,
    0,
    record {
      sents = omega arith;
      drops = dropped_once s.recording.worker.chaos;
      same_chaos =
          injects-counted_chaos (λ x. record x { dropped = add64 x.dropped 1 })
            s.recording.worker.chaos;
      seqs = omega arith;
      recvs = omega arith;
      errors = omega arith;
      actives = refl;
      frames = omega arith;
      ticks_ge = omega arith;
      skips_ge = omega arith;
      listens_ge = omega arith;
      ends_ge = omega arith;
    },
  )

  pub read-Kept :
      (bytes : ℕ) (s : Streaming L I)
      → Kept 0 0 1 s (counts (record_message_recv recorders bytes none) s, goes_on)
  unfolding Kept record_message_recv record_round_trip
  read-Kept bytes s = (
    0,
    0,
    1,
    0,
    0,
    record {
      sents = omega arith;
      drops = omega (arith, counted_none (injects s.recording.worker.chaos));
      same_chaos = refl;
      seqs = omega arith;
      recvs = omega arith;
      errors = omega arith;
      actives = refl;
      frames = omega arith;
      ticks_ge = omega arith;
      skips_ge = omega arith;
      listens_ge = omega arith;
      ends_ge = omega arith;
    },
  )

  pub delayed-Kept :
      (s : Streaming L I) → Kept 0 0 0 s (counts (record_chaos_delayed recorders) s, goes_on)
  unfolding record_chaos_delayed
  delayed-Kept s = chaos-Kept recorders _ s _ (λ x. refl) refl

  pub corrupted-Kept :
      (s : Streaming L I) → Kept 0 0 0 s (counts (record_chaos_corrupted recorders) s, goes_on)
  unfolding record_chaos_corrupted
  corrupted-Kept s = chaos-Kept recorders _ s _ (λ x. refl) refl

  pub closed-Kept :
      (s : Streaming L I) → Kept 0 0 0 s (counts (record_chaos_close recorders) s, goes_on)
  unfolding record_chaos_close
  closed-Kept s = chaos-Kept recorders _ s _ (λ x. refl) refl

  pub paused-Kept :
      (s : Streaming L I) → Kept 0 0 0 s (counts (record_chaos_read_pause recorders) s, goes_on)
  unfolding record_chaos_read_pause
  paused-Kept s = chaos-Kept recorders _ s _ (λ x. refl) refl

  pub resumed-Kept :
      (m : ℕ) (o : Option ℕ) (s : Streaming L I)
      → Kept 0 0 m s (record s { read_resume = o }, goes_on)
  resumed-Kept m o s =
      alike-Kept m 0 s (record s { read_resume = o }) goes_on
        (record {
          sents = refl;
          drops = refl;
          same_chaos = refl;
          seqs = refl;
          recvs = refl;
          errors = refl;
          actives = refl;
        })
        (omega arith) (omega arith)
