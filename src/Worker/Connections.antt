-- ===== src/Worker/Connections.antt =====
-- worker.rs: the open connections of a worker.
use wsblast.Common.{
  ℕ, ◌+◌, ◌%◌, ◌^◌, ◌≡◌, refl, Bool, true, false, not, ◌&&◌, ◌||◌, Option, List, [], ◌∷◌,
  if◌then◌else◌, if_intro, arith,
}
use wsblast.Metrics.{Recorders, Recording}
use wsblast.Metrics.Methods.{
  record_handshake_latency, record_first_handshake, record_reconnect, record_error,
  record_connection_failed, record_connection_closed,
}
use wsblast.Worker.Schedule.{new_backoff, next_delay}
use wsblast.Worker.Echo.{finished, lost, EchoConfig, Session, Exit, goes_on, exits}
use wsblast.Worker.Loop.{echo_run}
use wsblast.Worker.Replies.{active_by, Accounted}
use wsblast.Worker.Accounts.{echo_run-Accounted}
use wsblast.Worker.Lifecycle.{
  Connected, cancelled_first, opened, cannot_connect, connect_failed, connect_timed_out, Attempt,
  Handshake, is_open, has_failed, stops, Life, is_empty_errors, LifeStage, in_session, between,
  done, without_action, shake, handshake, wait_to_reconnect, new_session, after_session,
  after_handshake, attempt_once, goes_to, run_worker,
}

abbrev pub open_at : LifeStage → ℕ
open_at in_session = 1
open_at between = 0
open_at done = 0

abbrev pub opened_by : Handshake → ℕ
opened_by is_open = 1
opened_by has_failed = 0
opened_by stops = 0

open_at-wait : (stopped : Bool) → open_at (if stopped then done else between) ≡ 0
open_at-wait true = refl
open_at-wait false = refl

module _ {L I : Type 0} where
  -- The open connections on the worker's shard.
  abbrev pub active_of : Recording L I → ℕ
  active_of r = r.counters.active_connections

  -- From `n` open connections on the shard, not counting the worker's.
  abbrev Counts : ℕ → Life L I × LifeStage → Type 0
  Counts n (life, stage) = active_of life.recording % 2 ^ 64 ≡ (n + open_at stage) % 2 ^ 64

module _ {L I : Type 0} (recorders : Recorders L I) where
  shake-active :
      (connected_before : Bool) (connected : Connected) (r : Recording L I)
      → let (r', h) = shake recorders connected_before connected r in
        active_of r' % 2 ^ 64 ≡ (active_of r + opened_by h) % 2 ^ 64
  unfolding shake record_first_handshake record_reconnect record_connection_failed record_error
      record_handshake_latency
  shake-active before cancelled_first r =
      if_intro (λ (r' : Recording L I). active_of r' % 2 ^ 64 ≡ (active_of r + 0) % 2 ^ 64)
        (not before && is_empty_errors r.worker.errors)
        (record r { worker = record (r.worker) { interrupted = true } }) r (λ t. omega arith)
        (λ t. omega arith)
  shake-active true (opened duration) r = omega arith
  shake-active false (opened duration) r = omega arith
  shake-active before (cannot_connect category) r = omega arith
  shake-active before (connect_failed e) r = omega arith
  shake-active before connect_timed_out r = omega arith

  wait-Counts :
      (no_reconnect : Bool) (a : Attempt) (life : Life L I) (n : ℕ)
      → active_of life.recording % 2 ^ 64 ≡ n % 2 ^ 64
      → Counts n (wait_to_reconnect recorders no_reconnect a life)
  unfolding wait_to_reconnect next_delay
  wait-Counts no_reconnect a life n h =
      if_intro (Counts n) (no_reconnect || a.cancelled_after) _ _ (λ t. omega (arith, h))
        (λ t. omega (arith, h, open_at-wait a.cancelled_waiting))

  module _ (c : EchoConfig) (period : Option ℕ) (no_reconnect : Bool) where
    session-active :
        (a : Attempt) (r : Recording L I)
        → active_by
            (echo_run recorders c a.passes
              (new_session recorders c period no_reconnect a.started_at r)).0
          ≡ active_of r
    unfolding new_session Accounted
    session-active a r =
        let (sent, replies, errors, h) =
          echo_run-Accounted recorders c a.passes
            (new_session recorders c period no_reconnect a.started_at r) in
        h.actives

    after_session-Counts :
        (a : Attempt) (life : Life L I) (r : Session L I × Exit) (n : ℕ)
        → active_by r.0 % 2 ^ 64 ≡ (n + 1) % 2 ^ 64
        → Counts n (after_session recorders c period no_reconnect a life r)
    unfolding after_session record_connection_closed
    after_session-Counts a life (s, goes_on) n h = h
    after_session-Counts a life (s, exits finished) n h = omega (arith, h)
    after_session-Counts a life (s, exits lost) n h =
        wait-Counts no_reconnect a
          (record life { recording = record_connection_closed recorders s.recording }) n
          (omega (arith, h))

    after_handshake-Counts :
        (a : Attempt) (life : Life L I) (r : Recording L I × Handshake) (n : ℕ)
        → active_of r.0 % 2 ^ 64 ≡ (n + opened_by r.1) % 2 ^ 64
        → Counts n (after_handshake recorders c period no_reconnect a life r)
    unfolding after_handshake
    after_handshake-Counts a life (r, is_open) n h =
        after_session-Counts a
          (record life { recording = r; connected_before = true; backoff = new_backoff })
          (echo_run recorders c a.passes
            (new_session recorders c period no_reconnect a.started_at r))
          n (omega (arith, h, session-active a r))
    after_handshake-Counts a life (r, has_failed) n h =
        wait-Counts no_reconnect a (record life { recording = r }) n (omega (arith, h))
    after_handshake-Counts a life (r, stops) n h = h

    attempt-Counts :
        (a : Attempt) (life : Life L I) (n : ℕ)
        → active_of life.recording % 2 ^ 64 ≡ n % 2 ^ 64
        → Counts n (attempt_once recorders c period no_reconnect a life)
    unfolding attempt_once handshake
    attempt-Counts a life n h =
        let shaken =
          shake-active life.connected_before a.connected
            (without_action recorders life.recording) in
        after_handshake-Counts a life
          (handshake recorders life.connected_before a.connected life.recording) n
          (omega (arith, h, shaken))

    goes-Counts :
        (n : ℕ) (rest : Life L I → Life L I × LifeStage) (r : Life L I × LifeStage)
        → ((next : Life L I)
            → active_of next.recording % 2 ^ 64 ≡ n % 2 ^ 64
            → Counts n (rest next))
        → Counts n r
        → Counts n (goes_to recorders c period no_reconnect rest r)
    goes-Counts n rest (life, in_session) k h = h
    goes-Counts n rest (life, between) k h = k life (omega (arith, h))
    goes-Counts n rest (life, done) k h = h

    run-Counts :
        (attempts : List Attempt) (life : Life L I) (n : ℕ)
        → active_of life.recording % 2 ^ 64 ≡ n % 2 ^ 64
        → Counts n (run_worker recorders c period no_reconnect attempts life)
    unfolding run_worker
    run-Counts [] life n h = omega (arith, h)
    run-Counts (a ∷ attempts) life n h =
        goes-Counts n (λ next. run_worker recorders c period no_reconnect attempts next)
          (attempt_once recorders c period no_reconnect a life)
          (λ next k. run-Counts attempts next n k) (attempt-Counts a life n h)

    -- Whatever handshakes and sessions a worker goes through, the live counters show its connection
    -- as open while a session runs, and not between two attempts or when it is done.
    pub active-run_worker :
        (attempts : List Attempt) (life : Life L I)
        → let (life', stage) = run_worker recorders c period no_reconnect attempts life in
          active_of life'.recording % 2 ^ 64 ≡ (active_of life.recording + open_at stage) % 2 ^ 64
    active-run_worker attempts life = run-Counts attempts life (active_of life.recording) refl
