-- ===== src/Worker/Lifecycle.antt =====
-- worker.rs: the life of a worker, from its first handshake to the end of the run. The request of
-- the handshake is built before, and an echo session stands for the modes.
use wsblast.Common.{
  ℕ, Bool, true, false, not, ◌&&◌, ◌||◌, Option, none, some, List, [], ◌∷◌, if◌then◌else◌,
}
use wsblast.Metrics.{ErrorCategory, timeout, Errors, Recorders, Recording}
use wsblast.Metrics.Methods.{
  record_first_handshake, record_reconnect, record_connection_failed, record_connection_closed,
}
use wsblast.Worker.{connecting, TungsteniteError, categorize_session_error}
use wsblast.Worker.Schedule.{ReconnectBackoff, new_backoff, next_delay, new_schedule}
use wsblast.Worker.Echo.{finished, lost, Pass, EchoConfig, Session, Exit, goes_on, exits}
use wsblast.Worker.Loop.{echo_run}

-- What one handshake attempt comes to, with its duration where it succeeds.
pub data Connected : Type 0 where
  cancelled_first : Connected
  opened : ℕ → Connected
  cannot_connect : ErrorCategory → Connected
  connect_failed : TungsteniteError → Connected
  connect_timed_out : Connected

-- One round of the loop of `run`: the handshake, the start and the passes of its session, and whether the run is
-- cancelled after it, or during the wait for the next one.
pub record Attempt : Type 0 where
  pub connected : Connected
  pub started_at : ℕ
  pub passes : List Pass
  pub cancelled_after : Bool
  pub cancelled_waiting : Bool

pub data Handshake : Type 0 where
  is_open has_failed stops : Handshake

-- The worker with its reconnect state, and the waits that it took so far.
pub record Life (L I : Type 0) : Type 0 where
  pub recording : Recording L I
  pub connected_before : Bool
  pub backoff : ReconnectBackoff
  pub waits : List ℕ

pub data LifeStage : Type 0 where
  in_session between done : LifeStage

abbrev is_paced : Option ℕ → Bool
is_paced none = false
is_paced (some period) = true

abbrev pub is_empty_errors : Errors → Bool
is_empty_errors [] = true
is_empty_errors (e ∷ errors) = false

module _ {L I : Type 0} (recorders : Recorders L I) where
  abbrev pub without_action : Recording L I → Recording L I
  without_action r = record r { worker = record (r.worker) { current_action = none } }

  abbrev interrupted_first : Bool → Recording L I → Recording L I
  interrupted_first connected_before r =
      if not connected_before && is_empty_errors r.worker.errors
      then record r { worker = record (r.worker) { interrupted = true } }
      else r

  unfoldable pub shake : Bool → Connected → Recording L I → Recording L I × Handshake
  unfolding record_first_handshake record_reconnect record_connection_failed
      categorize_session_error
  shake connected_before cancelled_first r = (interrupted_first connected_before r, stops)
  shake connected_before (opened duration) r = (
    if connected_before
        then record_reconnect recorders duration r
        else record_first_handshake recorders duration r,
    is_open,
  )
  shake connected_before (cannot_connect category) r =
      (record_connection_failed recorders category r, stops)
  shake connected_before (connect_failed e) r =
      (record_connection_failed recorders (categorize_session_error e connecting) r, has_failed)
  shake connected_before connect_timed_out r =
      (record_connection_failed recorders timeout r, has_failed)

  unfoldable pub handshake : Bool → Connected → Recording L I → Recording L I × Handshake
  unfolding shake
  handshake connected_before connected r = shake connected_before connected (without_action r)

  -- The wait before the next attempt, where there is one.
  unfoldable pub wait_to_reconnect : Bool → Attempt → Life L I → Life L I × LifeStage
  unfolding next_delay
  wait_to_reconnect no_reconnect a life =
      if no_reconnect || a.cancelled_after
      then (life, done)
      else let (delay, backoff) = next_delay life.backoff in
        (
          record life { backoff = backoff; waits = delay ∷ life.waits },
          if a.cancelled_waiting then done else between,
        )

  module _ (c : EchoConfig) (period : Option ℕ) (no_reconnect : Bool) where
    unfoldable pub new_session : ℕ → Recording L I → Session L I
    unfolding new_schedule
    new_session now r = record {
      recording = record r {
        worker = record (r.worker) { interval_uses_response = is_paced period && not c.thinks };
      };
      schedule = new_schedule period now;
      seq = 0;
      outgoing = [];
    }

    unfoldable pub after_session : Attempt → Life L I → Session L I × Exit → Life L I × LifeStage
    unfolding record_connection_closed wait_to_reconnect
    after_session a life (s, goes_on) = (record life { recording = s.recording }, in_session)
    after_session a life (s, exits finished) =
        (record life { recording = record_connection_closed recorders s.recording }, done)
    after_session a life (s, exits lost) =
        wait_to_reconnect no_reconnect a
          (record life { recording = record_connection_closed recorders s.recording })

    unfoldable pub after_handshake :
        Attempt → Life L I → Recording L I × Handshake → Life L I × LifeStage
    unfolding after_session new_session
    after_handshake a life (r, is_open) =
        after_session a
          (record life { recording = r; connected_before = true; backoff = new_backoff })
          (echo_run recorders c a.passes (new_session a.started_at r))
    after_handshake a life (r, has_failed) =
        wait_to_reconnect no_reconnect a (record life { recording = r })
    after_handshake a life (r, stops) = (record life { recording = r }, done)

    -- One round of the loop.
    unfoldable pub attempt_once : Attempt → Life L I → Life L I × LifeStage
    unfolding handshake after_handshake
    attempt_once a life =
        after_handshake a life (handshake life.connected_before a.connected life.recording)

    abbrev pub goes_to :
        (Life L I → Life L I × LifeStage) → Life L I × LifeStage → Life L I × LifeStage
    goes_to rest (life, in_session) = (life, in_session)
    goes_to rest (life, between) = rest life
    goes_to rest (life, done) = (life, done)

    unfoldable pub run_worker : List Attempt → Life L I → Life L I × LifeStage
    unfolding attempt_once
    run_worker [] life = (life, between)
    run_worker (a ∷ attempts) life =
        goes_to (λ next. run_worker attempts next) (attempt_once a life)
