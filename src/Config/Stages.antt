-- ===== src/Config/Stages.antt =====
-- src/config.rs: the stages of a run and the number of connections that they ask for. Durations and
-- instants are nanoseconds and are added without overflow.
pub mod Written
pub mod Ramp
use wsblast.Common.{
  ℕ, ◌+◌, ◌-◌, ◌^◌, Bool, true, false, Option, none, some, List, [], ◌∷◌, Bytes, map, ltb, ◌==◌,
  if◌then◌else◌,
}
use wsblast.Common.Results.{Result, ok, err, ◌>>=◌}
use wsblast.Common.Text.{trim, split_on, split_once, parse_unsigned}
use wsblast.Config.Durations.{DurationError, parse_human_duration}
use wsblast.Distributed.Protocol.{Share, part_of_total}

pub record Stage : Type 0 where
  pub duration : ℕ
  pub target : ℕ

pub data StageError : Type 0 where
  no_stages combines_ramps : StageError
  invalid_stage : Bytes → StageError
  invalid_stage_duration : DurationError → StageError
  zero_stage : ℕ → StageError

abbrev pub unless_blank : Bytes → List Bytes → List Bytes
unless_blank [] rest = rest
unless_blank (c ∷ cs) rest = (c ∷ cs) ∷ rest

-- `.map(str::trim).filter(|part| !part.is_empty())`
unfoldable pub stage_parts : List Bytes → List Bytes
stage_parts [] = []
stage_parts (part ∷ parts) = unless_blank (trim part) (stage_parts parts)

module _ (fractional : Bytes → ℕ → Option ℕ) where
  abbrev pub with_duration : ℕ → Result DurationError ℕ → Result StageError Stage
  with_duration target (err e) = err (invalid_stage_duration e)
  with_duration target (ok duration) = ok (record { duration = duration; target = target })

  abbrev pub with_target : Bytes → Bytes → Option ℕ → Result StageError Stage
  with_target part duration none = err (invalid_stage part)
  with_target part duration (some target) =
      with_duration target (parse_human_duration fractional (trim duration))

  -- The target is read before the duration.
  abbrev pub halves : Bytes → Option (Bytes × Bytes) → Result StageError Stage
  halves part none = err (invalid_stage part)
  halves part (some (duration, target)) =
      with_target part duration (parse_unsigned (2 ^ 64 - 1) (trim target))

  unfoldable pub parse_stage : Bytes → Result StageError Stage
  parse_stage part = halves part (split_once b':' part)

  unfoldable pub parse_stages : List Bytes → Result StageError (List Stage)
  unfolding parse_stage
  parse_stages [] = ok []
  parse_stages (part ∷ parts) = do
    stage ← parse_stage part
    stages ← parse_stages parts
    ok (stage ∷ stages)

  abbrev pub some_stages : List Stage → Result StageError (List Stage)
  some_stages [] = err no_stages
  some_stages (stage ∷ stages) = ok (stage ∷ stages)

  unfoldable pub parse_list : Bytes → Result StageError (List Stage)
  unfolding parse_stages stage_parts
  parse_list spec = parse_stages (stage_parts (split_on b',' spec)) >>= some_stages

-- `position`, from an index on.
unfoldable pub zero_from : ℕ → List Stage → Option ℕ
zero_from index [] = none
zero_from index (stage ∷ stages) =
    let later = zero_from (index + 1) stages in if stage.duration == 0 then some index else later

abbrev pub zero_error : Option ℕ → Option StageError
zero_error none = none
zero_error (some index) = some (zero_stage (index + 1))

unfoldable pub validate_stages : List Stage → ℕ → Option StageError
unfolding zero_from
validate_stages stages ramp_rate =
    if ltb 0 ramp_rate then some combines_ramps else zero_error (zero_from 0 stages)

-- The arithmetic of f64 that the code uses: `as f64` on a `usize`, `as_secs_f64`, the operations and
-- `round() as usize`.
pub record F64 : Type 1 where
  pub Number : Type 0
  pub of_usize : ℕ → Number
  pub as_secs : ℕ → Number
  pub plus : Number → Number → Number
  pub minus : Number → Number → Number
  pub times : Number → Number → Number
  pub over : Number → Number → Number
  pub rounded : Number → ℕ

module _ (f64 : F64) where
  -- The point of the line between two targets, `into` the stage.
  unfoldable pub ramp : ℕ → ℕ → ℕ → ℕ → ℕ
  ramp from target into duration =
      let progress = f64.over (f64.as_secs into) (f64.as_secs duration) in
      f64.rounded (
        f64.plus (f64.of_usize from)
          (f64.times (f64.minus (f64.of_usize target) (f64.of_usize from)) progress))

  unfoldable pub target_from : ℕ → ℕ → List Stage → ℕ → ℕ
  unfolding ramp
  target_from from stage_start [] elapsed = from
  target_from from stage_start (stage ∷ stages) elapsed =
      let stage_end = stage_start + stage.duration in
      let later = target_from stage.target stage_end stages elapsed in
      if ltb elapsed stage_end
      then ramp from stage.target (elapsed - stage_start) stage.duration
      else later

  unfoldable pub target_at : List Stage → ℕ → ℕ
  unfolding target_from
  target_at stages elapsed = target_from 0 0 stages elapsed

  abbrev pub shared_target : Option Share → ℕ → ℕ
  shared_target none target = target
  shared_target (some share) target = part_of_total share target

  unfoldable pub stage_target : Option Share → List Stage → ℕ → ℕ
  unfolding target_at
  stage_target stage_share stages elapsed = shared_target stage_share (target_at stages elapsed)
