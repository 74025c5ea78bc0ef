-- ===== src/Config/Stages/Ramp.antt =====
-- config.rs: the connections that stages ask for over time.
use wsblast.Common.{
  ap, ◌∙◌, ◌^◌, ℕ, ◌+◌, ◌-◌, ◌<◌, ◌≤◌, ◌≡◌, refl, true, false, Option, none, some, List, [], ◌∷◌,
  ◌++◌, ltb, ◌==◌, if_intro, arith,
}
use wsblast.Config.Stages.{
  Stage, StageError, F64, ramp, zero_from, zero_error, validate_stages, target_from, target_at,
}

-- When the stages end.
unfoldable pub length_of : List Stage → ℕ
length_of [] = 0
length_of (stage ∷ stages) = stage.duration + length_of stages

-- The target of the last stage, or what was open before.
unfoldable pub last_target : ℕ → List Stage → ℕ
last_target from [] = from
last_target from (stage ∷ stages) = last_target stage.target stages

-- What is relied on of f64: nothing over a time is nothing, a number plus a product with nothing,
-- of either sign, keeps the number, and a whole number up to 2^53 is kept by `as f64` and rounding.
pub record IsF64 (f64 : F64) : Type 0 where
  pub over_zero :
      (duration : ℕ)
      → 0 < duration
      → f64.over (f64.as_secs 0) (f64.as_secs duration) ≡ f64.as_secs 0
  pub plus_zero :
      (a b : ℕ)
      → f64.plus
          (f64.of_usize b)
          (f64.times (f64.minus (f64.of_usize a) (f64.of_usize b)) (f64.as_secs 0))
        ≡ f64.of_usize b
  pub rounded_of : (a : ℕ) → a < 2 ^ 53 → f64.rounded (f64.of_usize a) ≡ a

zero_from_cons :
    (index : ℕ) (stage : Stage) (stages : List Stage)
    → zero_from index (stage ∷ stages) ≡ none
    → (0 < stage.duration) × (zero_from (index + 1) stages ≡ none)
unfolding zero_from
zero_from_cons index stage stages =
    if_intro
      (λ (o : Option ℕ). o ≡ none → (0 < stage.duration) × (zero_from (index + 1) stages ≡ none))
      (stage.duration == 0) (some index) (zero_from (index + 1) stages) (λ z e. cc)
      (λ z e. (ground arith, e))

zero_error-none : (o : Option ℕ) → zero_error o ≡ none → o ≡ none
zero_error-none none e = refl
zero_error-none (some index) e = cc

-- The checks pass only for stages that take time.
validate_stages_zero :
    (stages : List Stage) (ramp_rate : ℕ)
    → validate_stages stages ramp_rate ≡ none
    → zero_from 0 stages ≡ none
unfolding validate_stages
validate_stages_zero stages ramp_rate =
    if_intro (λ (o : Option StageError). o ≡ none → zero_from 0 stages ≡ none) (ltb 0 ramp_rate) _ _
      (λ t e. cc) (λ t e. zero_error-none (zero_from 0 stages) e)

zero_from_split :
    (index : ℕ) (front back : List Stage)
    → zero_from index (front ++ back) ≡ none
    → (j : ℕ) × (zero_from j back ≡ none)
zero_from_split index [] back h = (index, h)
zero_from_split index (stage ∷ front) back h =
    zero_from_split (index + 1) front back (zero_from_cons index stage (front ++ back) h).1

module _ (f64 : F64) (r : IsF64 f64) where
  -- The line starts at the target before the stage.
  ramp_start :
      (from target duration : ℕ)
      → 0 < duration
      → from < 2 ^ 53
      → ramp f64 from target 0 duration ≡ from
  unfolding ramp
  ramp_start from target duration positive exact =
      ap
        (λ p. f64.rounded (
          f64.plus (f64.of_usize from)
            (f64.times (f64.minus (f64.of_usize target) (f64.of_usize from)) p)))
        (r.over_zero duration positive)
      ∙ ap f64.rounded (r.plus_zero target from)
      ∙ r.rounded_of from exact

  target_from_start :
      (back : List Stage) (from start elapsed j : ℕ)
      → zero_from j back ≡ none
      → from < 2 ^ 53
      → elapsed ≡ start
      → target_from f64 from start back elapsed ≡ from
  unfolding target_from
  target_from_start [] from start elapsed j h exact e = refl
  target_from_start (stage ∷ back) from start elapsed j h exact e =
      let (positive, rest) = zero_from_cons j stage back h in
      let before : ltb elapsed (start + stage.duration) ≡ true = ground arith in
      let none_passed : elapsed - start ≡ 0 = omega arith in
      rw (before, none_passed) (ramp_start from stage.target stage.duration positive exact)

  target_from_end :
      (front back : List Stage) (from start elapsed j : ℕ)
      → zero_from j back ≡ none
      → last_target from front < 2 ^ 53
      → elapsed ≡ start + length_of front
      → target_from f64 from start (front ++ back) elapsed ≡ last_target from front
  unfolding target_from length_of last_target
  target_from_end [] back from start elapsed j h exact e =
      target_from_start back from start elapsed j h exact (omega arith)
  target_from_end (stage ∷ front) back from start elapsed j h exact e =
      let after : ltb elapsed (start + stage.duration) ≡ false = ground arith in
      rw after (
        target_from_end front back stage.target (start + stage.duration) elapsed j h exact
          (omega arith))

  target_from_late :
      (stages : List Stage) (from start elapsed : ℕ)
      → start + length_of stages ≤ elapsed
      → target_from f64 from start stages elapsed ≡ last_target from stages
  unfolding target_from length_of last_target
  target_from_late [] from start elapsed h = refl
  target_from_late (stage ∷ stages) from start elapsed h =
      let after : ltb elapsed (start + stage.duration) ≡ false = ground arith in
      rw after (target_from_late stages stage.target (start + stage.duration) elapsed (omega arith))

  -- With stages that the checks accept, a run asks for a stage's target, below 2^53, at the end of
  -- that stage, whatever stages follow, and for the last stage's target from the end of all on.
  pub target_at_reaches :
      (front back : List Stage) (ramp_rate late : ℕ)
      → validate_stages (front ++ back) ramp_rate ≡ none
      → last_target 0 front < 2 ^ 53
      → length_of (front ++ back) ≤ late
      → (target_at f64 (front ++ back) (length_of front) ≡ last_target 0 front)
        × (target_at f64 (front ++ back) late ≡ last_target 0 (front ++ back))
  unfolding target_at
  target_at_reaches front back ramp_rate late h exact over =
      let (j, rest) =
        zero_from_split 0 front back (validate_stages_zero (front ++ back) ramp_rate h) in
      (
        target_from_end front back 0 0 (length_of front) j rest exact (omega arith),
        target_from_late (front ++ back) 0 0 late (omega arith),
      )
