-- ===== src/Config/Stages/Written.antt =====
-- config.rs: a list of stages as it is written, `DURATION:TARGET` with commas.
use mathlib.Core.List.{reverse, reverse-cons, append-nil, append_assoc}
use wsblast.Common.{
  ℕ, zero, suc, ◌-◌, ◌*◌, ◌/◌, ◌^◌, ◌<◌, ◌≡◌, refl, sym, ap, ◌∙◌, subst, true, false, Option, some,
  List, [], ◌∷◌, ◌++◌, All, All-append, Bytes, map, get_elem?, ◌==◌, ltb, arith,
}
use wsblast.Common.Results.{ok, ◌>>=◌}
use wsblast.Common.Text.{
  Without, trim, split_from, split_on, split_once_first, parse_unsigned, is_digit,
}
use wsblast.Common.Decimal.{decimal, IsDigit, decimal-IsDigit, decimal_cons, parse_unsigned-decimal}
use wsblast.Config.Durations.{units, duration_range, or_invalid, parse_human_duration}
use wsblast.Config.Durations.Written.{trim_unit, parse_human_duration-decimal}
use wsblast.Config.Durations.Trimming.{trim_between, trim-decimal, decimal_ends_visible}
use wsblast.Config.Stages.{
  Stage, unless_blank, stage_parts, with_duration, with_target, halves, parse_stage, parse_stages,
  some_stages, parse_list,
}

-- A stage as it is written: a number of units, and a target.
pub record WrittenStage : Type 0 where
  pub number : ℕ
  pub unit : Bytes × ℕ
  pub target : ℕ

-- The unit is one of the table, and the numbers fit the code's types.
pub record IsWritten (w : WrittenStage) : Type 0 where
  pub index : ℕ
  pub is_unit : get_elem? units index ≡ some w.unit
  pub number_lt : w.number < 2 ^ 64
  pub seconds_lt : w.number * w.unit.1 / 1000000000 < 2 ^ 64
  pub target_lt : w.target < 2 ^ 64

abbrev pub stage_text : WrittenStage → Bytes
stage_text w = (decimal w.number ++ w.unit.0) ++ (b':' ∷ decimal w.target)

unfoldable pub more_text : List WrittenStage → Bytes
more_text [] = []
more_text (w ∷ ws) = b',' ∷ (stage_text w ++ more_text ws)

abbrev pub stages_text : WrittenStage → List WrittenStage → Bytes
stages_text w ws = stage_text w ++ more_text ws

abbrev pub stage_of : WrittenStage → Stage
stage_of w = record { duration = w.number * w.unit.1; target = w.target }

split_from_at :
    (sep : ℕ) (piece xs rest : Bytes)
    → Without sep xs
    → split_from sep piece (xs ++ (sep ∷ rest)) ≡ (reverse piece ++ xs) ∷ split_on sep rest
split_from_at sep piece [] rest h =
    let here : (sep == sep) ≡ true = ground arith in rw (here, append-nil (reverse piece))
split_from_at sep piece (x ∷ xs) rest (here, there) =
    let other : (x == sep) ≡ false = ground arith in
    rw other (
      split_from_at sep (x ∷ piece) xs rest there
      ∙ rw (reverse-cons x piece)
          (ap (λ (t : Bytes). t ∷ split_on sep rest) (append_assoc (reverse piece) (x ∷ []) xs)))

split_from_end :
    (sep : ℕ) (piece xs : Bytes)
    → Without sep xs
    → split_from sep piece xs ≡ (reverse piece ++ xs) ∷ []
split_from_end sep piece [] h = rw (append-nil (reverse piece)) refl
split_from_end sep piece (x ∷ xs) (here, there) =
    let other : (x == sep) ≡ false = ground arith in
    rw other (
      split_from_end sep (x ∷ piece) xs there
      ∙ rw (reverse-cons x piece)
          (ap (λ (t : Bytes). t ∷ []) (append_assoc (reverse piece) (x ∷ []) xs)))

get_elem?-All :
    {A : Type 0} (P : A → Type 0) (xs : List A) (i : ℕ) (x : A)
    → All P xs
    → get_elem? xs i ≡ some x
    → P x
get_elem?-All P [] i x h e = cc
get_elem?-All P (y ∷ ys) zero x (here, there) e = let same : y ≡ x = cc in subst P same here
get_elem?-All P (y ∷ ys) (suc i) x (here, there) e = get_elem?-All P ys i x there e

-- Neither separator stands in a unit.
units-Without : All (λ (u : Bytes × ℕ). Without b':' u.0 × Without b',' u.0) units
units-Without = (
  ((refl, (refl, tt)), (refl, (refl, tt))),
  (
    ((refl, (refl, tt)), (refl, (refl, tt))),
    (
      ((refl, (refl, (refl, tt))), (refl, (refl, (refl, tt)))),
      (
        ((refl, (refl, tt)), (refl, (refl, tt))),
        (((refl, tt), (refl, tt)), (((refl, tt), (refl, tt)), (((refl, tt), (refl, tt)), tt))),
      ),
    ),
  ),
)

digits-Without : (c : ℕ) (xs : Bytes) → is_digit c ≡ false → All IsDigit xs → Without c xs
digits-Without c [] other h = tt
digits-Without c (x ∷ xs) other (here, there) = (ground arith, digits-Without c xs other there)

module _ (w : WrittenStage) (h : IsWritten w) where
  unit-Without : Without b':' w.unit.0 × Without b',' w.unit.0
  unit-Without =
      get_elem?-All (λ (u : Bytes × ℕ). Without b':' u.0 × Without b',' u.0) units h.index w.unit
        units-Without h.is_unit

  duration-Without : Without b':' (decimal w.number ++ w.unit.0)
  duration-Without =
      let (colon, comma) = unit-Without in
      All-append _ (decimal w.number) w.unit.0
        (digits-Without b':' (decimal w.number) refl (decimal-IsDigit w.number)) colon

  stage_text-Without : Without b',' (stage_text w)
  stage_text-Without =
      let (colon, comma) = unit-Without in
      All-append _ (decimal w.number ++ w.unit.0) (b':' ∷ decimal w.target)
        (All-append _ (decimal w.number) w.unit.0
          (digits-Without b',' (decimal w.number) refl (decimal-IsDigit w.number)) comma)
        (refl, digits-Without b',' (decimal w.target) refl (decimal-IsDigit w.target))

  trim-stage_text : trim (stage_text w) ≡ stage_text w
  trim-stage_text =
      let form : stage_text w
          ≡ decimal w.number ++ ((w.unit.0 ++ (b':' ∷ [])) ++ decimal w.target) =
        append_assoc (decimal w.number) w.unit.0 (b':' ∷ decimal w.target)
        ∙ ap (λ (t : Bytes). decimal w.number ++ t)
            (sym (append_assoc w.unit.0 (b':' ∷ []) (decimal w.target))) in
      ap trim form
      ∙ trim_between w.number (w.unit.0 ++ (b':' ∷ [])) (decimal w.target)
          (decimal_ends_visible w.target)
      ∙ sym form

  fits : duration_range (w.number * w.unit.1) ≡ some (w.number * w.unit.1)
  fits =
      let small : ltb (w.number * w.unit.1 / 1000000000) (2 ^ 64) ≡ true =
        ground (arith, h.seconds_lt) in
      rw small refl

  parse_stage-stage_text :
      (fractional : Bytes → ℕ → Option ℕ) → parse_stage fractional (stage_text w) ≡ ok (stage_of w)
  unfolding parse_stage
  parse_stage-stage_text fractional =
      ap (halves fractional (stage_text w))
        (split_once_first b':' (decimal w.number ++ w.unit.0) (decimal w.target) duration-Without)
      ∙ ap
          (λ (t : Bytes).
            with_target fractional (stage_text w) (decimal w.number ++ w.unit.0)
              (parse_unsigned (2 ^ 64 - 1) t))
          (trim-decimal w.target)
      ∙ ap (with_target fractional (stage_text w) (decimal w.number ++ w.unit.0))
          (parse_unsigned-decimal (2 ^ 64 - 1) w.target (omega (arith, h.target_lt)) (omega arith))
      ∙ ap (with_duration fractional w.target) (
          ap (parse_human_duration fractional) (trim_unit h.index w.number w.unit h.is_unit)
          ∙ parse_human_duration-decimal fractional h.index w.number w.unit h.number_lt h.is_unit
          ∙ ap (or_invalid (decimal w.number ++ w.unit.0)) fits)

-- The parts of a written list, and what they are read as.
texts : List WrittenStage → List Bytes
texts [] = []
texts (w ∷ ws) = stage_text w ∷ texts ws

split_on-stages_text :
    (w : WrittenStage) (ws : List WrittenStage)
    → IsWritten w
    → All IsWritten ws
    → split_on b',' (stages_text w ws) ≡ texts (w ∷ ws)
unfolding more_text texts
split_on-stages_text w [] h hs =
    ap (split_on b',') (append-nil (stage_text w))
    ∙ split_from_end b',' [] (stage_text w) (stage_text-Without w h)
split_on-stages_text w (v ∷ vs) h (here, there) =
    split_from_at b',' [] (stage_text w) (stages_text v vs) (stage_text-Without w h)
    ∙ ap (λ (parts : List Bytes). stage_text w ∷ parts) (split_on-stages_text v vs here there)

stage_parts_cons :
    (part : Bytes) (parts : List Bytes) (c : ℕ) (cs : Bytes)
    → trim part ≡ c ∷ cs
    → stage_parts (part ∷ parts) ≡ (c ∷ cs) ∷ stage_parts parts
unfolding stage_parts
stage_parts_cons part parts c cs e = ap (λ (t : Bytes). unless_blank t (stage_parts parts)) e

stage_parts-texts : (ws : List WrittenStage) → All IsWritten ws → stage_parts (texts ws) ≡ texts ws
unfolding stage_parts texts
stage_parts-texts [] h = refl
stage_parts-texts (w ∷ ws) (here, there) =
    let (d, ds, form) = decimal_cons w.number in
    let whole : stage_text w ≡ d ∷ ((ds ++ w.unit.0) ++ (b':' ∷ decimal w.target)) =
      ap (λ (t : Bytes). (t ++ w.unit.0) ++ (b':' ∷ decimal w.target)) form in
    stage_parts_cons (stage_text w) (texts ws) d _ (trim-stage_text w here ∙ whole)
    ∙ ap (λ (t : Bytes). t ∷ stage_parts (texts ws)) (sym whole)
    ∙ ap (λ (parts : List Bytes). stage_text w ∷ parts) (stage_parts-texts ws there)

module _ (fractional : Bytes → ℕ → Option ℕ) where
  parse_stages-texts :
      (ws : List WrittenStage)
      → All IsWritten ws
      → parse_stages fractional (texts ws) ≡ ok (map stage_of ws)
  unfolding parse_stages texts
  parse_stages-texts [] h = refl
  parse_stages-texts (w ∷ ws) (here, there) =
      rw (parse_stage-stage_text w here fractional, parse_stages-texts ws there) refl

  -- A list of stages, each of them a whole number, a unit and a target, is read as those stages.
  pub parse_list-stages_text :
      (w : WrittenStage) (ws : List WrittenStage)
      → IsWritten w
      → All IsWritten ws
      → parse_list fractional (stages_text w ws) ≡ ok (map stage_of (w ∷ ws))
  unfolding parse_list
  parse_list-stages_text w ws h hs =
      ap
        (λ (parts : List Bytes).
          parse_stages fractional (stage_parts parts) >>= some_stages fractional)
        (split_on-stages_text w ws h hs)
      ∙ ap (λ (parts : List Bytes). parse_stages fractional parts >>= some_stages fractional)
          (stage_parts-texts (w ∷ ws) (h, hs))
      ∙ ap (λ m. m >>= some_stages fractional) (parse_stages-texts (w ∷ ws) (h, hs))
