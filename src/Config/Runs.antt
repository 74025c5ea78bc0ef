-- ===== src/Config/Runs.antt =====
-- config.rs at concrete settings.
use native.Mathlib.Nat.{zero-div}
use wsblast.Common.{
  List, ◌+◌, ◌-◌, ◌*◌, ◌/◌, some, arith, ◌≡◌, ◌↔◌, [], ◌∷◌, refl, Option, none, ℕ, Bytes, codes,
}
use wsblast.Common.Results.{ok, err}
use wsblast.Config.Durations.{
  scale_duration, by_unit, try_unit, empty_duration, invalid_duration, parse_human_duration,
}
use wsblast.Config.Stages.{
  Stage, no_stages, invalid_stage, zero_stage, parse_list, validate_stages, target_at, F64,
}
use wsblast.Config.Stages.Written.{IsWritten, stages_text, parse_list-stages_text}
use wsblast.Config.Stages.Ramp.{IsF64, length_of, last_target, target_at_reaches}
use wsblast.Config.Matching.{
  json_pointer, invalid_json_pointer, unsupported_match, match_flag, pointer_chars, is_json_pointer,
  parse_match,
}
use wsblast.Config.Matching.Pointers.{IsRule, escaped, written_pointer, parse_match_iff}

-- No fraction is read.
abbrev whole_only : Bytes → ℕ → Option ℕ
whole_only value nanos_per_unit = none

half_minute : parse_human_duration whole_only (codes " 30s ") ≡ ok 30000000000
unfolding parse_human_duration by_unit try_unit scale_duration
half_minute = refl

plain_seconds : parse_human_duration whole_only (codes "2") ≡ ok 2000000000
unfolding parse_human_duration by_unit try_unit scale_duration
plain_seconds = refl

no_number : parse_human_duration whole_only (codes "ms") ≡ err (invalid_duration (codes "ms"))
unfolding parse_human_duration by_unit try_unit scale_duration
no_number = refl

no_text : parse_human_duration whole_only (codes " ") ≡ err empty_duration
unfolding parse_human_duration
no_text = refl

bad_escape : parse_match (codes "json:/a~2") ≡ err (invalid_json_pointer (codes "/a~2"))
unfolding parse_match is_json_pointer pointer_chars
bad_escape = refl

no_rule : parse_match (codes "last") ≡ err (unsupported_match (codes "last"))
unfolding parse_match
no_rule = refl

abbrev id_pointer : Bytes
id_pointer = codes "/meta~1x/id"

id_tokens : id_pointer ≡ written_pointer (codes "meta/x" ∷ (codes "id" ∷ []))
unfolding written_pointer escaped
id_tokens = refl

id_flag : match_flag (json_pointer id_pointer) ≡ codes "json:/meta~1x/id"
unfolding match_flag
id_flag = refl

parse_match_iff_example :
    (parse_match (codes "json:/meta~1x/id") ≡ ok (json_pointer id_pointer)) ↔ (
      (match_flag (json_pointer id_pointer) ≡ codes "json:/meta~1x/id")
      × IsRule (json_pointer id_pointer))
parse_match_iff_example = parse_match_iff (codes "json:/meta~1x/id") (json_pointer id_pointer)

-- The flag is accepted.
id_rule : parse_match (codes "json:/meta~1x/id") ≡ ok (json_pointer id_pointer)
id_rule =
    let (from, to) = parse_match_iff (codes "json:/meta~1x/id") (json_pointer id_pointer) in
    to (id_flag, (codes "meta/x" ∷ (codes "id" ∷ []), id_tokens))

first_IsWritten : IsWritten (record { number = 30; unit = (codes "s", 1000000000); target = 100 })
first_IsWritten = record {
  index = 4;
  is_unit = refl;
  number_lt = omega arith;
  seconds_lt = omega arith;
  target_lt = omega arith;
}

second_IsWritten : IsWritten (record { number = 2; unit = (codes "m", 60000000000); target = 0 })
second_IsWritten = record {
  index = 5;
  is_unit = refl;
  number_lt = omega arith;
  seconds_lt = omega arith;
  target_lt = omega arith;
}

parse_list-stages_text_example :
    parse_list whole_only (
      stages_text
        (record { number = 30; unit = (codes "s", 1000000000); target = 100 })
        (record { number = 2; unit = (codes "m", 60000000000); target = 0 } ∷ []))
    ≡ ok (
        record { duration = 30000000000; target = 100 }
        ∷ record { duration = 120000000000; target = 0 }
        ∷ [])
parse_list-stages_text_example =
    parse_list-stages_text whole_only
      (record { number = 30; unit = (codes "s", 1000000000); target = 100 })
      (record { number = 2; unit = (codes "m", 60000000000); target = 0 } ∷ []) first_IsWritten
      (second_IsWritten, tt)

spaced_list :
    parse_list whole_only (codes " 1s:5 ,, 2: 0")
    ≡ ok (
        record { duration = 1000000000; target = 5 }
        ∷ record { duration = 2000000000; target = 0 }
        ∷ [])
unfolding parse_list by_unit try_unit scale_duration parse_human_duration
spaced_list = refl

no_list : parse_list whole_only (codes " , ") ≡ err no_stages
unfolding parse_list
no_list = refl

bad_stage : parse_list whole_only (codes "1s:5,30s") ≡ err (invalid_stage (codes "30s"))
unfolding parse_list by_unit try_unit scale_duration parse_human_duration
bad_stage = refl

-- Numbers in thousandths, rounded down, where no difference is below zero.
abbrev thousandths : F64
thousandths = record {
  Number = ℕ;
  of_usize = λ n. n * 1000;
  as_secs = λ nanos. nanos;
  plus = λ a b. a + b;
  minus = λ a b. a - b;
  times = λ a b. a * b / 1000;
  over = λ a b. a * 1000 / b;
  rounded = λ a. (a + 500) / 1000;
}

thousandths-IsF64 : IsF64 thousandths
thousandths-IsF64 = record {
  over_zero = λ duration positive. zero-div duration;
  plus_zero = λ a b. omega arith;
  rounded_of = λ a small. omega arith;
}

abbrev up_and_down : List Stage
up_and_down = record { duration = 10; target = 100 } ∷ record { duration = 20; target = 40 } ∷ []

half_way : target_at thousandths up_and_down 5 ≡ 50
unfolding target_at
half_way = refl

zero_second :
    validate_stages
      (record { duration = 1; target = 1 } ∷ record { duration = 0; target = 1 } ∷ [])
      0
    ≡ some (zero_stage 2)
unfolding validate_stages
zero_second = refl

target_at_reaches_example :
    (target_at thousandths up_and_down 10 ≡ 100) × (target_at thousandths up_and_down 45 ≡ 40)
unfolding length_of last_target validate_stages
target_at_reaches_example =
    target_at_reaches thousandths thousandths-IsF64 (record { duration = 10; target = 100 } ∷ [])
      (record { duration = 20; target = 40 } ∷ []) 0 45 refl (omega arith) (omega arith)
