-- ===== src/Config/Durations.antt =====
-- src/config.rs: durations, the list of stages and close codes. A duration is its number of
-- nanoseconds, and texts are ASCII but for the two bytes of a micro sign.
pub mod Trimming
pub mod Written
use wsblast.Common.{
  ℕ, ◌+◌, ◌-◌, ◌*◌, ◌/◌, ◌^◌, Bool, true, false, ◌&&◌, ◌||◌, Option, none, some, List, [], ◌∷◌,
  Bytes, codes, ltb, leb, ◌==◌, if◌then◌else◌,
}
use wsblast.Common.Results.{Result, ok, err}
use wsblast.Common.Text.{trim, split_on, split_once, parse_unsigned, strip_suffix}

pub data DurationError : Type 0 where
  empty_duration : DurationError
  invalid_duration : Bytes → DurationError

-- `UNITS`: suffixes and nanoseconds, in the order in which they are tried.
abbrev pub units : List (Bytes × ℕ)
units =
    (codes "ns", 1)
    ∷ (codes "us", 1000)
    ∷ (194 ∷ 181 ∷ b's' ∷ [], 1000)
    ∷ (codes "ms", 1000000)
    ∷ (codes "s", 1000000000)
    ∷ (codes "m", 60000000000)
    ∷ (codes "h", 3600000000000)
    ∷ []

-- Seconds have 64 bits.
abbrev pub duration_range : ℕ → Option ℕ
duration_range nanos = if ltb (nanos / 1000000000) (2 ^ 64) then some nanos else none

abbrev pub or_invalid : Bytes → Option ℕ → Result DurationError ℕ
or_invalid s none = err (invalid_duration s)
or_invalid s (some nanos) = ok nanos

abbrev pub whole_seconds : Bytes → Result DurationError ℕ
whole_seconds s = elim (parse_unsigned (2 ^ 64 - 1) s) [
  | some secs ↦ ok (secs * 1000000000)
  | none ↦ err (invalid_duration s)
]

-- `fractional` is a number of type f64 that scales to a duration, in nanoseconds.
module _ (fractional : Bytes → ℕ → Option ℕ) where
  abbrev pub scale_read : Bytes → ℕ → Option ℕ → Option ℕ
  scale_read value nanos_per_unit (some whole) = duration_range (whole * nanos_per_unit)
  scale_read value nanos_per_unit none = fractional value nanos_per_unit

  unfoldable pub scale_duration : Bytes → ℕ → Option ℕ
  scale_duration value nanos_per_unit =
      scale_read value nanos_per_unit (parse_unsigned (2 ^ 64 - 1) value)

  unfoldable pub try_unit :
      Bytes → ℕ → Result DurationError ℕ → Option Bytes → Result DurationError ℕ
  unfolding scale_duration
  try_unit s nanos_per_unit later (some value) = or_invalid s (scale_duration value nanos_per_unit)
  try_unit s nanos_per_unit later none = later

  -- The loop over the units.
  unfoldable pub by_unit : Bytes → List (Bytes × ℕ) → Result DurationError ℕ
  unfolding try_unit
  by_unit s [] = whole_seconds s
  by_unit s ((suffix, nanos_per_unit) ∷ others) =
      try_unit s nanos_per_unit (by_unit s others) (strip_suffix suffix s)

  abbrev pub trimmed_duration : Bytes → Result DurationError ℕ
  trimmed_duration [] = err empty_duration
  trimmed_duration (c ∷ cs) = by_unit (c ∷ cs) units

  unfoldable pub parse_human_duration : Bytes → Result DurationError ℕ
  unfolding by_unit
  parse_human_duration s = trimmed_duration (trim s)

abbrev pub is_sendable_close_code : ℕ → Bool
is_sendable_close_code code =
    (leb 1000 code && leb code 1003)
    || ((leb 1007 code && leb code 1014) || (leb 3000 code && leb code 4999))
