-- ===== src/Check.antt =====
-- src/check.rs: what a reply must hold, and the values taken from it. Texts are ASCII.
pub mod Flag
pub mod Passing
pub mod Names
mod Runs
use wsblast.Common.{
  ℕ, Bool, true, false, ◌&&◌, ◌||◌, Option, none, some, List, [], ◌∷◌, ◌++◌, Bytes, codes, leb,
  ◌==◌, if◌then◌else◌, ◌>>=◌,
}
use wsblast.Common.Results.{Result, ok, err}
use wsblast.Common.Text.{
  text_eq, is_empty, is_digit, starts_with_slash, split_once, strip_prefix, cut_at,
}
use wsblast.Json.{Serde}
use wsblast.SocketIo.Frame.{Frame, text, binary, ping, pong, close}

pub data Check (V : Type 0) : Type 0 where
  json : Bytes → Option V → Check V
  contains : Bytes → Check V

-- The error messages.
pub data CheckError : Type 0 where
  empty_contains : CheckError
  unknown_flag bad_pointer : Bytes → CheckError

-- `none` where the pointer is fine.
abbrev pub check_pointer : Bytes → Option CheckError
check_pointer pointer =
    if is_empty pointer || starts_with_slash pointer then none else some (bad_pointer pointer)

pub record Capture : Type 0 where
  pub var : ℕ
  pub pointer : Bytes

module _ {V : Type 0} where
  abbrev pub validate_check : Check V → Option CheckError
  validate_check (json pointer equals) = check_pointer pointer
  validate_check (contains []) = some empty_contains
  validate_check (contains (c ∷ cs)) = none

  abbrev pub if_valid : Check V → Option CheckError → Result CheckError (Check V)
  if_valid check none = ok check
  if_valid check (some e) = err e

module _ {V : Type 0} (serde : Serde V) where
  -- A value in a flag: JSON, or a string.
  abbrev pub value_or_string : Bytes → Option V → V
  value_or_string value none = serde.string value
  value_or_string value (some v) = v

  abbrev pub json_flag : Bytes → Option (Bytes × Bytes) → Check V
  json_flag rest none = json rest none
  json_flag rest (some (pointer, value)) =
      json pointer (some (value_or_string value (serde.from_str value)))

  abbrev pub parse_json_flag : Bytes → Option Bytes → Result CheckError (Check V)
  parse_json_flag spec none = err (unknown_flag spec)
  parse_json_flag spec (some rest) =
      let check = json_flag rest (split_once b'=' rest) in if_valid check (validate_check check)

  abbrev pub parse_contains : Bytes → Option Bytes → Result CheckError (Check V)
  parse_contains spec none = parse_json_flag spec (strip_prefix (codes "json:") spec)
  parse_contains spec (some t) = if is_empty t then err empty_contains else ok (contains t)

  unfoldable pub parse_flag : Bytes → Result CheckError (Check V)
  parse_flag spec = parse_contains spec (strip_prefix (codes "contains:") spec)

  unfoldable pub flag_value : Check V → Bytes
  flag_value (json pointer none) = codes "json:" ++ pointer
  flag_value (json pointer (some value)) =
      codes "json:" ++ (pointer ++ (b'=' ∷ serde.to_string value))
  flag_value (contains t) = codes "contains:" ++ t

  -- A text and a number or Boolean: the text read as JSON.
  abbrev pub read_equals : Option V → V → Bool
  read_equals none scalar = false
  read_equals (some parsed) scalar = serde.same_value parsed scalar

  abbrev pub text_equals : Option Bytes → V → Bool
  text_equals none scalar = false
  text_equals (some t) scalar =
      if serde.is_scalar scalar then read_equals (serde.from_str t) scalar else false

  unfoldable pub same : V → V → Bool
  same found expected =
      if serde.same_value found expected
      then true
      else text_equals (serde.as_string found) expected
        || text_equals (serde.as_string expected) found

  -- `Reply::new`; `is_utf8` is `str::from_utf8`.
  module _ (is_utf8 : Bytes → Bool) where
    abbrev pub reply_text : Frame → Option Bytes
    reply_text (text t) = some t
    reply_text (binary b) = if is_utf8 b then some b else none
    reply_text (ping b) = none
    reply_text (pong b) = none
    reply_text (close reason) = none

    -- `Reply::json`, whose value is kept once it is known.
    abbrev pub reply_json : Frame → Option V
    reply_json reply = reply_text reply >>= serde.from_str

    abbrev pub is_some {ℓ} : {A : Type ℓ} → Option A → Bool
    is_some none = false
    is_some (some a) = true

    abbrev pub text_contains : Bytes → Option Bytes → Bool
    text_contains t none = false
    text_contains [] (some reply) = true
    text_contains (c ∷ cs) (some reply) = is_some (cut_at (c ∷ cs) reply)

    abbrev pub is_none_or_same : Option V → V → Bool
    is_none_or_same none found = true
    is_none_or_same (some expected) found = same found expected

    abbrev pub found_passes : Option V → Option V → Bool
    found_passes equals none = false
    found_passes equals (some found) = is_none_or_same equals found

    unfoldable pub passes_check : Check V → Frame → Bool
    unfolding same
    passes_check (contains t) reply = text_contains t (reply_text reply)
    passes_check (json pointer equals) reply =
        found_passes equals (reply_json reply >>= λ v. serde.pointer v pointer)

    abbrev pub stored_value : V → Option Bytes → Bytes
    stored_value found (some t) = t
    stored_value found none = serde.to_string found

    unfoldable pub captured : Capture → Frame → Option Bytes
    captured capture reply = reply_json reply >>= λ v. serde.pointer v capture.pointer >>= λ found.
        some (stored_value found (serde.as_string found))

-- The names of variables.
pub data VarError : Type 0 where
  bad_name built_in : Bytes → VarError

abbrev pub is_letter : ℕ → Bool
is_letter c = (leb b'a' c && leb c b'z') || (leb b'A' c && leb c b'Z')

abbrev pub name_starts : ℕ → Bool
name_starts c = is_letter c || c == b'_'

abbrev pub names_on : Bytes → Bool
names_on [] = true
names_on (c ∷ cs) = (is_letter c || (is_digit c || c == b'_')) && names_on cs

abbrev pub is_name : Bytes → Bool
is_name [] = false
is_name (c ∷ cs) = name_starts c && names_on cs

abbrev pub is_built_in : Bytes → Bool
is_built_in name =
    text_eq name (codes "seq")
    || (text_eq name (codes "timestamp")
        || (text_eq name (codes "worker_id") || text_eq name (codes "data")))

-- `none` where the name is fine.
unfoldable pub check_var_name : Bytes → Option VarError
check_var_name name =
    if is_name name
    then if is_built_in name then some (built_in name) else none
    else some (bad_name name)
