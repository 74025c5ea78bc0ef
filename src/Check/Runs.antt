-- ===== src/Check/Runs.antt =====
-- check.rs at concrete checks and replies.
use wsblast.Common.{◌≡◌, refl, true, false, none, some, [], ◌∷◌, Bytes, codes}
use wsblast.Common.Results.{ok, err}
use wsblast.Json.Toy.{toy, any_bytes}
use wsblast.SocketIo.Frame.{text}
use wsblast.Template.{index_of}
use wsblast.Check.{
  Check, json, bad_pointer, empty_contains, unknown_flag, parse_flag, flag_value, passes_check,
  same, captured, built_in, bad_name, check_var_name,
}
use wsblast.Check.Flag.{parse_flag-flag_value}

abbrev status_ok : Check Bytes
status_ok = json (codes "/status") (some (codes "ok"))

read_string : parse_flag toy (codes "json:/status=ok") ≡ ok status_ok
unfolding parse_flag
read_string = refl

read_value : parse_flag toy (codes "json:/status={ok") ≡ ok status_ok
unfolding parse_flag
read_value = refl

no_text : parse_flag toy (codes "contains:") ≡ err empty_contains
unfolding parse_flag
no_text = refl

no_slash : parse_flag toy (codes "json:status") ≡ err (bad_pointer (codes "status"))
unfolding parse_flag
no_slash = refl

no_kind : parse_flag toy (codes "status") ≡ err (unknown_flag (codes "status"))
unfolding parse_flag
no_kind = refl

type_passes :
    passes_check toy any_bytes (json (codes "/type") (some (codes "a"))) (text (codes "{a")) ≡ true
unfolding passes_check same
type_passes = refl

nothing_there : passes_check toy any_bytes (json (codes "/id") none) (text (codes "{a")) ≡ false
unfolding passes_check
nothing_there = refl

type_captured :
    captured toy any_bytes (record { var = 0; pointer = codes "/type" }) (text (codes "{a"))
    ≡ some (codes "a")
unfolding captured
type_captured = refl

seq_built_in : check_var_name (codes "seq") ≡ some (built_in (codes "seq"))
unfolding check_var_name
seq_built_in = refl

digit_first : check_var_name (codes "2x") ≡ some (bad_name (codes "2x"))
unfolding check_var_name
digit_first = refl

session_fine : check_var_name (codes "session") ≡ none
unfolding check_var_name
session_fine = refl

status_read : parse_flag toy (codes "json:/status=ok") ≡ ok status_ok
unfolding parse_flag
status_read = refl

parse_flag-flag_value_example : parse_flag toy (flag_value toy status_ok) ≡ ok status_ok
parse_flag-flag_value_example =
    parse_flag-flag_value toy (codes "json:/status=ok") status_ok refl status_read

session_found : index_of (codes "session") (codes "id" ∷ codes "session" ∷ []) ≡ some 1
unfolding index_of
session_found = refl
