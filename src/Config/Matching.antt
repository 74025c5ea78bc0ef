-- ===== src/Config/Matching.antt =====
-- src/config.rs: the rule for replies as it is spelled on the command line, on ASCII texts.
pub mod Pointers
use wsblast.Common.{
  ℕ, Bool, true, false, ◌&&◌, ◌||◌, Option, none, some, List, [], ◌∷◌, ◌++◌, Bytes, codes, ◌==◌,
  if◌then◌else◌,
}
use wsblast.Common.Results.{Result, ok, err}
use wsblast.Common.Text.{text_eq, strip_prefix}

pub data ReplyMatch : Type 0 where
  first exact : ReplyMatch
  json_pointer : Bytes → ReplyMatch

pub data MatchError : Type 0 where
  unsupported_match invalid_json_pointer : Bytes → MatchError

-- The loop over the characters.
unfoldable pub pointer_chars : Bytes → Bool
pointer_chars [] = true
pointer_chars (c ∷ []) = if c == b'~' then false else true
pointer_chars (c ∷ d ∷ cs) =
    let after_escape = pointer_chars cs in
    let after_plain = pointer_chars (d ∷ cs) in
    if c == b'~' then (d == b'0' || d == b'1') && after_escape else after_plain

unfoldable pub is_json_pointer : Bytes → Bool
unfolding pointer_chars
is_json_pointer [] = true
is_json_pointer (c ∷ cs) = (c == b'/') && pointer_chars (c ∷ cs)

unfoldable pub match_flag : ReplyMatch → Bytes
match_flag first = codes "first"
match_flag exact = codes "exact"
match_flag (json_pointer pointer) = codes "json:" ++ pointer

abbrev pub pointer_match : Bytes → Option Bytes → Result MatchError ReplyMatch
pointer_match raw none = err (unsupported_match raw)
pointer_match raw (some pointer) =
    if is_json_pointer pointer
    then ok (json_pointer pointer)
    else err (invalid_json_pointer pointer)

-- `ReplyMatch::from_str`
unfoldable pub parse_match : Bytes → Result MatchError ReplyMatch
parse_match raw =
    if text_eq raw (codes "first")
    then ok first
    else if text_eq raw (codes "exact")
    then ok exact
    else pointer_match raw (strip_prefix (codes "json:") raw)
