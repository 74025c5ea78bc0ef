-- ===== src/Mock/Rules.antt =====
-- src/mock/rules.rs: the rules of a mock server and what it does with a frame. YAML is read by a
-- library, and texts are ASCII.
pub mod Compile
pub mod Templates
pub mod Choice
pub mod Validity
mod Runs
use wsblast.Common.{
  ℕ, zero, suc, ◌+◌, Bool, true, false, ◌&&◌, ◌||◌, Option, none, some, List, [], ◌∷◌, ◌++◌, map,
  Bytes, codes, length, ltb, ◌==◌, if◌then◌else◌, ◌>>=◌,
}
use wsblast.Common.Results.{Result, ok, err}
use wsblast.Common.Decimal.{decimal}
use wsblast.Common.Text.{text_eq, starts_with_slash, strip_prefix, cut_at, trim}
use wsblast.Config.Durations.{DurationError, parse_human_duration, is_sendable_close_code}
use wsblast.Json.{Serde}
use wsblast.SocketIo.Frame.{Frame, text, binary, ping, pong, close}

pub data Unmatched : Type 0 where
  echo ignore : Unmatched

pub record MatchSpec (V : Type 0) : Type 0 where
  pub text_spec : Option Bytes
  pub json_spec : Option Bytes
  pub equals_spec : Option V

pub data OneOrMany : Type 0 where
  one : Bytes → OneOrMany
  many : List Bytes → OneOrMany

pub data CloseSpec : Type 0 where
  code_only : ℕ → CloseSpec
  full : ℕ → Bytes → CloseSpec

pub record RuleSpec (V : Type 0) : Type 0 where
  pub match_spec : Option (MatchSpec V)
  pub after_spec : Option ℕ
  pub reply_spec : Option OneOrMany
  pub delay_spec : Option Bytes
  pub close_spec : Option CloseSpec

pub record RulesFile (V : Type 0) : Type 0 where
  pub version : Bytes
  pub rule_specs : List (RuleSpec V)
  pub unmatched_spec : Unmatched

pub data Matcher (V : Type 0) : Type 0 where
  any_frame : Matcher V
  text_is : Bytes → Matcher V
  json_at : Bytes → Option V → Matcher V

pub data ReplyPart : Type 0 where
  literal : Bytes → ReplyPart
  request seq : ReplyPart
  json : Bytes → ReplyPart

pub record Rule (V : Type 0) : Type 0 where
  pub matcher : Matcher V
  pub after : ℕ
  pub replies : List (List ReplyPart)
  pub delay : Option ℕ
  pub closing_frame : Option (ℕ × Bytes)

pub record Rules (V : Type 0) : Type 0 where
  pub source : Bytes
  pub rules : List (Rule V)
  pub unmatched : Unmatched

pub data Decision : Type 0 where
  echoed ignored : Decision
  reply : List Frame → Option ℕ → Option (ℕ × Bytes) → Decision

-- The error messages. `out_of_fuel` is none of the code's: it stands for a loop that ran out of
-- fuel.
pub data RuleError : Type 0 where
  bad_pointer : Bytes → RuleError
  text_and_json equals_needs_json needs_text_or_json zero_after needs_effect : RuleError
  unclosed : Bytes → RuleError
  unknown_placeholder : Bytes → Bytes → RuleError
  bad_delay : DurationError → RuleError
  bad_close_code : ℕ → RuleError
  long_reason out_of_fuel : RuleError

pub data RulesError : Type 0 where
  bad_version : Bytes → RulesError
  no_rules : RulesError
  bad_rule : ℕ → RuleError → RulesError

-- `Template::parse`
abbrev pub literal_part : Bytes → List ReplyPart
literal_part [] = []
literal_part (c ∷ cs) = literal (c ∷ cs) ∷ []

abbrev pub open_braces : Bytes
open_braces = codes "{{"

abbrev pub close_braces : Bytes
close_braces = codes "}}"

abbrev pub json_part : Bytes → Bytes → Option Bytes → Result RuleError ReplyPart
json_part raw name none = err (unknown_placeholder raw name)
json_part raw name (some pointer) =
    if starts_with_slash pointer then ok (json pointer) else err (unknown_placeholder raw name)

abbrev pub placeholder_part : Bytes → Bytes → Result RuleError ReplyPart
placeholder_part raw name =
    if text_eq name (codes "request")
    then ok request
    else if text_eq name (codes "seq")
    then ok seq
    else json_part raw name (strip_prefix (codes "json:") name)

abbrev pub with_parts :
    List ReplyPart
    → Result RuleError ReplyPart
    → Result RuleError (List ReplyPart)
    → Result RuleError (List ReplyPart)
with_parts before (err e) later = err e
with_parts before (ok part) (err e) = err e
with_parts before (ok part) (ok parts) = ok (before ++ (part ∷ parts))

abbrev pub Reader : Type 0
Reader = Bytes → Result RuleError (List ReplyPart)

-- A name in braces and the text after it, which `read` reads.
unfoldable pub parse_closed :
    Reader → Bytes → Bytes → Option (Bytes × Bytes) → Result RuleError (List ReplyPart)
parse_closed read raw front none = err (unclosed raw)
parse_closed read raw front (some (name, rest)) =
    with_parts (literal_part front) (placeholder_part raw (trim name)) (read rest)

-- The text before the braces and after them, where there are any.
unfoldable pub parse_opened :
    Reader → Bytes → Bytes → Option (Bytes × Bytes) → Result RuleError (List ReplyPart)
unfolding parse_closed
parse_opened read raw rest none = ok (literal_part rest)
parse_opened read raw rest (some (front, after_open)) =
    parse_closed read raw front (cut_at close_braces after_open)

unfoldable pub template_loop : ℕ → Bytes → Reader
unfolding parse_opened
template_loop zero raw rest = err out_of_fuel
template_loop (suc fuel) raw rest =
    parse_opened (λ t. template_loop fuel raw t) raw rest (cut_at open_braces rest)

-- Every round but the last consumes the braces, so the length is fuel enough.
unfoldable pub parse_template : Bytes → Result RuleError (List ReplyPart)
parse_template raw = template_loop (suc (length raw)) raw raw

-- `Template::render`
module _ {V : Type 0} (serde : Serde V) where
  value_text : Option V → Bytes
  value_text none = codes "null"
  value_text (some v) = serde.to_string v

  pub render_piece : Bytes → ℕ → Option V → ReplyPart → Bytes
  unfolding value_text
  render_piece req n value (literal t) = t
  render_piece req n value request = req
  render_piece req n value seq = decimal n
  render_piece req n value (json pointer) = value_text (value >>= λ v. serde.pointer v pointer)

  unfoldable pub render_reply : Bytes → ℕ → Option V → List ReplyPart → Bytes
  unfolding render_piece
  render_reply req n value [] = []
  render_reply req n value (p ∷ ps) = render_piece req n value p ++ render_reply req n value ps

  -- `Rules::decide`; `is_utf8` is `str::from_utf8`.
  module _ (is_utf8 : Bytes → Bool) where
    abbrev pub text_of : Frame → Option Bytes
    text_of (text t) = some t
    text_of (binary b) = if is_utf8 b then some b else none
    text_of (ping b) = none
    text_of (pong b) = none
    text_of (close reason) = none

    -- `parsed`, whose value is kept once it is known.
    abbrev pub parsed : Frame → Option V
    parsed frame = text_of frame >>= serde.from_str

    abbrev pub is_text_frame : Bytes → Frame → Bool
    is_text_frame expected (text t) = text_eq t expected
    is_text_frame expected (binary b) = false
    is_text_frame expected (ping b) = false
    is_text_frame expected (pong b) = false
    is_text_frame expected (close reason) = false

    abbrev pub found_matches : Option V → Option V → Bool
    found_matches (some found) (some expected) = serde.same_value found expected
    found_matches (some found) none = true
    found_matches none equals = false

    unfoldable pub matches : Frame → Matcher V → Bool
    matches frame any_frame = true
    matches frame (text_is expected) = is_text_frame expected frame
    matches frame (json_at pointer equals) =
        found_matches (parsed frame >>= λ v. serde.pointer v pointer) equals

    abbrev pub is_json_part : ReplyPart → Bool
    is_json_part (literal t) = false
    is_json_part request = false
    is_json_part seq = false
    is_json_part (json pointer) = true

    abbrev pub any_json : List ReplyPart → Bool
    any_json [] = false
    any_json (p ∷ ps) = is_json_part p || any_json ps

    abbrev pub needs_json : List (List ReplyPart) → Bool
    needs_json [] = false
    needs_json (t ∷ ts) = any_json t || needs_json ts

    abbrev pub text_or_default : Frame → Bytes
    text_or_default frame = elim (text_of frame) [ some t ↦ t | none ↦ [] ]

    unfoldable pub reply_of : Frame → ℕ → Rule V → Decision
    reply_of frame n rule =
        let value = if needs_json rule.replies then parsed frame else none in
        reply (map (λ t. text (render_reply (text_or_default frame) n value t)) rule.replies)
          rule.delay rule.closing_frame

    abbrev pub unmatched_decision : Unmatched → Decision
    unmatched_decision echo = echoed
    unmatched_decision ignore = ignored

    unfoldable pub decide_among : Frame → ℕ → Unmatched → List (Rule V) → Decision
    decide_among frame n unmatched [] = unmatched_decision unmatched
    decide_among frame n unmatched (rule ∷ others) =
        let later = decide_among frame n unmatched others in
        if ltb n rule.after
        then later
        else if matches frame rule.matcher
        then reply_of frame n rule
        else later

    unfoldable pub decide : Rules V → Frame → ℕ → Decision
    decide rules frame n = decide_among frame n rules.unmatched rules.rules
