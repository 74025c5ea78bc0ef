-- ===== src/Mock/Rules/Compile.antt =====
-- mock/rules.rs: a rules file that is read into rules, or the first thing that is wrong in it.
use wsblast.Common.{
  ℕ, ◌+◌, Option, none, some, List, [], ◌∷◌, Bytes, codes, length, ltb, ◌==◌, if◌then◌else◌,
}
use wsblast.Common.Results.{Result, ok, err, ◌>>=◌}
use wsblast.Common.Text.{starts_with_slash, text_eq}
use wsblast.Config.Durations.{DurationError, parse_human_duration, is_sendable_close_code}
use wsblast.Mock.Rules.{
  MatchSpec, OneOrMany, one, many, CloseSpec, code_only, full, RuleSpec, RulesFile, Matcher,
  any_frame, text_is, json_at, ReplyPart, Rule, Rules, RuleError, bad_pointer, text_and_json,
  equals_needs_json, needs_text_or_json, zero_after, needs_effect, bad_delay, bad_close_code,
  long_reason, RulesError, bad_version, no_rules, bad_rule, parse_template,
}

module _ {V : Type 0} where
  abbrev pub compile_json : Bytes → Option V → Result RuleError (Matcher V)
  compile_json pointer equals =
      if starts_with_slash pointer then ok (json_at pointer equals) else err (bad_pointer pointer)

  abbrev pub compile_parts : Option Bytes → Option Bytes → Option V → Result RuleError (Matcher V)
  compile_parts (some t) (some pointer) equals = err text_and_json
  compile_parts (some t) none (some e) = err equals_needs_json
  compile_parts (some t) none none = ok (text_is t)
  compile_parts none (some pointer) equals = compile_json pointer equals
  compile_parts none none equals = err needs_text_or_json

  abbrev pub compile_match : Option (MatchSpec V) → Result RuleError (Matcher V)
  compile_match none = ok any_frame
  compile_match (some spec) = compile_parts spec.text_spec spec.json_spec spec.equals_spec

  abbrev pub check_some : List (RuleSpec V) → Result RulesError (List (RuleSpec V))
  check_some [] = err no_rules
  check_some (spec ∷ specs) = ok (spec ∷ specs)

abbrev pub compile_after : Option ℕ → Result RuleError ℕ
compile_after none = ok 1
compile_after (some n) = if n == 0 then err zero_after else ok n

-- The texts of the replies; a rule needs them or a close.
abbrev pub reply_texts : Option OneOrMany → Option CloseSpec → Result RuleError (List Bytes)
reply_texts none none = err needs_effect
reply_texts none (some c) = ok []
reply_texts (some (one t)) c = ok (t ∷ [])
reply_texts (some (many ts)) c = ok ts

unfoldable pub compile_replies : List Bytes → Result RuleError (List (List ReplyPart))
compile_replies [] = ok []
compile_replies (t ∷ ts) = do
  parts ← parse_template t
  others ← compile_replies ts
  ok (parts ∷ others)

abbrev pub delay_of : Result DurationError ℕ → Result RuleError (Option ℕ)
delay_of (ok nanos) = ok (some nanos)
delay_of (err e) = err (bad_delay e)

abbrev pub compile_delay : (Bytes → ℕ → Option ℕ) → Option Bytes → Result RuleError (Option ℕ)
compile_delay fractional none = ok none
compile_delay fractional (some raw) = delay_of (parse_human_duration fractional raw)

abbrev pub check_close : ℕ → Bytes → Result RuleError (Option (ℕ × Bytes))
check_close code reason =
    if is_sendable_close_code code
    then if ltb 123 (length reason) then err long_reason else ok (some (code, reason))
    else err (bad_close_code code)

abbrev pub compile_close : Option CloseSpec → Result RuleError (Option (ℕ × Bytes))
compile_close none = ok none
compile_close (some (code_only code)) = check_close code []
compile_close (some (full code reason)) = check_close code reason

abbrev pub check_version : Bytes → Result RulesError Bytes
check_version version =
    if text_eq version (codes "1.0") then ok version else err (bad_version version)

-- `fractional` reads a duration that is no whole number.
module _ {V : Type 0} (fractional : Bytes → ℕ → Option ℕ) where
  unfoldable pub compile : RuleSpec V → Result RuleError (Rule V)
  compile spec = do
    matcher ← compile_match spec.match_spec
    after ← compile_after spec.after_spec
    texts ← reply_texts spec.reply_spec spec.close_spec
    replies ← compile_replies texts
    delay ← compile_delay fractional spec.delay_spec
    close ← compile_close spec.close_spec
    ok (record {
      matcher = matcher;
      after = after;
      replies = replies;
      delay = delay;
      closing_frame = close;
    })

  abbrev pub with_number : ℕ → Result RuleError (Rule V) → Result RulesError (Rule V)
  with_number n (ok rule) = ok rule
  with_number n (err e) = err (bad_rule n e)

  -- The rules from the one at an index on.
  unfoldable pub compile_rules : ℕ → List (RuleSpec V) → Result RulesError (List (Rule V))
  compile_rules index [] = ok []
  compile_rules index (spec ∷ specs) = do
    rule ← with_number (index + 1) (compile spec)
    rules ← compile_rules (index + 1) specs
    ok (rule ∷ rules)

  -- `Rules::parse`, once the YAML is read.
  unfoldable pub parse_rules : RulesFile V → Bytes → Result RulesError (Rules V)
  parse_rules file source = do
    version ← check_version file.version
    specs ← check_some file.rule_specs
    rules ← compile_rules 0 specs
    ok (record { source = source; rules = rules; unmatched = file.unmatched_spec })
