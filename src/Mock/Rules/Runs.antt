-- ===== src/Mock/Rules/Runs.antt =====
-- mock/rules.rs at a concrete file.
use wsblast.Common.{ℕ, ◌≡◌, refl, Option, none, some, [], ◌∷◌, Bytes, codes}
use wsblast.Common.Results.{ok, err}
use wsblast.Common.Text.{cut_at}
use wsblast.Common.Decimal.{decimal}
use wsblast.Config.Durations.{parse_human_duration, by_unit, try_unit, scale_duration}
use wsblast.Json.Toy.{toy, any_bytes}
use wsblast.SocketIo.Frame.{text, binary}
use wsblast.Mock.Rules.{
  echo, RuleSpec, RulesFile, one, full, Matcher, json_at, literal, seq, json, Rule, Rules, echoed,
  reply, bad_close_code, bad_rule, unclosed, unknown_placeholder, parse_closed, parse_opened,
  template_loop, parse_template, render_piece, render_reply, matches, reply_of, decide_among,
  decide,
}
use wsblast.Mock.Rules.Compile.{compile_replies, compile, compile_rules, parse_rules}
use wsblast.Mock.Rules.Templates.{written, parts_of, parse_template-written}
use wsblast.Mock.Rules.Choice.{Decided, decide-Decided}
use wsblast.Mock.Rules.Validity.{FileOutcome, parse_rules-FileOutcome}

abbrev no_fraction : Bytes → ℕ → Option ℕ
no_fraction value nanos_per_unit = none

abbrev subscribe_spec : RuleSpec Bytes
subscribe_spec = record {
  match_spec = some (record {
    text_spec = none;
    json_spec = some (codes "/type");
    equals_spec = some (codes "subscribe");
  });
  after_spec = none;
  reply_spec = some (one (codes "ack {{seq}} {{json:/type}}"));
  delay_spec = some (codes "20ms");
  close_spec = none;
}

abbrev done_spec : ℕ → RuleSpec Bytes
done_spec code = record {
  match_spec = none;
  after_spec = some 100;
  reply_spec = none;
  delay_spec = none;
  close_spec = some (full code (codes "done"));
}

abbrev subscribe : Rule Bytes
subscribe = record {
  matcher = json_at (codes "/type") (some (codes "subscribe"));
  after = 1;
  replies = (literal (codes "ack ") ∷ seq ∷ literal (codes " ") ∷ json (codes "/type") ∷ []) ∷ [];
  delay = some 20000000;
  closing_frame = none;
}

abbrev done : Rule Bytes
done = record {
  matcher = Matcher.any_frame;
  after = 100;
  replies = [];
  delay = none;
  closing_frame = some (4000, codes "done");
}

abbrev file : ℕ → RulesFile Bytes
file code = record {
  version = codes "1.0";
  rule_specs = subscribe_spec ∷ done_spec code ∷ [];
  unmatched_spec = echo;
}

abbrev two_rules : Rules Bytes
two_rules = record { source = codes "rules.yaml"; rules = subscribe ∷ done ∷ []; unmatched = echo }

file_read : parse_rules no_fraction (file 4000) (codes "rules.yaml") ≡ ok two_rules
unfolding parse_rules compile_rules compile compile_replies parse_template template_loop
    parse_opened parse_closed cut_at parse_human_duration by_unit try_unit scale_duration
file_read = refl

second_refused :
    parse_rules no_fraction (file 1005) (codes "rules.yaml")
    ≡ err (bad_rule 2 (bad_close_code 1005))
unfolding parse_rules compile_rules compile compile_replies parse_template template_loop
    parse_opened parse_closed cut_at parse_human_duration by_unit try_unit scale_duration
second_refused = refl

brace_open : parse_template (codes "a{{seq") ≡ err (unclosed (codes "a{{seq"))
unfolding parse_template template_loop parse_opened parse_closed cut_at
brace_open = refl

name_unknown :
    parse_template (codes "{{ time }}")
    ≡ err (unknown_placeholder (codes "{{ time }}") (codes "time"))
unfolding parse_template template_loop parse_opened parse_closed cut_at
name_unknown = refl

subscribed :
    decide toy any_bytes two_rules (binary (codes "{subscribe")) 7
    ≡ reply (text (codes "ack 7 {subscribe") ∷ []) (some 20000000) none
unfolding decide decide_among matches reply_of render_reply render_piece decimal cut_at
subscribed = refl

closes_after :
    decide toy any_bytes two_rules (text (codes "x")) 100
    ≡ reply [] none (some (4000, codes "done"))
unfolding decide decide_among matches reply_of
closes_after = refl

echoes_before : decide toy any_bytes two_rules (text (codes "x")) 99 ≡ echoed
unfolding decide decide_among matches
echoes_before = refl

decide-Decided_example :
    Decided toy any_bytes
      (text (codes "x"))
      100
      echo
      (subscribe ∷ done ∷ [])
      (decide toy any_bytes two_rules (text (codes "x")) 100)
decide-Decided_example = decide-Decided toy any_bytes two_rules (text (codes "x")) 100

parse_rules-FileOutcome_example :
    FileOutcome no_fraction (file 1005) (parse_rules no_fraction (file 1005) (codes "rules.yaml"))
parse_rules-FileOutcome_example =
    parse_rules-FileOutcome no_fraction (file 1005) (codes "rules.yaml")

parse_template-written_example :
    parse_template (written ((codes "ack ", seq) ∷ ([], json (codes "/id")) ∷ []) (codes "!"))
    ≡ ok (parts_of ((codes "ack ", seq) ∷ ([], json (codes "/id")) ∷ []) (codes "!"))
parse_template-written_example =
    parse_template-written ((codes "ack ", seq) ∷ ([], json (codes "/id")) ∷ []) (codes "!")
      (
        ((refl, (refl, (refl, (refl, tt)))), tt),
        ((tt, (refl, (refl, (refl, (refl, tt))), refl)), tt),
      )
      (refl, tt)
