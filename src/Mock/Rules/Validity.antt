-- ===== src/Mock/Rules/Validity.antt =====
-- mock/rules.rs: what a rules file that is accepted has, and which rule an error is about.
use wsblast.Common.{
  ℕ, ◌+◌, ◌≤◌, ◌≡◌, refl, sym, ap, subst, ◌⊎◌, inl, inr, Bool, true, false, Bool-cases, if_intro,
  Option, none, some, List, [], ◌∷◌, ◌++◌, All, Bytes, codes, length, ltb, ◌==◌, arith,
}
use wsblast.Common.Results.{Result, ok, err, ◌>>=◌, ok_cases}
use wsblast.Common.Text.{starts_with_slash, text_eq, text_eq_sound}
use wsblast.Config.Durations.{is_sendable_close_code}
use wsblast.Mock.Rules.{
  MatchSpec, CloseSpec, code_only, full, RuleSpec, RulesFile, Matcher, any_frame, text_is, json_at,
  Rule, Rules, RuleError, RulesError, bad_version, no_rules, bad_rule,
}
use wsblast.Mock.Rules.Compile.{
  compile_parts, compile_match, compile_after, reply_texts, compile_replies, compile_delay,
  check_close, compile_close, compile, compile_rules, check_some, parse_rules,
}

-- The codes that RFC 6455, the registry, libraries and applications send.
abbrev pub IsSendable : ℕ → Type 0
IsSendable code =
    ((1000 ≤ code) × (code ≤ 1003))
    ⊎ (((1007 ≤ code) × (code ≤ 1014)) ⊎ ((3000 ≤ code) × (code ≤ 4999)))

abbrev pub FitsClose : Option (ℕ × Bytes) → Type 0
FitsClose none = Unit {0}
FitsClose (some (code, reason)) = IsSendable code × (2 + length reason ≤ 125)

abbrev pub FitsMatcher : {V : Type 0} → Matcher V → Type 0
FitsMatcher any_frame = Unit {0}
FitsMatcher (text_is t) = Unit {0}
FitsMatcher (json_at pointer equals) = (p : Bytes) × (pointer ≡ b'/' ∷ p)

-- What a connection relies on when it follows a rule.
pub record IsValid {V : Type 0} (rule : Rule V) : Type 0 where
  pub pointer_fits : FitsMatcher rule.matcher
  pub counts_from_one : 1 ≤ rule.after
  pub close_fits : FitsClose rule.closing_frame

slash_first : (p : Bytes) → starts_with_slash p ≡ true → (q : Bytes) × (p ≡ b'/' ∷ q)
slash_first [] h = cc
slash_first (c ∷ cs) h = (cs, ap (λ d. d ∷ cs) (ground arith))

abbrev Good {ℓ κ} : {E : Type ℓ} {A : Type κ} → (A → Type 0) → Result E A → Type 0
Good P (ok a) = P a
Good P (err e) = Unit {0}

good_ok {ℓ κ} :
    {E : Type ℓ} {A : Type κ} (P : A → Type 0) (r : Result E A) (a : A) → Good P r → r ≡ ok a → P a
good_ok P (ok b) a h e = let same : b ≡ a = cc in subst P same h
good_ok P (err x) a h e = cc

module _ {V : Type 0} where
  parts-FitsMatcher :
      (t pointer : Option Bytes) (equals : Option V)
      → Good (FitsMatcher {V = V}) (compile_parts t pointer equals)
  parts-FitsMatcher (some t) (some p) equals = tt
  parts-FitsMatcher (some t) none (some e) = tt
  parts-FitsMatcher (some t) none none = tt
  parts-FitsMatcher none (some p) equals =
      if_intro (Good (FitsMatcher {V = V})) (starts_with_slash p) _ _ (slash_first p) (λ h. tt)
  parts-FitsMatcher none none equals = tt

  match-FitsMatcher :
      (spec : Option (MatchSpec V)) → Good (FitsMatcher {V = V}) (compile_match spec)
  match-FitsMatcher none = tt
  match-FitsMatcher (some spec) = parts-FitsMatcher spec.text_spec spec.json_spec spec.equals_spec

after_counts : (spec : Option ℕ) → Good (λ n. 1 ≤ n) (compile_after spec)
after_counts none = omega arith
after_counts (some n) = if_intro (Good (λ n. 1 ≤ n)) (n == 0) _ _ (λ h. tt) (λ h. ground arith)

check-FitsClose : (code : ℕ) (reason : Bytes) → Good FitsClose (check_close code reason)
check-FitsClose code reason =
    if_intro (Good FitsClose) (is_sendable_close_code code) _ _
      (λ sendable.
        if_intro (Good FitsClose) (ltb 123 (length reason)) _ _ (λ long. tt)
          (λ short. (ground arith, ground arith)))
      (λ other. tt)

close-FitsClose : (spec : Option CloseSpec) → Good FitsClose (compile_close spec)
close-FitsClose none = tt
close-FitsClose (some (code_only code)) = check-FitsClose code []
close-FitsClose (some (full code reason)) = check-FitsClose code reason

module _ {V : Type 0} (fractional : Bytes → ℕ → Option ℕ) where
  compile-IsValid :
      (spec : RuleSpec V) (rule : Rule V) → compile fractional spec ≡ ok rule → IsValid rule
  unfolding compile
  compile-IsValid spec rule e = ok_cases (compile_match spec.match_spec) _ e λ matcher matched e₁.
      ok_cases (compile_after spec.after_spec) _ e₁ λ after counted e₂.
        ok_cases (reply_texts spec.reply_spec spec.close_spec) _ e₂ λ texts listed e₃.
          ok_cases (compile_replies texts) _ e₃ λ replies read e₄.
            ok_cases (compile_delay fractional spec.delay_spec) _ e₄ λ delay delayed e₅.
              ok_cases (compile_close spec.close_spec) _ e₅ λ close closed e₆.
                let made : Rule V = record {
                  matcher = matcher;
                  after = after;
                  replies = replies;
                  delay = delay;
                  closing_frame = close;
                } in
                let same : made ≡ rule = cc in
                subst IsValid same (record {
                  pointer_fits =
                      good_ok FitsMatcher _ matcher (match-FitsMatcher spec.match_spec) matched;
                  counts_from_one =
                      good_ok (λ n. 1 ≤ n) _ after (after_counts spec.after_spec) counted;
                  close_fits = good_ok FitsClose _ close (close-FitsClose spec.close_spec) closed;
                })

  -- Each rule is what its specification compiles to.
  abbrev pub Pairs : List (RuleSpec V) → List (Rule V) → Type 0
  Pairs [] [] = Unit {0}
  Pairs [] (r ∷ rs) = ◌≡◌ {A = Bool} true false
  Pairs (s ∷ ss) [] = ◌≡◌ {A = Bool} true false
  Pairs (s ∷ ss) (r ∷ rs) = (compile fractional s ≡ ok r) × IsValid r × Pairs ss rs

  abbrev pub Compiles : RuleSpec V → Type 0
  Compiles s = (r : Rule V) × (compile fractional s ≡ ok r)

  -- The rule with a number, from `index + 1` on, fails, and all before it compile.
  abbrev pub FailsAt : ℕ → List (RuleSpec V) → ℕ → RuleError → Type 0
  FailsAt index specs n e =
      (before : List (RuleSpec V)) × (s : RuleSpec V) × (after : List (RuleSpec V)) × (specs
        ≡ before ++ (s ∷ after))
      × (n ≡ index + length before + 1)
      × (compile fractional s ≡ err e)
      × All Compiles before

  abbrev pub Outcome : ℕ → List (RuleSpec V) → Result RulesError (List (Rule V)) → Type 0
  Outcome index specs (ok rules) = Pairs specs rules
  Outcome index specs (err (bad_rule n e)) = FailsAt index specs n e
  Outcome index specs (err (bad_version v)) = ◌≡◌ {A = Bool} true false
  Outcome index specs (err no_rules) = ◌≡◌ {A = Bool} true false

  outcome_step :
      (index : ℕ) (s : RuleSpec V) (ss : List (RuleSpec V)) (r : Rule V)
      (later : Result RulesError (List (Rule V)))
      → compile fractional s ≡ ok r
      → Outcome (index + 1) ss later
      → Outcome index (s ∷ ss) (later >>= λ rules. ok (r ∷ rules))
  outcome_step index s ss r (ok rules) e h = (e, compile-IsValid s r e, h)
  outcome_step index s ss r (err (bad_rule n x)) e (before, t, after, split, count, fails, fine) =
      (s ∷ before, t, after, ap (λ us. s ∷ us) split, omega (arith, count), fails, ((r, e), fine))
  outcome_step index s ss r (err (bad_version v)) e h = h
  outcome_step index s ss r (err no_rules) e h = h

  Result-cases :
      (m : Result RuleError (Rule V))
      → ((r : Rule V) × (m ≡ ok r)) ⊎ ((e : RuleError) × (m ≡ err e))
  Result-cases (ok r) = inl (r, refl)
  Result-cases (err e) = inr (e, refl)

  compile_rules-Outcome :
      (index : ℕ) (specs : List (RuleSpec V))
      → Outcome index specs (compile_rules fractional index specs)
  unfolding compile_rules
  compile_rules-Outcome index [] = tt
  compile_rules-Outcome index (s ∷ ss) = elim (Result-cases (compile fractional s)) [
    | inl (r, e) ↦ rw e (
        outcome_step index s ss r (compile_rules fractional (index + 1) ss) e
          (compile_rules-Outcome (index + 1) ss))
    | inr (x, e) ↦ rw e ([], s, ss, refl, omega arith, e, tt)
  ]

  abbrev pub FileOutcome : RulesFile V → Result RulesError (Rules V) → Type 0
  FileOutcome file (ok rules) =
      (file.version ≡ codes "1.0")
      × (1 ≤ length file.rule_specs)
      × Pairs file.rule_specs rules.rules
      × (rules.unmatched ≡ file.unmatched_spec)
  FileOutcome file (err (bad_version v)) = (v ≡ file.version) × (text_eq v (codes "1.0") ≡ false)
  FileOutcome file (err no_rules) = file.rule_specs ≡ []
  FileOutcome file (err (bad_rule n e)) = FailsAt 0 file.rule_specs n e

  finish-FileOutcome :
      (file : RulesFile V) (source : Bytes) (r : Result RulesError (List (Rule V)))
      → file.version ≡ codes "1.0"
      → 1 ≤ length file.rule_specs
      → Outcome 0 file.rule_specs r
      → FileOutcome file (
          r >>= λ rules.
          ok (record { source = source; rules = rules; unmatched = file.unmatched_spec }))
  finish-FileOutcome file source (ok rules) v some_rule h = (v, some_rule, h, refl)
  finish-FileOutcome file source (err (bad_rule n e)) v some_rule h = h
  finish-FileOutcome file source (err (bad_version x)) v some_rule h = cc
  finish-FileOutcome file source (err no_rules) v some_rule h = cc

  specs-FileOutcome :
      (file : RulesFile V) (source : Bytes) (specs : List (RuleSpec V))
      → file.version ≡ codes "1.0"
      → file.rule_specs ≡ specs
      → FileOutcome file (
          check_some specs >>= λ ss. compile_rules fractional 0 ss >>= λ rules.
          ok (record { source = source; rules = rules; unmatched = file.unmatched_spec }))
  specs-FileOutcome file source [] v e = e
  specs-FileOutcome file source (s ∷ ss) v e =
      finish-FileOutcome file source (compile_rules fractional 0 (s ∷ ss)) v
        (subst (λ us. 1 ≤ length us) (sym e) (omega arith))
        (subst (λ us. Outcome 0 us (compile_rules fractional 0 (s ∷ ss))) (sym e)
          (compile_rules-Outcome 0 (s ∷ ss)))

  -- A rules file that is accepted has the version 1.0 and a rule at least, and every rule is what
  -- its entry compiles to and is valid: it counts frames from one, a pointer starts with a slash,
  -- and a close has a code that may be sent and a reason that fits its frame. A file that is refused
  -- has another version or no rule, or the entry with the number in the error is the first that
  -- does not compile.
  pub parse_rules-FileOutcome :
      (file : RulesFile V) (source : Bytes) → FileOutcome file (parse_rules fractional file source)
  unfolding parse_rules
  parse_rules-FileOutcome file source = elim (Bool-cases (text_eq file.version (codes "1.0"))) [
    | inl same ↦ rw same (
        specs-FileOutcome file source file.rule_specs
          (text_eq_sound file.version (codes "1.0") same) refl)
    | inr other ↦ rw other (refl, other)
  ]
