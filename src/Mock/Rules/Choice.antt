-- ===== src/Mock/Rules/Choice.antt =====
-- mock/rules.rs: the rule that decides, against a description of the first one that applies.
use wsblast.Common.{
  ℕ, ◌≤◌, ◌≡◌, refl, ap, ap₂, ◌∙◌, ◌⊎◌, inl, inr, Bool, true, false, Bool-cases, or_left, or_right,
  if_intro, Option, none, some, ◌>>=◌, bind_cases, List, [], ◌∷◌, ◌++◌, map, All, Bytes, ltb,
  ltb→lt, arith,
}
use wsblast.Common.Text.{text_eq_sound, text_eq_refl}
use wsblast.Json.{Serde}
use wsblast.SocketIo.Frame.{Frame, text, binary, ping, pong, close}
use wsblast.Mock.Rules.{
  Unmatched, Matcher, any_frame, text_is, json_at, ReplyPart, literal, request, seq, json, Rule,
  Rules, Decision, reply, render_piece, render_reply, parsed, is_text_frame, found_matches, matches,
  is_json_part, any_json, needs_json, text_or_default, reply_of, unmatched_decision, decide_among,
  decide,
}

module _ {V : Type 0} (serde : Serde V) (is_utf8 : Bytes → Bool) where
  abbrev pub Equals : V → Option V → Type 0
  Equals found none = Unit {0}
  Equals found (some expected) = serde.same_value found expected ≡ true

  abbrev pub Matches : Frame → Matcher V → Type 0
  Matches frame any_frame = Unit {0}
  Matches frame (text_is t) = frame ≡ text t
  Matches frame (json_at pointer equals) =
      (v : V) × (w : V) × (parsed serde is_utf8 frame ≡ some v)
      × (serde.pointer v pointer ≡ some w)
      × Equals w equals

  abbrev pub Applies : Frame → ℕ → Rule V → Type 0
  Applies frame n rule = (rule.after ≤ n) × Matches frame rule.matcher

  -- What a rule answers, rendered with the frame's JSON.
  abbrev pub answer : Frame → ℕ → Rule V → Decision
  answer frame n rule =
      reply
        (map
          (λ t. text (
            render_reply serde (text_or_default serde is_utf8 frame) n (parsed serde is_utf8 frame)
              t))
          rule.replies)
        rule.delay rule.closing_frame

  abbrev pub IsFirst : Frame → ℕ → List (Rule V) → Rule V → Type 0
  IsFirst frame n rules rule =
      (before : List (Rule V)) × (after : List (Rule V)) × (rules ≡ before ++ (rule ∷ after))
      × All (λ r. ¬ (Applies frame n r)) before
      × Applies frame n rule

  abbrev pub Decided : Frame → ℕ → Unmatched → List (Rule V) → Decision → Type 0
  Decided frame n unmatched rules d =
      ((rule : Rule V) × IsFirst frame n rules rule × (d ≡ answer frame n rule))
      ⊎ (All (λ r. ¬ (Applies frame n r)) rules × (d ≡ unmatched_decision serde is_utf8 unmatched))

  is_text_frame-Matches :
      (t : Bytes) (frame : Frame) → is_text_frame serde is_utf8 t frame ≡ true → frame ≡ text t
  is_text_frame-Matches t (text s) h = ap text (text_eq_sound s t h)
  is_text_frame-Matches t (binary s) h = cc
  is_text_frame-Matches t (ping s) h = cc
  is_text_frame-Matches t (pong s) h = cc
  is_text_frame-Matches t (close s) h = cc

  is_text_frame_refl :
      (t : Bytes) (frame : Frame) → frame ≡ text t → is_text_frame serde is_utf8 t frame ≡ true
  is_text_frame_refl t frame e = rw e (text_eq_refl t)

  found-Equals :
      (w : V) (equals : Option V)
      → found_matches serde is_utf8 (some w) equals ≡ true
      → Equals w equals
  found-Equals w none h = tt
  found-Equals w (some e) h = h

  Equals-found :
      (w : V) (equals : Option V)
      → Equals w equals
      → found_matches serde is_utf8 (some w) equals ≡ true
  Equals-found w none h = refl
  Equals-found w (some e) h = h

  found_at_some :
      (o equals : Option V)
      → found_matches serde is_utf8 o equals ≡ true
      → (w : V) × (o ≡ some w) × Equals w equals
  found_at_some none equals h = cc
  found_at_some (some w) equals h = (w, refl, found-Equals w equals h)

  matches-Matches :
      (frame : Frame) (m : Matcher V) → matches serde is_utf8 frame m ≡ true → Matches frame m
  unfolding matches
  matches-Matches frame any_frame h = tt
  matches-Matches frame (text_is t) h = is_text_frame-Matches t frame h
  matches-Matches frame (json_at pointer equals) h =
      let (w, found, equal) = found_at_some _ equals h in
      bind_cases (parsed serde is_utf8 frame) _ found λ v is_json at. (v, w, is_json, at, equal)

  Matches-matches :
      (frame : Frame) (m : Matcher V) → Matches frame m → matches serde is_utf8 frame m ≡ true
  unfolding matches
  Matches-matches frame any_frame h = refl
  Matches-matches frame (text_is t) h = is_text_frame_refl t frame h
  Matches-matches frame (json_at pointer equals) (v, w, is_json, at, equal) =
      ap (λ o. found_matches serde is_utf8 (o >>= λ u. serde.pointer u pointer) equals) is_json
      ∙ ap (λ o. found_matches serde is_utf8 o equals) at
      ∙ Equals-found w equals equal

  render_piece_same :
      (req : Bytes) (n : ℕ) (value : Option V) (p : ReplyPart)
      → is_json_part serde is_utf8 p ≡ false
      → render_piece serde req n none p ≡ render_piece serde req n value p
  unfolding render_piece
  render_piece_same req n value (literal t) h = refl
  render_piece_same req n value request h = refl
  render_piece_same req n value seq h = refl
  render_piece_same req n value (json pointer) h = cc

  render_reply_same :
      (req : Bytes) (n : ℕ) (value : Option V) (ps : List ReplyPart)
      → any_json serde is_utf8 ps ≡ false
      → render_reply serde req n none ps ≡ render_reply serde req n value ps
  unfolding render_reply
  render_reply_same req n value [] h = refl
  render_reply_same req n value (p ∷ ps) h =
      ap₂ ◌++◌ (render_piece_same req n value p (or_left (is_json_part serde is_utf8 p) _ h))
        (render_reply_same req n value ps (or_right (is_json_part serde is_utf8 p) _ h))

  render_all_same :
      (req : Bytes) (n : ℕ) (value : Option V) (ts : List (List ReplyPart))
      → needs_json serde is_utf8 ts ≡ false
      → map (λ t. text (render_reply serde req n none t)) ts
        ≡ map (λ t. text (render_reply serde req n value t)) ts
  render_all_same req n value [] h = refl
  render_all_same req n value (t ∷ ts) h =
      ap₂ ◌∷◌ (ap text (render_reply_same req n value t (or_left (any_json serde is_utf8 t) _ h)))
        (render_all_same req n value ts (or_right (any_json serde is_utf8 t) _ h))

  reply_of-answer :
      (frame : Frame) (n : ℕ) (rule : Rule V)
      → reply_of serde is_utf8 frame n rule ≡ answer frame n rule
  unfolding reply_of
  reply_of-answer frame n rule = elim (Bool-cases (needs_json serde is_utf8 rule.replies)) [
    | inl needed ↦ rw needed
    | inr unneeded ↦ rw unneeded (
        ap (λ frames. reply frames rule.delay rule.closing_frame)
          (render_all_same (text_or_default serde is_utf8 frame) n (parsed serde is_utf8 frame)
            rule.replies unneeded))
  ]

  skips :
      (frame : Frame) (n : ℕ) (unmatched : Unmatched) (rule : Rule V) (others : List (Rule V))
      (d : Decision)
      → ¬ (Applies frame n rule)
      → Decided frame n unmatched others d
      → Decided frame n unmatched (rule ∷ others) d
  skips frame n unmatched rule others d misses
        (inl (r, (before, after, e, none_before, applies), same)) =
      inl (r, (rule ∷ before, after, ap (λ rs. rule ∷ rs) e, (misses, none_before), applies), same)
  skips frame n unmatched rule others d misses (inr (none_apply, same)) =
      inr ((misses, none_apply), same)

  decide_among-Decided :
      (frame : Frame) (n : ℕ) (unmatched : Unmatched) (rules : List (Rule V))
      → Decided frame n unmatched rules (decide_among serde is_utf8 frame n unmatched rules)
  unfolding decide_among
  decide_among-Decided frame n unmatched [] = inr (tt, refl)
  decide_among-Decided frame n unmatched (rule ∷ others) =
      let later = decide_among-Decided frame n unmatched others in
      if_intro (Decided frame n unmatched (rule ∷ others)) (ltb n rule.after) _ _
        (λ early.
          skips frame n unmatched rule others _
            (λ (due, matched). let before = ltb→lt n rule.after early in omega arith) later)
        (λ due.
          if_intro (Decided frame n unmatched (rule ∷ others))
            (matches serde is_utf8 frame rule.matcher) _ _
            (λ matched. inl (
              rule,
              ([], others, refl, tt, (ground arith, matches-Matches frame rule.matcher matched)),
              reply_of-answer frame n rule,
            ))
            (λ different.
              skips frame n unmatched rule others _
                (λ (after, matched). let same = Matches-matches frame rule.matcher matched in cc)
                later))

  -- The frame is answered as the first rule in the file says that applies to it: its number has been
  -- reached and its matcher fits, where a matcher on JSON compares the value at its pointer. Where no
  -- rule applies the file's choice for unmatched frames is taken.
  pub decide-Decided :
      (rules : Rules V) (frame : Frame) (n : ℕ)
      → Decided frame n rules.unmatched rules.rules (decide serde is_utf8 rules frame n)
  unfolding decide
  decide-Decided rules frame n = decide_among-Decided frame n rules.unmatched rules.rules
