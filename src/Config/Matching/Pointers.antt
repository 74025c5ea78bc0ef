-- ===== src/Config/Matching/Pointers.antt =====
-- config.rs: the pointers of RFC 6901 and the flags that are accepted.
use wsblast.Common.{
  ℕ, ◌≡◌, refl, sym, ap, ◌∙◌, ◌↔◌, Bool, true, false, ◌&&◌, ◌||◌, and_left, and_right, Bool-cases,
  inl, inr, Option, none, some, List, [], ◌∷◌, ◌++◌, Bytes, codes, ◌==◌, if◌then◌else◌, if_intro,
  subst, arith,
}
use wsblast.Common.Results.{Result, ok, err}
use wsblast.Common.Text.{text_eq, text_eq_sound, strip_prefix, strip_prefix_sound}
use wsblast.Config.Matching.{
  ReplyMatch, first, exact, json_pointer, MatchError, pointer_chars, is_json_pointer, match_flag,
  pointer_match, parse_match,
}

-- RFC 6901: a token's `~` is written `~0` and its `/` is written `~1`.
unfoldable pub escaped : Bytes → Bytes
escaped [] = []
escaped (c ∷ cs) =
    let rest = escaped cs in
    if c == b'~' then b'~' ∷ (b'0' ∷ rest) else if c == b'/' then b'~' ∷ (b'1' ∷ rest) else c ∷ rest

-- A pointer is its tokens, each after a `/`.
unfoldable pub written_pointer : List Bytes → Bytes
unfolding escaped
written_pointer [] = []
written_pointer (token ∷ tokens) = b'/' ∷ (escaped token ++ written_pointer tokens)

Tail : Bytes → Type 0
Tail s = (token : Bytes) × (tokens : List Bytes) × (s ≡ escaped token ++ written_pointer tokens)

nothing_left : Tail []
unfolding Tail escaped written_pointer
nothing_left = ([], [], refl)

plain-Tail : (c : ℕ) (cs : Bytes) → (c == b'~') ≡ false → Tail cs → Tail (c ∷ cs)
unfolding Tail escaped written_pointer
plain-Tail c cs other (token, tokens, e) = elim (Bool-cases (c == b'/')) [
  | inl t ↦
      let same : c ≡ b'/' = ground arith in
      ([], token ∷ tokens, rw same (ap (λ (s : Bytes). b'/' ∷ s) e))
  | inr t ↦ (c ∷ token, tokens, rw (other, t) (ap (λ (s : Bytes). c ∷ s) e))
]

escape-Tail :
    (c d : ℕ) (cs : Bytes)
    → (c == b'~') ≡ true
    → (d == b'0' || d == b'1') ≡ true
    → Tail cs
    → Tail (c ∷ d ∷ cs)
unfolding Tail escaped
escape-Tail c d cs t u (token, tokens, e) =
    let tilde : c ≡ b'~' = ground arith in
    elim (Bool-cases (d == b'0')) [
      | inl v ↦
          let zeroed : d ≡ b'0' = ground arith in
          (b'~' ∷ token, tokens, rw (tilde, zeroed) (ap (λ (s : Bytes). b'~' ∷ b'0' ∷ s) e))
      | inr v ↦
          let one : d ≡ b'1' = ground arith in
          (b'/' ∷ token, tokens, rw (tilde, one) (ap (λ (s : Bytes). b'~' ∷ b'1' ∷ s) e))
    ]

pointer_chars-Tail : (s : Bytes) → pointer_chars s ≡ true → Tail s
unfolding pointer_chars
pointer_chars-Tail [] h = nothing_left
pointer_chars-Tail (c ∷ []) h = plain-Tail c [] (ground arith) nothing_left
pointer_chars-Tail (c ∷ d ∷ cs) h = elim (Bool-cases (c == b'~')) [
  | inl t ↦
      let both : ((d == b'0' || d == b'1') && pointer_chars cs) ≡ true = ground arith in
      escape-Tail c d cs t (and_left (d == b'0' || d == b'1') (pointer_chars cs) both)
        (pointer_chars-Tail cs (and_right (d == b'0' || d == b'1') (pointer_chars cs) both))
  | inr t ↦ plain-Tail c (d ∷ cs) t (pointer_chars-Tail (d ∷ cs) (ground arith))
]

-- What is written of tokens is read.
plain_char : (c : ℕ) (s : Bytes) → (c == b'~') ≡ false → pointer_chars (c ∷ s) ≡ pointer_chars s
unfolding pointer_chars
plain_char c [] h = rw h refl
plain_char c (d ∷ cs) h = rw h refl

pointer_chars-escaped :
    (token rest : Bytes) → pointer_chars (escaped token ++ rest) ≡ pointer_chars rest
unfolding escaped pointer_chars
pointer_chars-escaped [] rest = refl
pointer_chars-escaped (c ∷ cs) rest =
    let ih = pointer_chars-escaped cs rest in
    if_intro (λ (s : Bytes). pointer_chars (s ++ rest) ≡ pointer_chars rest) (c == b'~') _ _
      (λ t. ih)
      (λ t.
        if_intro (λ (s : Bytes). pointer_chars (s ++ rest) ≡ pointer_chars rest) (c == b'/') _ _
          (λ u. ih) (λ u. plain_char c (escaped cs ++ rest) t ∙ ih))

all_read : pointer_chars [] ≡ true
unfolding pointer_chars
all_read = refl

pointer_chars-written : (tokens : List Bytes) → pointer_chars (written_pointer tokens) ≡ true
unfolding written_pointer
pointer_chars-written [] = all_read
pointer_chars-written (token ∷ tokens) =
    plain_char b'/' (escaped token ++ written_pointer tokens) refl
    ∙ pointer_chars-escaped token (written_pointer tokens)
    ∙ pointer_chars-written tokens

read_tokens :
    (p : Bytes) → is_json_pointer p ≡ true → (tokens : List Bytes) × (p ≡ written_pointer tokens)
unfolding is_json_pointer written_pointer Tail
read_tokens [] h = ([], refl)
read_tokens (c ∷ cs) h =
    let slash : c ≡ b'/' = ground (arith, and_left (c == b'/') (pointer_chars (c ∷ cs)) h) in
    let read = and_right (c == b'/') (pointer_chars (c ∷ cs)) h in
    let plain : (c == b'~') ≡ false = ground arith in
    let (token, tokens, e) = pointer_chars-Tail cs (sym (plain_char c cs plain) ∙ read) in
    (token ∷ tokens, rw slash (ap (λ (s : Bytes). b'/' ∷ s) e))

is_json_pointer-written : (tokens : List Bytes) → is_json_pointer (written_pointer tokens) ≡ true
unfolding is_json_pointer written_pointer
is_json_pointer-written [] = refl
is_json_pointer-written (token ∷ tokens) = pointer_chars-written (token ∷ tokens)

-- A text is taken for a JSON pointer exactly where it is what RFC 6901 writes for some tokens.
pub is_json_pointer_iff :
    (p : Bytes)
    → (is_json_pointer p ≡ true) ↔ ((tokens : List Bytes) × (p ≡ written_pointer tokens))
is_json_pointer_iff p = (
  read_tokens p,
  λ found. let (tokens, e) = found in ap is_json_pointer e ∙ is_json_pointer-written tokens,
)

-- The rules whose flags are accepted: the text of a pointer is written for some tokens.
abbrev pub IsRule : ReplyMatch → Type 0
IsRule first = Unit {0}
IsRule exact = Unit {0}
IsRule (json_pointer pointer) = (tokens : List Bytes) × (pointer ≡ written_pointer tokens)

parse-flag : (r : ReplyMatch) → IsRule r → parse_match (match_flag r) ≡ ok r
unfolding parse_match match_flag
parse-flag first h = refl
parse-flag exact h = refl
parse-flag (json_pointer pointer) h =
    let (from, to) = is_json_pointer_iff pointer in let reads = to h in rw reads refl

ok_where :
    (b : Bool) (a r : ReplyMatch) (e : MatchError)
    → (if b then ok a else err e) ≡ ok r
    → (b ≡ true) × (a ≡ r)
ok_where true a r e h = (refl, cc)
ok_where false a r e h = cc

-- A text that names a rule is its flag.
named :
    (flag raw : Bytes) (a r : ReplyMatch)
    → IsRule a
    → match_flag a ≡ flag
    → text_eq raw flag ≡ true
    → ◌≡◌ {A = Result MatchError ReplyMatch} (ok a) (ok r)
    → (match_flag r ≡ raw) × IsRule r
named flag raw a r rule f t h =
    let same : a ≡ r = cc in
    subst (λ r. (match_flag r ≡ raw) × IsRule r) same (f ∙ sym (text_eq_sound raw flag t), rule)

pointer_flag :
    (raw : Bytes) (o : Option Bytes) (r : ReplyMatch)
    → strip_prefix (codes "json:") raw ≡ o
    → pointer_match raw o ≡ ok r
    → (match_flag r ≡ raw) × IsRule r
unfolding match_flag
pointer_flag raw none r e h = cc
pointer_flag raw (some pointer) r e h =
    let (t, same) = ok_where (is_json_pointer pointer) (json_pointer pointer) r _ h in
    subst (λ r. (match_flag r ≡ raw) × IsRule r) same
      (sym (strip_prefix_sound (codes "json:") raw pointer e), read_tokens pointer t)

flag_of : (raw : Bytes) (r : ReplyMatch) → parse_match raw ≡ ok r → (match_flag r ≡ raw) × IsRule r
unfolding parse_match match_flag
flag_of raw r h =
    if_intro (λ (m : Result MatchError ReplyMatch). m ≡ ok r → (match_flag r ≡ raw) × IsRule r)
      (text_eq raw (codes "first")) _ _ (λ t. named (codes "first") raw first r tt refl t)
      (λ t.
        if_intro (λ (m : Result MatchError ReplyMatch). m ≡ ok r → (match_flag r ≡ raw) × IsRule r)
          (text_eq raw (codes "exact")) _ _ (λ u. named (codes "exact") raw exact r tt refl u)
          (λ u. pointer_flag raw (strip_prefix (codes "json:") raw) r refl))
      h

-- `--match` gives a rule exactly for the flag that the rule is written as, with a pointer that
-- RFC 6901 writes for some tokens: every other text is refused.
pub parse_match_iff :
    (raw : Bytes) (r : ReplyMatch) → (parse_match raw ≡ ok r) ↔ ((match_flag r ≡ raw) × IsRule r)
parse_match_iff raw r =
    (flag_of raw r, λ found. let (e, h) = found in ap parse_match (sym e) ∙ parse-flag r h)
