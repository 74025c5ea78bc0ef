-- ===== src/Common/Text.antt =====
-- The text functions of Rust's standard library that the modelled code calls, on ASCII bytes.
use mathlib.Core.List.{reverse, reverse-cons, append-nil, append_assoc}
use Prim.Native.Nat.{ℕ, ◌+◌, ◌-◌, ◌*◌}
use mathlib.Core.Bool.{Bool, true, false, ◌&&◌, ◌||◌}
use mathlib.Core.Path.{◌≡◌, refl, ap, ◌∙◌}
use mathlib.Core.Option.{Option, none, some}
use mathlib.Core.List.{List, [], ◌∷◌, ◌++◌, map}
use native.Mathlib.Omega.{arith}
use wsblast.Common.Tests.{leb, ◌==◌, if◌then◌else◌, if_intro}
use wsblast.Common.Lists.{Bytes, All, All-append}

-- `a == b` on texts.
abbrev pub text_eq : Bytes → Bytes → Bool
text_eq [] [] = true
text_eq [] (y ∷ ys) = false
text_eq (x ∷ xs) [] = false
text_eq (x ∷ xs) (y ∷ ys) = x == y && text_eq xs ys

pub text_eq_sound : (xs ys : Bytes) → text_eq xs ys ≡ true → xs ≡ ys
text_eq_sound [] [] e = refl
text_eq_sound [] (y ∷ ys) e = cc
text_eq_sound (x ∷ xs) [] e = cc
text_eq_sound (x ∷ xs) (y ∷ ys) e = ground (arith, text_eq_sound xs ys)

pub text_eq_refl : (xs : Bytes) → text_eq xs xs ≡ true
text_eq_refl [] = refl
text_eq_refl (x ∷ xs) = ground (arith, text_eq_refl xs)

-- `u8::to_ascii_lowercase`
abbrev pub lower : ℕ → ℕ
lower c = if leb b'A' c && leb c b'Z' then c + 32 else c

abbrev pub eq_ignore_ascii_case : Bytes → Bytes → Bool
eq_ignore_ascii_case xs ys = text_eq (map lower xs) (map lower ys)

-- `char::is_whitespace`, on ASCII.
abbrev pub is_whitespace : ℕ → Bool
is_whitespace c = (leb 9 c && leb c 13) || c == 32

abbrev pub drop_while : (ℕ → Bool) → Bytes → Bytes
drop_while p [] = []
drop_while p (c ∷ cs) = let rest = drop_while p cs in if p c then rest else c ∷ cs

abbrev pub trim_matches : (ℕ → Bool) → Bytes → Bytes
trim_matches p s = reverse (drop_while p (reverse (drop_while p s)))

abbrev pub trim : Bytes → Bytes
trim = trim_matches is_whitespace

-- `split`, with the piece that is being read: a text with no separator is one piece.
abbrev pub split_from : ℕ → Bytes → Bytes → List Bytes
split_from sep piece [] = reverse piece ∷ []
split_from sep piece (c ∷ cs) =
    let ended = reverse piece ∷ split_from sep [] cs in
    let longer = split_from sep (c ∷ piece) cs in if c == sep then ended else longer

abbrev pub split_on : ℕ → Bytes → List Bytes
split_on sep s = split_from sep [] s

abbrev pub split_once_from : ℕ → Bytes → Bytes → Option (Bytes × Bytes)
split_once_from sep front [] = none
split_once_from sep front (c ∷ cs) =
    let rest = split_once_from sep (c ∷ front) cs in
    if c == sep then some (reverse front, cs) else rest

abbrev pub split_once : ℕ → Bytes → Option (Bytes × Bytes)
split_once sep s = split_once_from sep [] s

abbrev pub is_digit : ℕ → Bool
is_digit c = leb b'0' c && leb c b'9'

-- `is_empty`
abbrev pub is_empty : Bytes → Bool
is_empty [] = true
is_empty (c ∷ cs) = false

-- `starts_with('/')`
abbrev pub starts_with_slash : Bytes → Bool
starts_with_slash [] = false
starts_with_slash (c ∷ cs) = c == b'/'

-- The digits of a number up to `max`; `none` on another character or above `max`.
abbrev pub digits_up_to : ℕ → ℕ → Bytes → Option ℕ
digits_up_to max n [] = some n
digits_up_to max n (c ∷ cs) =
    let n' = n * 10 + (c - b'0') in
    let rest = digits_up_to max n' cs in if is_digit c && leb n' max then rest else none

-- `str::parse` to an unsigned type with the largest value `max`: a `+` may stand in front.
abbrev pub parse_unsigned : ℕ → Bytes → Option ℕ
parse_unsigned max [] = none
parse_unsigned max (c ∷ []) = digits_up_to max 0 (c ∷ [])
parse_unsigned max (c ∷ d ∷ cs) =
    if c == b'+' then digits_up_to max 0 (d ∷ cs) else digits_up_to max 0 (c ∷ d ∷ cs)

-- `starts_with`, and what follows the prefix.
abbrev pub strip_prefix : Bytes → Bytes → Option Bytes
strip_prefix [] s = some s
strip_prefix (p ∷ ps) [] = none
strip_prefix (p ∷ ps) (c ∷ cs) = let rest = strip_prefix ps cs in if p == c then rest else none

abbrev pub turned : Option Bytes → Option Bytes
turned none = none
turned (some front) = some (reverse front)

-- `strip_suffix`, backwards.
abbrev pub strip_suffix : Bytes → Bytes → Option Bytes
strip_suffix p s = turned (strip_prefix (reverse p) (reverse s))

pub strip_prefix_sound : (p s rest : Bytes) → strip_prefix p s ≡ some rest → s ≡ p ++ rest
strip_prefix_sound [] s rest e = ground arith
strip_prefix_sound (p ∷ ps) [] rest e = cc
strip_prefix_sound (p ∷ ps) (c ∷ cs) rest e = ground (arith, strip_prefix_sound ps cs rest)

abbrev pub cut_step : Option Bytes → ℕ → Option (Bytes × Bytes) → Option (Bytes × Bytes)
cut_step (some rest) c later = some ([], rest)
cut_step none c none = none
cut_step none c (some (front, back)) = some (c ∷ front, back)

-- `find`: the text before the first place where `p` stands, and the text after `p`.
unfoldable pub cut_at : Bytes → Bytes → Option (Bytes × Bytes)
cut_at p [] = none
cut_at p (c ∷ cs) = let later = cut_at p cs in cut_step (strip_prefix p (c ∷ cs)) c later

cut_step_sound :
    (p : Bytes) (c : ℕ) (cs : Bytes) (o : Option Bytes) (later : Option (Bytes × Bytes))
    (front back : Bytes)
    → ((rest : Bytes) → o ≡ some rest → c ∷ cs ≡ p ++ rest)
    → ((f b : Bytes) → later ≡ some (f, b) → cs ≡ f ++ (p ++ b))
    → cut_step o c later ≡ some (front, back)
    → c ∷ cs ≡ front ++ (p ++ back)
cut_step_sound p c cs (some rest) later front back here there e =
    let hf : [] ≡ front = cc in let hb : rest ≡ back = cc in rw (← hf, ← hb) (here rest refl)
cut_step_sound p c cs none none front back here there e = cc
cut_step_sound p c cs none (some (f, b)) front back here there e =
    let hf : c ∷ f ≡ front = cc in
    let hb : b ≡ back = cc in rw (← hf, ← hb) (ap (λ (t : Bytes). c ∷ t) (there f b refl))

pub cut_at_sound :
    (p s front back : Bytes) → cut_at p s ≡ some (front, back) → s ≡ front ++ (p ++ back)
unfolding cut_at
cut_at_sound p [] front back e = cc
cut_at_sound p (c ∷ cs) front back e =
    cut_step_sound p c cs (strip_prefix p (c ∷ cs)) (cut_at p cs) front back
      (strip_prefix_sound p (c ∷ cs)) (cut_at_sound p cs) e

pub strip_prefix_append : (p rest : Bytes) → strip_prefix p (p ++ rest) ≡ some rest
strip_prefix_append [] rest = refl
strip_prefix_append (p ∷ ps) rest = ground (arith, strip_prefix_append ps rest)

-- A text in which a character does not stand.
abbrev pub Without : ℕ → Bytes → Type 0
Without c s = All (λ x. (c == x) ≡ false) s

pub cut_at_first :
    (c : ℕ) (p front back : Bytes)
    → Without c front
    → cut_at (c ∷ p) (front ++ ((c ∷ p) ++ back)) ≡ some (front, back)
unfolding cut_at
cut_at_first c p [] back h =
    ap (λ o. cut_step o c (cut_at (c ∷ p) (p ++ back))) (strip_prefix_append (c ∷ p) back)
cut_at_first c p (x ∷ xs) back (here, there) =
    rw here (ap (cut_step none x) (cut_at_first c p xs back there))

pub cut_at_absent : (c : ℕ) (p s : Bytes) → Without c s → cut_at (c ∷ p) s ≡ none
unfolding cut_at
cut_at_absent c p [] h = refl
cut_at_absent c p (x ∷ xs) (here, there) =
    rw here (ap (cut_step none x) (cut_at_absent c p xs there))

pub All-reverse : (P : ℕ → Type 0) (xs : Bytes) → All P xs → All P (reverse xs)
All-reverse P [] h = h
All-reverse P (x ∷ xs) (here, there) =
    rw (reverse-cons x xs) (All-append P (reverse xs) (x ∷ []) (All-reverse P xs there) (here, tt))

split_once_from_at :
    (sep : ℕ) (front xs rest : Bytes)
    → Without sep xs
    → split_once_from sep front (xs ++ (sep ∷ rest)) ≡ some (reverse front ++ xs, rest)
split_once_from_at sep front [] rest h =
    let here : (sep == sep) ≡ true = ground arith in rw (here, append-nil (reverse front))
split_once_from_at sep front (x ∷ xs) rest (here, there) =
    let other : (x == sep) ≡ false = ground arith in
    rw other (
      split_once_from_at sep (x ∷ front) xs rest there
      ∙ rw (reverse-cons x front)
          (ap (λ (t : Bytes). some (t, rest)) (append_assoc (reverse front) (x ∷ []) xs)))

-- A separator is found where it stands first.
pub split_once_first :
    (sep : ℕ) (xs rest : Bytes)
    → Without sep xs
    → split_once sep (xs ++ (sep ∷ rest)) ≡ some (xs, rest)
split_once_first sep xs rest h = split_once_from_at sep [] xs rest h

split_once_from_absent :
    (sep : ℕ) (front xs : Bytes) → Without sep xs → split_once_from sep front xs ≡ none
split_once_from_absent sep front [] h = refl
split_once_from_absent sep front (x ∷ xs) (here, there) =
    let other : (x == sep) ≡ false = ground arith in
    rw other (split_once_from_absent sep (x ∷ front) xs there)

pub split_once_absent : (sep : ℕ) (xs : Bytes) → Without sep xs → split_once sep xs ≡ none
split_once_absent sep xs h = split_once_from_absent sep [] xs h

abbrev pub FrontWithout : ℕ → Bytes → Option (Bytes × Bytes) → Type 0
FrontWithout sep s none = Without sep s
FrontWithout sep s (some (front, back)) = Without sep front

later-FrontWithout :
    (sep c : ℕ) (cs : Bytes) (o : Option (Bytes × Bytes))
    → (c == sep) ≡ false
    → FrontWithout sep cs o
    → FrontWithout sep (c ∷ cs) o
later-FrontWithout sep c cs none other h = (ground arith, h)
later-FrontWithout sep c cs (some (front, back)) other h = h

split_once_from-FrontWithout :
    (sep : ℕ) (front s : Bytes)
    → Without sep front
    → FrontWithout sep s (split_once_from sep front s)
split_once_from-FrontWithout sep front [] h = tt
split_once_from-FrontWithout sep front (c ∷ cs) h =
    if_intro (FrontWithout sep (c ∷ cs)) (c == sep) _ _
      (λ found. All-reverse (λ x. (sep == x) ≡ false) front h)
      (λ other.
        later-FrontWithout sep c cs (split_once_from sep (c ∷ front) cs) other
          (split_once_from-FrontWithout sep (c ∷ front) cs ((ground arith), h)))

-- The separator does not stand before the place where a text is split.
pub split_once-FrontWithout : (sep : ℕ) (s : Bytes) → FrontWithout sep s (split_once sep s)
split_once-FrontWithout sep s = split_once_from-FrontWithout sep [] s tt

cut_step-some :
    (o : Option Bytes) (c : ℕ) (front back : Bytes)
    → (cut : Bytes × Bytes) × (cut_step o c (some (front, back)) ≡ some cut)
cut_step-some none c front back = ((c ∷ front, back), refl)
cut_step-some (some rest) c front back = (([], rest), refl)

-- A text that stands somewhere is found.
pub cut_at_stands :
    (c : ℕ) (p front back : Bytes)
    → (cut : Bytes × Bytes) × (cut_at (c ∷ p) (front ++ ((c ∷ p) ++ back)) ≡ some cut)
unfolding cut_at
cut_at_stands c p [] back = (
  ([], back),
  ap (λ o. cut_step o c (cut_at (c ∷ p) (p ++ back))) (strip_prefix_append (c ∷ p) back),
)
cut_at_stands c p (x ∷ xs) back =
    let ((f, b), found) = cut_at_stands c p xs back in
    let o = strip_prefix (c ∷ p) (x ∷ (xs ++ ((c ∷ p) ++ back))) in
    let (cut, made) = cut_step-some o x f b in (cut, ap (cut_step o x) found ∙ made)
