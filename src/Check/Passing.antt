-- ===== src/Check/Passing.antt =====
-- check.rs: when a reply passes a check.
use wsblast.Common.{
  ℕ, ◌≡◌, refl, ap, ◌∙◌, Bool, true, false, ◌↔◌, Option, none, some, [], ◌∷◌, ◌++◌, Bytes,
}
use wsblast.Common.Text.{cut_at, cut_at_sound, cut_at_stands}
use wsblast.Json.{Serde}
use wsblast.SocketIo.Frame.{Frame}
use wsblast.Check.{contains, reply_text, is_some, text_contains, passes_check}

-- The text stands somewhere in the reply's text.
abbrev pub Holds : Bytes → Option Bytes → Type 0
Holds t none = ◌≡◌ {A = Bool} true false
Holds t (some reply) = (front : Bytes) × (back : Bytes) × (reply ≡ front ++ (t ++ back))

module _ {V : Type 0} (serde : Serde V) (is_utf8 : Bytes → Bool) where
  cut-Holds :
      (c : ℕ) (cs reply : Bytes) (o : Option (Bytes × Bytes))
      → cut_at (c ∷ cs) reply ≡ o
      → is_some serde is_utf8 o ≡ true
      → Holds (c ∷ cs) (some reply)
  cut-Holds c cs reply none e h = cc
  cut-Holds c cs reply (some (front, back)) e h =
      (front, back, cut_at_sound (c ∷ cs) reply front back e)

  contains-Holds :
      (t : Bytes) (o : Option Bytes) → text_contains serde is_utf8 t o ≡ true → Holds t o
  contains-Holds [] none h = cc
  contains-Holds (c ∷ cs) none h = cc
  contains-Holds [] (some reply) h = ([], reply, refl)
  contains-Holds (c ∷ cs) (some reply) h = cut-Holds c cs reply (cut_at (c ∷ cs) reply) refl h

  Holds-contains :
      (t : Bytes) (o : Option Bytes) → Holds t o → text_contains serde is_utf8 t o ≡ true
  Holds-contains [] none h = cc
  Holds-contains (c ∷ cs) none h = cc
  Holds-contains [] (some reply) h = refl
  Holds-contains (c ∷ cs) (some reply) (front, back, e) =
      let (cut, found) = cut_at_stands c cs front back in
      ap (is_some serde is_utf8) (ap (cut_at (c ∷ cs)) e ∙ found)

  -- A reply passes a check on its text exactly where it is text in which the check's text stands.
  pub passes_check-contains :
      (t : Bytes) (reply : Frame)
      → (passes_check serde is_utf8 (contains t) reply ≡ true)
        ↔ Holds t (reply_text serde is_utf8 reply)
  unfolding passes_check
  passes_check-contains t reply = (
    contains-Holds t (reply_text serde is_utf8 reply),
    Holds-contains t (reply_text serde is_utf8 reply),
  )
