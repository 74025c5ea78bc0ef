-- ===== src/Mock/Rules/Templates.antt =====
-- mock/rules.rs: replies as they are written in a rules file.
use wsblast.Common.{
  ℕ, zero, suc, ◌<◌, ◌≡◌, refl, ap, ◌∙◌, true, List, [], ◌∷◌, ◌++◌, All, Bytes, codes, length,
  length-append, arith,
}
use wsblast.Common.Results.{ok}
use wsblast.Common.Text.{starts_with_slash, Without, cut_at_first, cut_at_absent, trim}
use wsblast.Mock.Rules.{
  ReplyPart, literal, request, seq, json, literal_part, open_braces, close_braces, placeholder_part,
  with_parts, Reader, parse_closed, parse_opened, template_loop, parse_template,
}

pub name_of : ReplyPart → Bytes
name_of (literal t) = t
name_of request = codes "request"
name_of seq = codes "seq"
name_of (json pointer) = codes "json:" ++ pointer

-- A pointer that starts with a slash, has no brace and does not end in a space.
abbrev pub IsName : Bytes → Type 0
IsName pointer =
    (starts_with_slash pointer ≡ true)
    × Without b'}' pointer
    × (trim (codes "json:" ++ pointer) ≡ codes "json:" ++ pointer)

abbrev pub IsPlaceholder : ReplyPart → Type 0
IsPlaceholder (literal t) = ◌≡◌ {A = Bytes} [] (0 ∷ [])
IsPlaceholder request = Unit {0}
IsPlaceholder seq = Unit {0}
IsPlaceholder (json pointer) = IsName pointer

-- A text with no open_braces brace and the placeholder_part after it.
abbrev pub IsPiece : Bytes × ReplyPart → Type 0
IsPiece (front, part) = Without b'{' front × IsPlaceholder part

unfoldable pub written : List (Bytes × ReplyPart) → Bytes → Bytes
unfolding name_of
written [] last = last
written ((front, part) ∷ pieces) last =
    front ++ (open_braces ++ (name_of part ++ (close_braces ++ written pieces last)))

unfoldable pub parts_of : List (Bytes × ReplyPart) → Bytes → List ReplyPart
parts_of [] last = literal_part last
parts_of ((front, part) ∷ pieces) last = literal_part front ++ (part ∷ parts_of pieces last)

placeholder_json :
    (raw pointer : Bytes)
    → starts_with_slash pointer ≡ true
    → placeholder_part raw (codes "json:" ++ pointer) ≡ ok (json pointer)
placeholder_json raw pointer slash = rw slash

placeholder_part-name_of :
    (raw : Bytes) (part : ReplyPart)
    → IsPlaceholder part
    → placeholder_part raw (trim (name_of part)) ≡ ok part
unfolding name_of
placeholder_part-name_of raw (literal t) h = cc
placeholder_part-name_of raw request h = refl
placeholder_part-name_of raw seq h = refl
placeholder_part-name_of raw (json pointer) (slash, closed, trimmed) =
    ap (placeholder_part raw) trimmed ∙ placeholder_json raw pointer slash

Without-name_of : (part : ReplyPart) → IsPlaceholder part → Without b'}' (name_of part)
unfolding name_of
Without-name_of (literal t) h = cc
Without-name_of request h = (refl, (refl, (refl, (refl, (refl, (refl, (refl, tt)))))))
Without-name_of seq h = (refl, (refl, (refl, tt)))
Without-name_of (json pointer) (slash, closed, trimmed) =
    (refl, (refl, (refl, (refl, (refl, closed)))))

one_piece :
    (fuel : ℕ) (raw front rest : Bytes) (part : ReplyPart) (parts : List ReplyPart)
    → Without b'{' front
    → IsPlaceholder part
    → template_loop fuel raw rest ≡ ok parts
    → template_loop
        (suc fuel)
        raw
        (front ++ (open_braces ++ (name_of part ++ (close_braces ++ rest))))
      ≡ ok (literal_part front ++ (part ∷ parts))
unfolding template_loop parse_opened parse_closed
one_piece fuel raw front rest part parts plain good later =
    let read : Reader = λ t. template_loop fuel raw t in
    ap (parse_opened read raw (front ++ (open_braces ++ (name_of part ++ (close_braces ++ rest)))))
      (cut_at_first b'{' (codes "{") front (name_of part ++ (close_braces ++ rest)) plain)
    ∙ ap (parse_closed read raw front)
        (cut_at_first b'}' (codes "}") (name_of part) rest (Without-name_of part good))
    ∙ ap (λ p. with_parts (literal_part front) p (template_loop fuel raw rest))
        (placeholder_part-name_of raw part good)
    ∙ ap (with_parts (literal_part front) (ok part)) later

ending :
    (fuel : ℕ) (raw last : Bytes)
    → Without b'{' last
    → template_loop (suc fuel) raw last ≡ ok (literal_part last)
unfolding template_loop parse_opened
ending fuel raw last plain =
    ap (parse_opened (λ t. template_loop fuel raw t) raw last)
      (cut_at_absent b'{' (codes "{") last plain)

written_shorter :
    (front : Bytes) (part : ReplyPart) (rest : Bytes)
    → length rest < length (front ++ (open_braces ++ (name_of part ++ (close_braces ++ rest))))
written_shorter front part rest = omega (
  arith,
  length-append front (open_braces ++ (name_of part ++ (close_braces ++ rest))),
  length-append (name_of part) (close_braces ++ rest),
)

template_loop-written :
    (fuel : ℕ) (raw : Bytes) (pieces : List (Bytes × ReplyPart)) (last : Bytes)
    → length (written pieces last) < fuel
    → All IsPiece pieces
    → Without b'{' last
    → template_loop fuel raw (written pieces last) ≡ ok (parts_of pieces last)
unfolding written parts_of
template_loop-written zero raw pieces last h good plain = elim h [ ]
template_loop-written (suc fuel) raw [] last h good plain = ending fuel raw last plain
template_loop-written (suc fuel) raw ((front, part) ∷ pieces) last h ((text, placed), good) plain =
    one_piece fuel raw front (written pieces last) part (parts_of pieces last) text placed (
      template_loop-written fuel raw pieces last
        (omega (arith, written_shorter front part (written pieces last))) good plain)

-- A reply that is written with placeholders between texts without an open_braces brace is read back as
-- these texts, the empty ones left out, and these placeholders.
pub parse_template-written :
    (pieces : List (Bytes × ReplyPart)) (last : Bytes)
    → All IsPiece pieces
    → Without b'{' last
    → parse_template (written pieces last) ≡ ok (parts_of pieces last)
unfolding parse_template
parse_template-written pieces last good plain =
    template_loop-written (suc (length (written pieces last))) (written pieces last) pieces last
      (omega arith) good plain
