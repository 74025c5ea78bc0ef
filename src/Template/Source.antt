-- ===== src/Template/Source.antt =====
-- template.rs: the parts of a template against the text it was parsed from.
use wsblast.Common.{
  ℕ, zero, suc, ◌<◌, ◌≡◌, refl, sym, ap, ◌∙◌, inl, inr, false, Option, none, some, List, [], ◌∷◌,
  ◌++◌, append-nil, append_assoc, Bytes, codes, length, length-append, get_elem?, Bool-cases,
  Option-cases, arith,
}
use wsblast.Common.Text.{text_eq, text_eq_sound, strip_prefix_sound, cut_at, cut_at_sound}
use wsblast.Template.{
  Part, text, seq, timestamp, worker_id, data_column, var, Template, Values, index_of, column_part,
  named_part, part_of, text_part, opening, closing, then_parts, parse_loop, parse_with_vars,
  any_dynamic, is_dynamic, render_part, render_parts, render,
}

abbrev or_nothing : Option Bytes → Bytes
or_nothing none = []
or_nothing (some s) = s

-- How a part is written in a template.
abbrev pub name_of : List Bytes → Part → Bytes
name_of vars (text t) = t
name_of vars seq = codes "seq"
name_of vars timestamp = codes "timestamp"
name_of vars worker_id = codes "worker_id"
name_of vars (data_column c) = codes "data." ++ c
name_of vars (var i) = or_nothing (get_elem? vars i)

pub written : List Bytes → Part → Bytes
written vars (text t) = t
written vars seq = codes "{{seq}}"
written vars timestamp = codes "{{timestamp}}"
written vars worker_id = codes "{{worker_id}}"
written vars (data_column c) = codes "{{data." ++ (c ++ closing)
written vars (var i) = opening ++ (or_nothing (get_elem? vars i) ++ closing)

unfoldable pub written_parts : List Bytes → List Part → Bytes
unfolding written
written_parts vars [] = []
written_parts vars (p ∷ ps) = written vars p ++ written_parts vars ps

index_of_sound :
    (name : Bytes) (vars : List Bytes) (i : ℕ)
    → index_of name vars ≡ some i
    → get_elem? vars i ≡ some name
unfolding index_of
index_of_sound name [] i e = cc
index_of_sound name (v ∷ vs) i e = elim (Bool-cases (text_eq v name)) [
  | inl same ↦
      let here : some 0 ≡ some i = sym (rw same) ∙ e in
      let first : 0 ≡ i = cc in rw (← first, text_eq_sound v name same)
  | inr other ↦ elim (Option-cases (index_of name vs)) [
    | inl absent ↦ let nothing : none ≡ some i = sym (rw (other, absent)) ∙ e in cc
    | inr (k, found) ↦
        let there : some (suc k) ≡ some i = sym (rw (other, found)) ∙ e in
        let after : suc k ≡ i = cc in rw (← after) (index_of_sound name vs k found)
  ]
]

column_part_sound :
    (vars : List Bytes) (name : Bytes) (p : Part)
    → column_part name ≡ some p
    → written vars p ≡ opening ++ (name ++ closing)
unfolding column_part written
column_part_sound vars name p e = ground (arith, strip_prefix_sound (codes "data.") name)

same_part :
    (vars : List Bytes) (name : Bytes) (q p : Part)
    → some q ≡ some p
    → written vars q ≡ opening ++ (name ++ closing)
    → written vars p ≡ opening ++ (name ++ closing)
same_part vars name q p e h = let one : q ≡ p = cc in rw (← one) h

named_part_sound :
    (vars : List Bytes) (name : Bytes) (p : Part)
    → named_part vars name ≡ some p
    → written vars p ≡ opening ++ (name ++ closing)
unfolding named_part written
named_part_sound vars name p e = elim (Option-cases (index_of name vars)) [
  | inl other ↦ column_part_sound vars name p (sym (rw (other, named_part)) ∙ e)
  | inr (i, found) ↦
      same_part vars name (var i) p (sym (rw (found, named_part)) ∙ e)
        (rw (index_of_sound name vars i found))
]

part_of_sound :
    (vars : List Bytes) (name : Bytes) (p : Part)
    → part_of vars name ≡ some p
    → written vars p ≡ opening ++ (name ++ closing)
unfolding part_of written
part_of_sound vars name p e = elim (Bool-cases (text_eq name (codes "seq"))) [
  | inl is ↦ same_part vars name seq p (sym (rw is) ∙ e) (rw (text_eq_sound name (codes "seq") is))
  | inr not_seq ↦ elim (Bool-cases (text_eq name (codes "timestamp"))) [
    | inl is ↦
        same_part vars name timestamp p (sym (rw (not_seq, is)) ∙ e)
          (rw (text_eq_sound name (codes "timestamp") is))
    | inr not_timestamp ↦ elim (Bool-cases (text_eq name (codes "worker_id"))) [
      | inl is ↦
          same_part vars name worker_id p (sym (rw (not_seq, not_timestamp, is)) ∙ e)
            (rw (text_eq_sound name (codes "worker_id") is))
      | inr other ↦ named_part_sound vars name p (sym (rw (not_seq, not_timestamp, other)) ∙ e)
    ]
  ]
]

-- A name that is no built-in value's stands for the variable that has it.
pub part_of_var :
    (vars : List Bytes) (name : Bytes) (i : ℕ)
    → text_eq name (codes "seq") ≡ false
    → text_eq name (codes "timestamp") ≡ false
    → text_eq name (codes "worker_id") ≡ false
    → index_of name vars ≡ some i
    → part_of vars name ≡ some (var i)
unfolding part_of named_part
part_of_var vars name i not_seq not_timestamp not_worker found =
    rw (not_seq, not_timestamp, not_worker, named_part, found)

regroup :
    (pending front name after : Bytes)
    → (pending ++ (front ++ (opening ++ (name ++ closing)))) ++ after
      ≡ pending ++ (front ++ (opening ++ (name ++ (closing ++ after))))
regroup pending front name after = simp append_assoc

written_append :
    (vars : List Bytes) (ps qs : List Part)
    → written_parts vars (ps ++ qs) ≡ written_parts vars ps ++ written_parts vars qs
unfolding written_parts
written_append vars [] qs = refl
written_append vars (p ∷ ps) qs =
    rw (written_append vars ps qs)
      (sym (append_assoc (written vars p) (written_parts vars ps) (written_parts vars qs)))

written-text_part : (vars : List Bytes) (t : Bytes) → written_parts vars (text_part t) ≡ t
unfolding written_parts
written-text_part vars [] = refl
written-text_part vars (c ∷ cs) = append-nil (c ∷ cs)

split_shorter :
    (rest front name after : Bytes)
    → rest ≡ front ++ (opening ++ (name ++ (closing ++ after)))
    → length after < length rest
split_shorter rest front name after e = rw e (
    omega (
      arith,
      length-append front (opening ++ (name ++ (closing ++ after))),
      length-append name (closing ++ after),
    ))

-- One placeholder and what follows it.
written_round :
    (vars : List Bytes) (pending front name after : Bytes) (p : Part) (ps : List Part)
    → part_of vars name ≡ some p
    → written_parts vars ps ≡ after
    → written_parts vars ((text_part (pending ++ front) ++ (p ∷ [])) ++ ps)
      ≡ pending ++ (front ++ (opening ++ (name ++ (closing ++ after))))
unfolding written_parts
written_round vars pending front name after p ps known same =
    written_append vars (text_part (pending ++ front) ++ (p ∷ [])) ps
    ∙ rw
        (
          written_append vars (text_part (pending ++ front)) (p ∷ []),
          written-text_part vars (pending ++ front),
          part_of_sound vars name p known,
          same,
          append-nil (opening ++ (name ++ closing)),
        )
        (simp append_assoc)

pub loop_plain :
    (fuel : ℕ) (vars : List Bytes) (pending rest : Bytes)
    → cut_at opening rest ≡ none
    → parse_loop (suc fuel) vars pending rest ≡ some (text_part (pending ++ rest))
unfolding parse_loop
loop_plain fuel vars pending rest e = rw (e, parse_loop)

loop_unclosed :
    (fuel : ℕ) (vars : List Bytes) (pending rest front inner : Bytes)
    → cut_at opening rest ≡ some (front, inner)
    → cut_at closing inner ≡ none
    → parse_loop (suc fuel) vars pending rest ≡ some (text_part (pending ++ rest))
unfolding parse_loop
loop_unclosed fuel vars pending rest front inner e c = rw (e, parse_loop, c)

loop_kept :
    (fuel : ℕ) (vars : List Bytes) (pending rest front inner name after : Bytes)
    → cut_at opening rest ≡ some (front, inner)
    → cut_at closing inner ≡ some (name, after)
    → part_of vars name ≡ none
    → parse_loop (suc fuel) vars pending rest
      ≡ parse_loop fuel vars (pending ++ (front ++ (opening ++ (name ++ closing)))) after
unfolding parse_loop
loop_kept fuel vars pending rest front inner name after e c k = rw (e, parse_loop, c, k)

pub loop_part :
    (fuel : ℕ) (vars : List Bytes) (pending rest front inner name after : Bytes) (p : Part)
    → cut_at opening rest ≡ some (front, inner)
    → cut_at closing inner ≡ some (name, after)
    → part_of vars name ≡ some p
    → parse_loop (suc fuel) vars pending rest
      ≡ then_parts (text_part (pending ++ front) ++ (p ∷ [])) (parse_loop fuel vars [] after)
unfolding parse_loop
loop_part fuel vars pending rest front inner name after p e c k = rw (e, parse_loop, c, k)

-- The loop ends, and the parts it gives stand for the pending text and the rest.
parse_loop-written :
    (fuel : ℕ) (vars : List Bytes) (pending rest : Bytes)
    → length rest < fuel
    → (ps : List Part) × (parse_loop fuel vars pending rest ≡ some ps)
      × (written_parts vars ps ≡ pending ++ rest)
parse_loop-written zero vars pending rest h = elim h [ ]
parse_loop-written (suc fuel) vars pending rest h = elim (Option-cases (cut_at opening rest)) [
  | inl plain ↦ (
    text_part (pending ++ rest),
    loop_plain fuel vars pending rest plain,
    written-text_part vars (pending ++ rest),
  )
  | inr ((front, inner), opened) ↦ elim (Option-cases (cut_at closing inner)) [
    | inl unclosed ↦ (
      text_part (pending ++ rest),
      loop_unclosed fuel vars pending rest front inner opened unclosed,
      written-text_part vars (pending ++ rest),
    )
    | inr ((name, after), closed) ↦
        let split : rest ≡ front ++ (opening ++ (name ++ (closing ++ after))) =
          cut_at_sound opening rest front inner opened
          ∙ ap (λ (t : Bytes). front ++ (opening ++ t))
              (cut_at_sound closing inner name after closed) in
        let shorter : length after < fuel =
          ground (arith, split_shorter rest front name after split) in
        elim (Option-cases (part_of vars name)) [
          | inl kept ↦
              let pending' = pending ++ (front ++ (opening ++ (name ++ closing))) in
              let (ps, found, same) = parse_loop-written fuel vars pending' after shorter in
              (
                ps,
                loop_kept fuel vars pending rest front inner name after opened closed kept ∙ found,
                same
                    ∙ regroup pending front name after
                    ∙ ap (λ (t : Bytes). pending ++ t) (sym split),
              )
          | inr (p, known) ↦
              let (ps, found, same) = parse_loop-written fuel vars [] after shorter in
              (
                (text_part (pending ++ front) ++ (p ∷ [])) ++ ps,
                loop_part fuel vars pending rest front inner name after p opened closed known
                    ∙ ap (then_parts (text_part (pending ++ front) ++ (p ∷ []))) found,
                written_round vars pending front name after p ps known same
                    ∙ ap (λ (t : Bytes). pending ++ t) (sym split),
              )
        ]
  ]
]

-- Parsing ends, and gives parts that stand for exactly the source: each placeholder written as in a
-- template, and every other brace kept in a text.
pub parse_with_vars-written :
    (source : Bytes) (vars : List Bytes)
    → (t : Template) × (parse_with_vars source vars ≡ some t)
      × (t.source ≡ source)
      × (written_parts vars t.parts ≡ source)
unfolding parse_with_vars
parse_with_vars-written source vars =
    let (ps, found, same) = parse_loop-written (suc (length source)) vars [] source (omega arith) in
    (record { source = source; parts = ps }, rw (found, parse_with_vars), refl, same)

static_parts :
    (vars : List Bytes) (v : Values) (ps : List Part)
    → any_dynamic ps ≡ false
    → render_parts v ps ≡ written_parts vars ps
unfolding any_dynamic render_parts render_part written_parts written
static_parts vars v [] e = refl
static_parts vars v (text t ∷ ps) e = rw (static_parts vars v ps e)
static_parts vars v (seq ∷ ps) e = cc
static_parts vars v (timestamp ∷ ps) e = cc
static_parts vars v (worker_id ∷ ps) e = cc
static_parts vars v (data_column c ∷ ps) e = cc
static_parts vars v (var i ∷ ps) e = cc

-- A template without a placeholder renders to its source, whatever the values.
pub render_static :
    (source : Bytes) (vars : List Bytes) (t : Template) (v : Values)
    → parse_with_vars source vars ≡ some t
    → is_dynamic t ≡ false
    → render t v ≡ source
unfolding is_dynamic render
render_static source vars t v parsed static =
    let (t', found, own, same) = parse_with_vars-written source vars in
    let one : t' ≡ t = cc in static_parts vars v t.parts static ∙ rw (← one) same
