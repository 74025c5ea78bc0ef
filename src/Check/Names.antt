-- ===== src/Check/Names.antt =====
-- check.rs and template.rs: the name of a captured variable, as a placeholder.
use wsblast.Common.{
  ℕ, suc, ◌≡◌, sym, ap, ◌∙◌, inl, inr, true, false, and_right, or_left, or_right, Bool-cases, none,
  some, List, [], ◌∷◌, ◌++◌, Bytes, codes, length, arith,
}
use wsblast.Common.Text.{text_eq, Without, cut_at_first, cut_at_absent}
use wsblast.Template.{
  var, index_of, part_of, parse_loop, parse_with_vars, then_parts, opening, closing,
}
use wsblast.Template.Source.{part_of_var, loop_plain, loop_part}
use wsblast.Check.{bad_name, built_in, name_starts, names_on, is_name, is_built_in, check_var_name}

names_Without : (cs : Bytes) → names_on cs ≡ true → Without b'}' cs
names_Without [] h = tt
names_Without (c ∷ cs) h = (ground arith, names_Without cs (and_right _ (names_on cs) h))

name_Without : (name : Bytes) → is_name name ≡ true → Without b'}' name
name_Without [] h = cc
name_Without (c ∷ cs) h =
    (ground arith, names_Without cs (and_right (name_starts c) (names_on cs) h))

fine_name :
    (name : Bytes) → check_var_name name ≡ none → (is_name name ≡ true) × (is_built_in name ≡ false)
unfolding check_var_name
fine_name name h = elim (Bool-cases (is_name name)) [
  | inl named ↦ elim (Bool-cases (is_built_in name)) [
    | inl built ↦ let refused : some (built_in name) ≡ none = sym (rw (named, built)) ∙ h in cc
    | inr other ↦ (named, other)
  ]
  | inr unnamed ↦ let refused : some (bad_name name) ≡ none = sym (rw unnamed) ∙ h in cc
]

part_of_name :
    (vars : List Bytes) (name : Bytes) (i : ℕ)
    → is_built_in name ≡ false
    → index_of name vars ≡ some i
    → part_of vars name ≡ some (var i)
part_of_name vars name i other found =
    let others = or_right (text_eq name (codes "seq")) _ other in
    let last = or_right (text_eq name (codes "timestamp")) _ others in
    part_of_var vars name i (or_left (text_eq name (codes "seq")) _ other)
      (or_left (text_eq name (codes "timestamp")) _ others)
      (or_left (text_eq name (codes "worker_id")) _ last) found

-- A variable whose name is accepted is reached by its placeholder: in braces it stands for the
-- variable, and for no built-in value or column.
pub parse_with_vars-check_var_name :
    (vars : List Bytes) (name : Bytes) (i : ℕ)
    → check_var_name name ≡ none
    → index_of name vars ≡ some i
    → parse_with_vars (opening ++ (name ++ closing)) vars
      ≡ some (record { source = opening ++ (name ++ closing); parts = var i ∷ [] })
unfolding parse_with_vars
parse_with_vars-check_var_name vars name i fine found =
    let (named, other) = fine_name name fine in
    let source = opening ++ (name ++ closing) in
    let fuel = length source in
    let read : parse_loop (suc fuel) vars [] source ≡ some (var i ∷ []) =
      loop_part fuel vars [] source [] (name ++ closing) name [] (var i)
        (cut_at_first b'{' (codes "{") [] (name ++ closing) tt)
        (cut_at_first b'}' (codes "}") name [] (name_Without name named))
        (part_of_name vars name i other found)
      ∙ ap (then_parts (var i ∷ [])) (
          loop_plain (suc (length (name ++ closing))) vars [] []
            (cut_at_absent b'{' (codes "{") [] tt)) in
    rw (read, parse_with_vars)
