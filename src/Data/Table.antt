-- ===== src/Data/Table.antt =====
-- data.rs: the values of a table whose rows all have a value for every column.
use native.Mathlib.Nat.{mod-lt}
use wsblast.Common.{
  ℕ, zero, suc, ◌<◌, ◌≡◌, refl, sym, subst, ◌∙◌, inl, inr, Option, none, some, List, [], ◌∷◌, Bytes,
  length, get_elem?, All, Bool-cases, Option-cases, ◌==◌, arith,
}
use wsblast.Common.Results.{Result, ok, err}
use wsblast.Common.Text.{text_eq}
use wsblast.Data.{
  DataSet, DataError, values_for_columns, row_for, global_row, bad_row, from_parts, position,
  column, value,
}

-- Rows there are, each with a value for every column.
pub record Regular (d : DataSet) : Type 0 where
  pub has_rows : 0 < length d.rows
  pub full : All (λ row. length row ≡ length d.columns) d.rows

get_elem?_within {ℓ} :
    {A : Type ℓ} (xs : List A) (i : ℕ) → i < length xs → (x : A) × (get_elem? xs i ≡ some x)
get_elem?_within [] i h = elim h [ ]
get_elem?_within (x ∷ xs) zero h = (x, refl)
get_elem?_within (x ∷ xs) (suc i) h = get_elem?_within xs i (omega arith)

All_at {ℓ κ} :
    {A : Type ℓ} (P : A → Type κ) (xs : List A) (i : ℕ) (x : A)
    → All P xs
    → get_elem? xs i ≡ some x
    → P x
All_at P [] i x all e = cc
All_at P (y ∷ ys) zero x (py, all) e = let same : y ≡ x = cc in rw (← same) py
All_at P (y ∷ ys) (suc i) x (py, all) e = All_at P ys i x all e

bad_row-none :
    (n width : ℕ) (rows : List (List Bytes))
    → bad_row n width rows ≡ none
    → All (λ row. length row ≡ width) rows
unfolding bad_row
bad_row-none n width [] e = _
bad_row-none n width (row ∷ rows) e = elim (Bool-cases (length row == width)) [
  | inl full ↦ (ground arith, bad_row-none (suc n) width rows (sym (rw full) ∙ e))
  | inr bad ↦
      let here : ◌≡◌ {A = Option (ℕ × ℕ)} (some (suc n, length row)) none = sym (rw bad) ∙ e in cc
]

position_below :
    (name : Bytes) (columns : List Bytes) (i : ℕ)
    → position name columns ≡ some i
    → i < length columns
unfolding position
position_below name [] i e = cc
position_below name (c ∷ cs) i e = elim (Bool-cases (text_eq c name)) [
  | inl same ↦
      let here : some 0 ≡ some i = sym (rw same) ∙ e in let first : 0 ≡ i = cc in omega arith
  | inr other ↦ elim (Option-cases (position name cs)) [
    | inl absent ↦ let nothing : none ≡ some i = sym (rw (other, absent)) ∙ e in cc
    | inr (k, found) ↦
        let there : some (suc k) ≡ some i = sym (rw (other, found)) ∙ e in
        let after : suc k ≡ i = cc in let below = position_below name cs k found in omega arith
  ]
]

-- A table that `from_parts` accepts has rows, each with a value for every column.
pub from_parts-Regular :
    (path : Bytes) (columns : List Bytes) (rows : List (List Bytes)) (d : DataSet)
    → from_parts path columns rows ≡ ok d
    → Regular d
unfolding from_parts
from_parts-Regular path columns [] d e = cc
from_parts-Regular path columns (row ∷ rows) d e =
    elim (Option-cases (bad_row 0 (length columns) (row ∷ rows))) [
      | inl none_bad ↦
          let made : DataSet = record {
            path = path;
            columns = columns;
            rows = row ∷ rows;
            share = none;
          } in
          let result : ◌≡◌ {A = Result DataError DataSet} (ok made) (ok d) =
            sym (rw (none_bad, from_parts)) ∙ e in
          let one : made ≡ d = cc in
          subst Regular one (record {
            has_rows = omega arith;
            full = bad_row-none 0 (length columns) (row ∷ rows) none_bad;
          })
      | inr ((n, values), bad) ↦
          let refused : ◌≡◌ {A = Result DataError DataSet}
              (err (values_for_columns n values (length columns))) (ok d) =
            sym (rw (bad, from_parts)) ∙ e in
          cc
    ]

-- In a regular table a row has a value in every column that is found.
pub value_within :
    (d : DataSet) (row i : ℕ) (name : Bytes)
    → Regular d
    → row < length d.rows
    → column d name ≡ some i
    → (v : Bytes) × (value d row name ≡ some v)
unfolding value
value_within d row i name regular h e =
    let (values, there) = get_elem?_within d.rows row h in
    let wide = All_at (λ r. length r ≡ length d.columns) d.rows row values regular.full there in
    let below = position_below name d.columns i (unfold column in e) in
    let (v, found) = get_elem?_within values i (omega arith) in (v, rw (e, value, there, found))

-- The row that a connection uses is one of the table's.
pub row_for_below : (d : DataSet) (worker_id : ℕ) → Regular d → row_for d worker_id < length d.rows
unfolding row_for
row_for_below d worker_id regular = mod-lt (global_row d.share worker_id) regular.has_rows
