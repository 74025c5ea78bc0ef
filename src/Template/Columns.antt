-- ===== src/Template/Columns.antt =====
-- template.rs: what `check_data` promises to `render`.
use wsblast.Common.{ℕ, ◌≡◌, sym, ◌∙◌, inl, inr, none, some, List, [], ◌∷◌, Bytes, All, Option-cases}
use wsblast.Data.{DataSet, column, value, row_for}
use wsblast.Data.Table.{value_within, row_for_below, Regular}
use wsblast.Template.{Template, no_column, check_column, check_columns_of, data_columns, check_data}

-- A connection's row has a value in the column.
abbrev pub HasValue : DataSet → ℕ → Bytes → Type 0
HasValue d worker name = (v : Bytes) × (value d (row_for d worker) name ≡ some v)

columns_have_values :
    (d : DataSet) (worker : ℕ) (names : List Bytes)
    → Regular d
    → check_columns_of (some d) names ≡ none
    → All (HasValue d worker) names
unfolding check_columns_of check_column
columns_have_values d worker [] regular e = _
columns_have_values d worker (c ∷ cs) regular e = elim (Option-cases (column d c)) [
  | inl absent ↦
      let refused : some (no_column d.path c) ≡ none = sym (rw (absent, check_columns_of)) ∙ e in cc
  | inr (i, found) ↦
      let others : check_columns_of (some d) cs ≡ none = sym (rw (found, check_columns_of)) ∙ e in
      (
        value_within d (row_for d worker) i c regular (row_for_below d worker regular) found,
        columns_have_values d worker cs regular others,
      )
]

-- Once `check_data` has passed a template for a regular table, every connection's row has a value for
-- every column that the template reads, so `render` finds them all.
pub check_data-HasValue :
    (t : Template) (d : DataSet) (worker : ℕ)
    → Regular d
    → check_data t (some d) ≡ none
    → All (HasValue d worker) (data_columns t)
unfolding check_data
check_data-HasValue t d worker regular e = columns_have_values d worker (data_columns t) regular e
