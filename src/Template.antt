-- ===== src/Template.antt =====
-- src/template.rs: templates, parsed once into text and placeholders. Texts are ASCII, and the clock's
-- milliseconds are one of the values.
pub mod Source
pub mod Columns
mod Runs
use wsblast.Common.{
  ℕ, zero, suc, ◌+◌, ◌/◌, ◌%◌, Bool, true, false, ◌||◌, Option, none, some, List, [], ◌∷◌, ◌++◌,
  Bytes, codes, length, ltb, get_elem?, if◌then◌else◌,
}
use wsblast.Common.Results.{Result, ok, err}
use wsblast.Common.Decimal.{decimal}
use wsblast.Common.Text.{text_eq, strip_prefix, cut_at}
use wsblast.Data.{DataSet, column, value}

pub data Part : Type 0 where
  text : Bytes → Part
  seq timestamp worker_id : Part
  data_column : Bytes → Part
  var : ℕ → Part

pub record Template : Type 0 where
  pub source : Bytes
  pub parts : List Part

pub record Values : Type 0 where
  pub seq_value : ℕ
  pub worker : ℕ
  pub row : Option (DataSet × ℕ)
  pub var_values : List Bytes
  pub now_ms : ℕ

-- `vars.iter().position(..)`
unfoldable pub index_of : Bytes → List Bytes → Option ℕ
index_of name [] = none
index_of name (v ∷ vs) =
    let rest = index_of name vs in
    if text_eq v name then some 0 else elim rest [ none ↦ none | some i ↦ some (suc i) ]

-- `{{data.COLUMN}}`, unless the column has no name.
pub column_part : Bytes → Option Part
column_part name = elim (strip_prefix (codes "data.") name) [
  | some (c ∷ cs) ↦ some (data_column (c ∷ cs))
  | some [] ↦ none
  | none ↦ none
]

pub named_part : List Bytes → Bytes → Option Part
unfolding column_part index_of
named_part vars name = elim (index_of name vars) [ some i ↦ some (var i) | none ↦ column_part name ]

-- The part that a name in braces stands for; `none` where it is no placeholder.
pub part_of : List Bytes → Bytes → Option Part
unfolding named_part
part_of vars name =
    if text_eq name (codes "seq")
    then some seq
    else if text_eq name (codes "timestamp")
    then some timestamp
    else if text_eq name (codes "worker_id")
    then some worker_id
    else named_part vars name

abbrev pub text_part : Bytes → List Part
text_part [] = []
text_part (c ∷ cs) = text (c ∷ cs) ∷ []

abbrev pub opening : Bytes
opening = codes "{{"

abbrev pub closing : Bytes
closing = codes "}}"

abbrev pub then_parts : List Part → Option (List Part) → Option (List Part)
then_parts before none = none
then_parts before (some parts) = some (before ++ parts)

-- The loop over the braces. `none` is no result of the code: it stands for a loop that ran out of
-- fuel.
pub parse_loop : ℕ → List Bytes → Bytes → Bytes → Option (List Part)
parse_loop zero vars pending rest = none
parse_loop (suc fuel) vars pending rest = elim (cut_at opening rest) [
  | none ↦ some (text_part (pending ++ rest))
  | some (front, inner) ↦ elim (cut_at closing inner) [
    | none ↦ some (text_part (pending ++ rest))
    | some (name, after) ↦ elim (part_of vars name) [
      | some part ↦
          then_parts (text_part (pending ++ front) ++ (part ∷ [])) (parse_loop fuel vars [] after)
      | none ↦ parse_loop fuel vars (pending ++ (front ++ (opening ++ (name ++ closing)))) after
    ]
  ]
]

-- Every round but the last consumes the braces, so the length is fuel enough.
unfoldable pub parse_with_vars : Bytes → List Bytes → Option Template
unfolding part_of parse_loop
parse_with_vars source vars = elim (parse_loop (suc (length source)) vars [] source) [
  | none ↦ none
  | some parts ↦ some (record { source = source; parts = parts })
]

abbrev is_text : Part → Bool
is_text (text t) = true
is_text seq = false
is_text timestamp = false
is_text worker_id = false
is_text (data_column c) = false
is_text (var i) = false

abbrev is_seq : Part → Bool
is_seq (text t) = false
is_seq seq = true
is_seq timestamp = false
is_seq worker_id = false
is_seq (data_column c) = false
is_seq (var i) = false

any_dynamic : List Part → Bool
any_dynamic [] = false
any_dynamic (p ∷ ps) = if is_text p then any_dynamic ps else true

unfoldable pub is_dynamic : Template → Bool
unfolding any_dynamic
is_dynamic t = any_dynamic t.parts

any_seq : List Part → Bool
any_seq [] = false
any_seq (p ∷ ps) = is_seq p || any_seq ps

unfoldable pub has_seq : Template → Bool
unfolding any_seq
has_seq t = any_seq t.parts

pub columns_of : List Part → List Bytes
columns_of [] = []
columns_of (data_column c ∷ ps) = c ∷ columns_of ps
columns_of (text t ∷ ps) = columns_of ps
columns_of (seq ∷ ps) = columns_of ps
columns_of (timestamp ∷ ps) = columns_of ps
columns_of (worker_id ∷ ps) = columns_of ps
columns_of (var i ∷ ps) = columns_of ps

pub data_columns : Template → List Bytes
unfolding columns_of
data_columns t = columns_of t.parts

pub data TemplateError : Type 0 where
  needs_data_file : Bytes → TemplateError
  no_column : Bytes → Bytes → TemplateError

pub check_column : Option DataSet → Bytes → Option TemplateError
check_column none name = some (needs_data_file name)
check_column (some d) name = elim (column d name) [
  | none ↦ some (no_column d.path name)
  | some i ↦ none
]

-- The first column that fails; `none` where all pass.
pub check_columns_of : Option DataSet → List Bytes → Option TemplateError
unfolding check_column
check_columns_of file [] = none
check_columns_of file (c ∷ cs) =
    let rest = check_columns_of file cs in
    elim (check_column file c) [ some e ↦ some e | none ↦ rest ]

unfoldable pub check_data : Template → Option DataSet → Option TemplateError
unfolding check_columns_of data_columns
check_data t file = check_columns_of file (data_columns t)

abbrev or_empty : Option Bytes → Bytes
or_empty none = []
or_empty (some s) = s

pub render_part : Values → Part → Bytes
unfolding decimal
render_part v (text t) = t
render_part v seq = decimal v.seq_value
render_part v timestamp = decimal v.now_ms
render_part v worker_id = decimal v.worker
render_part v (data_column c) = elim v.row [ none ↦ [] | some (d, n) ↦ or_empty (value d n c) ]
render_part v (var i) = or_empty (get_elem? v.var_values i)

pub render_parts : Values → List Part → Bytes
unfolding render_part
render_parts v [] = []
render_parts v (p ∷ ps) = render_part v p ++ render_parts v ps

unfoldable pub render : Template → Values → Bytes
unfolding render_parts
render t v = render_parts v t.parts
