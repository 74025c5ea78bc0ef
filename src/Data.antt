-- ===== src/Data.antt =====
-- src/data.rs: the table of test data: CSV, the checks on its columns, and the row that a connection
-- uses. Texts are ASCII; `usize` has 64 bits. Reading the file and JSON Lines are left out.
pub mod Share
pub mod Csv
pub mod Table
mod Runs
use wsblast.Common.{
  ℕ, zero, suc, ◌+◌, ◌-◌, ◌*◌, ◌%◌, ◌^◌, min, Bool, true, false, not, ◌&&◌, ◌||◌, Option, none,
  some, List, [], ◌∷◌, ◌++◌, Bytes, length, ltb, ◌==◌, if◌then◌else◌, get_elem?,
}
use wsblast.Common.Results.{Result, ok, err, ◌>>=◌}
use wsblast.Common.Text.{text_eq, trim}

pub data DataError : Type 0 where
  stray_quote : ℕ → DataError
  not_closed : ℕ → DataError
  no_header_row : DataError
  no_name : ℕ → DataError
  appears_twice : Bytes → DataError
  values_for_columns : ℕ → ℕ → ℕ → DataError
  no_rows : DataError

pub record DataSet : Type 0 where
  pub path : Bytes
  pub columns : List Bytes
  pub rows : List (List Bytes)
  pub share : Option (ℕ × ℕ)

-- The first row that has not a value for every column, counted from 1.
pub bad_row : ℕ → ℕ → List (List Bytes) → Option (ℕ × ℕ)
bad_row n width [] = none
bad_row n width (row ∷ rows) =
    let rest = bad_row (suc n) width rows in
    if length row == width then rest else some (suc n, length row)

unfoldable pub from_parts : Bytes → List Bytes → List (List Bytes) → Result DataError DataSet
unfolding bad_row
from_parts path columns [] = err no_rows
from_parts path columns (row ∷ rows) = elim (bad_row 0 (length columns) (row ∷ rows)) [
  | some (n, values) ↦ err (values_for_columns n values (length columns))
  | none ↦ ok (record { path = path; columns = columns; rows = row ∷ rows; share = none })
]

unfoldable pub with_share : DataSet → ℕ → ℕ → DataSet
with_share d index agents = record d { share = if ltb 1 agents then some (index, agents) else none }

-- `saturating_mul` and `saturating_add` on `usize`
abbrev pub saturate : ℕ → ℕ
saturate n = min n (2 ^ 64 - 1)

abbrev pub global_row : Option (ℕ × ℕ) → ℕ → ℕ
global_row none worker_id = worker_id
global_row (some (index, agents)) worker_id = saturate (saturate (worker_id * agents) + index)

unfoldable pub row_for : DataSet → ℕ → ℕ
row_for d worker_id = global_row d.share worker_id % length d.rows

pub position : Bytes → List Bytes → Option ℕ
position name [] = none
position name (column ∷ columns) =
    let rest = position name columns in
    if text_eq column name then some 0 else elim rest [ none ↦ none | some i ↦ some (suc i) ]

unfoldable pub column : DataSet → Bytes → Option ℕ
unfolding position
column d name = position name d.columns

pub value : DataSet → ℕ → Bytes → Option Bytes
unfolding column
value d row name = elim (column d name) [
  | none ↦ none
  | some index ↦ elim (get_elem? d.rows row) [ none ↦ none | some values ↦ get_elem? values index ]
]

-- The state of `parse_csv`. The records come with the lines on which they end.
pub record Scan : Type 0 where
  pub records : List (ℕ × List Bytes)
  pub fields : List Bytes
  pub field : Bytes
  pub quoted : Bool
  pub field_started : Bool
  pub line : ℕ

abbrev pub is_empty {ℓ} : {A : Type ℓ} → List A → Bool
is_empty [] = true
is_empty (x ∷ xs) = false

-- `chars.peek() == Some(&c)`
abbrev pub next_is : ℕ → Bytes → Bool
next_is c [] = false
next_is c (d ∷ ds) = d == c

abbrev pub push_char : ℕ → Scan → Scan
push_char c s = record s { field = s.field ++ (c ∷ []) }

abbrev pub end_field : Scan → Scan
end_field s = record s { fields = s.fields ++ (s.field ∷ []); field = []; field_started = false }

abbrev pub end_line : Scan → Scan
end_line s =
    if s.field_started || not (is_empty s.field) || not (is_empty s.fields)
    then record s {
      records = s.records ++ ((s.line, s.fields ++ (s.field ∷ [])) ∷ []);
      fields = [];
      field = [];
      field_started = false;
      line = suc s.line;
    }
    else record s { field_started = false; line = suc s.line }

-- One round on a character in quotes, and whether the next character is consumed with it.
pub quoted_step : ℕ → Bytes → Scan → Scan × Bool
quoted_step c rest s =
    if c == b'"'
    then if next_is b'"' rest then (push_char c s, true) else (record s { quoted = false }, false)
    else if c == b'\n'
    then (push_char c (record s { line = suc s.line }), false)
    else (push_char c s, false)

pub plain_step : ℕ → Bytes → Scan → Result DataError Scan
plain_step c rest s =
    if c == b'"'
    then if s.field_started
      then err (stray_quote s.line)
      else ok (record s { quoted = true; field_started = true })
    else if c == b','
    then ok (end_field s)
    else if c == b'\r' && next_is b'\n' rest
    then ok s
    else if c == b'\n'
    then ok (end_line s)
    else ok (record (push_char c s) { field_started = true })

pub scan_step : ℕ → Bytes → Scan → Result DataError (Scan × Bool)
unfolding quoted_step plain_step
scan_step c rest s =
    if s.quoted then ok (quoted_step c rest s) else (plain_step c rest s >>= λ s'. ok (s', false))

-- The loop; `true` skips the character that the round before consumed.
pub scan : Bool → Scan → Bytes → Result DataError Scan
unfolding scan_step
scan skip s [] = ok s
scan true s (c ∷ cs) = scan false s cs
scan false s (c ∷ cs) = scan_step c cs s >>= λ r. scan r.1 r.0 cs

contains : Bytes → List Bytes → Bool
contains name [] = false
contains name (column ∷ columns) = text_eq column name || contains name columns

check_from : ℕ → List Bytes → List Bytes → Result DataError (List Bytes)
unfolding contains
check_from n before [] = ok before
check_from n before (column ∷ columns) =
    let rest = check_from (suc n) (before ++ (column ∷ [])) columns in
    if is_empty (trim column)
    then err (no_name (suc n))
    else if contains column before
    then err (appears_twice column)
    else rest

-- Gives the columns back.
unfoldable pub check_columns : List Bytes → Result DataError (List Bytes)
unfolding check_from
check_columns columns = check_from 0 [] columns

pub full_rows : ℕ → List (ℕ × List Bytes) → Result DataError (List (List Bytes))
full_rows width [] = ok []
full_rows width ((line, row) ∷ records) =
    let rest = (full_rows width records >>= λ rows. ok (row ∷ rows)) in
    if length row == width then rest else err (values_for_columns line (length row) width)

pub table_of : List (ℕ × List Bytes) → Result DataError (List Bytes × List (List Bytes))
table_of [] = err no_header_row
table_of ((line, columns) ∷ records) = check_columns columns >>= λ checked.
    full_rows (length columns) records >>= λ rows. ok (columns, rows)

-- The last line may lack its end.
pub last_record : Scan → List (ℕ × List Bytes)
last_record s =
    if s.field_started || not (is_empty s.field) || not (is_empty s.fields)
    then s.records ++ ((s.line, s.fields ++ (s.field ∷ [])) ∷ [])
    else s.records

abbrev pub start : Scan
start = record {
  records = [];
  fields = [];
  field = [];
  quoted = false;
  field_started = false;
  line = 1;
}

pub finish_csv : Scan → Result DataError (List Bytes × List (List Bytes))
unfolding table_of last_record check_columns full_rows
finish_csv s = if s.quoted then err (not_closed s.line) else table_of (last_record s)

unfoldable pub parse_csv : Bytes → Result DataError (List Bytes × List (List Bytes))
unfolding scan finish_csv
parse_csv text = scan false start text >>= finish_csv
