-- ===== src/Data/Csv.antt =====
-- data.rs: what `parse_csv` reads.
use wsblast.Common.{
  ℕ, suc, ◌≡◌, refl, ap, ◌∙◌, inl, inr, true, false, Bool-cases, List, [], ◌∷◌, ◌++◌, append_assoc,
  append-nil, Bytes, length, ◌==◌, ==_iff, if◌then◌else◌, All, arith,
}
use wsblast.Common.Results.{ok}
use wsblast.Data.{
  Scan, next_is, quoted_step, plain_step, scan_step, scan, check_columns, full_rows, table_of,
  last_record, finish_csv, parse_csv,
}

-- How a table is written with every field in quotes, before a text that follows.
pub quote_field : Bytes → Bytes → Bytes
quote_field [] rest = b'"' ∷ rest
quote_field (c ∷ cs) rest =
    if c == b'"' then b'"' ∷ b'"' ∷ quote_field cs rest else c ∷ quote_field cs rest

pub write_record : List Bytes → Bytes → Bytes
write_record [] rest = b'\n' ∷ rest
write_record (field ∷ []) rest = b'"' ∷ quote_field field (b'\n' ∷ rest)
write_record (field ∷ next ∷ fields) rest =
    b'"' ∷ quote_field field (b',' ∷ write_record (next ∷ fields) rest)

pub write_records : List (List Bytes) → Bytes
write_records [] = []
write_records (record_ ∷ records) = write_record record_ (write_records records)

-- A state inside a field in quotes.
abbrev inside : List (ℕ × List Bytes) → List Bytes → Bytes → ℕ → Scan
inside records fields field line = record {
  records = records;
  fields = fields;
  field = field;
  quoted = true;
  field_started = true;
  line = line;
}

-- A state behind such a field, and one before a field.
abbrev behind : List (ℕ × List Bytes) → List Bytes → Bytes → ℕ → Scan
behind records fields field line = record {
  records = records;
  fields = fields;
  field = field;
  quoted = false;
  field_started = true;
  line = line;
}

abbrev before : List (ℕ × List Bytes) → List Bytes → ℕ → Scan
before records fields line = record {
  records = records;
  fields = fields;
  field = [];
  quoted = false;
  field_started = false;
  line = line;
}

scan_char :
    (records : List (ℕ × List Bytes)) (fields : List Bytes) (field : Bytes) (line c : ℕ)
    (rest : Bytes)
    → (c == b'"') ≡ false
    → scan false (inside records fields field line) (c ∷ rest)
      ≡ scan false
          (inside records fields (field ++ (c ∷ [])) (if c == b'\n' then suc line else line))
          rest
unfolding scan scan_step quoted_step
scan_char records fields field line c rest e = elim (Bool-cases (c == b'\n')) [
  | inl newline ↦ rw (e, newline)
  | inr same ↦ rw (e, same)
]

scan_quotes :
    (records : List (ℕ × List Bytes)) (fields : List Bytes) (field : Bytes) (line : ℕ)
    (rest : Bytes)
    → scan false (inside records fields field line) (b'"' ∷ b'"' ∷ rest)
      ≡ scan false (inside records fields (field ++ (b'"' ∷ [])) line) rest
unfolding scan scan_step quoted_step
scan_quotes records fields field line rest = refl

scan_close :
    (records : List (ℕ × List Bytes)) (fields : List Bytes) (field : Bytes) (line : ℕ)
    (rest : Bytes)
    → next_is b'"' rest ≡ false
    → scan false (inside records fields field line) (b'"' ∷ rest)
      ≡ scan false (behind records fields field line) rest
unfolding scan scan_step quoted_step
scan_close records fields field line rest e = rw e

scan_open :
    (records : List (ℕ × List Bytes)) (fields : List Bytes) (line : ℕ) (rest : Bytes)
    → scan false (before records fields line) (b'"' ∷ rest)
      ≡ scan false (inside records fields [] line) rest
unfolding scan scan_step plain_step
scan_open records fields line rest = refl

scan_comma :
    (records : List (ℕ × List Bytes)) (fields : List Bytes) (field : Bytes) (line : ℕ)
    (rest : Bytes)
    → scan false (behind records fields field line) (b',' ∷ rest)
      ≡ scan false (before records (fields ++ (field ∷ [])) line) rest
unfolding scan scan_step plain_step
scan_comma records fields field line rest = refl

scan_newline :
    (records : List (ℕ × List Bytes)) (fields : List Bytes) (field : Bytes) (line : ℕ)
    (rest : Bytes)
    → scan false (behind records fields field line) (b'\n' ∷ rest)
      ≡ scan false (before (records ++ ((line, fields ++ (field ∷ [])) ∷ [])) [] (suc line)) rest
unfolding scan scan_step plain_step
scan_newline records fields field line rest = refl

-- A field in quotes is read whole, on whatever lines.
scan-quote_field :
    (records : List (ℕ × List Bytes)) (fields : List Bytes) (field s : Bytes) (line : ℕ)
    (rest : Bytes)
    → next_is b'"' rest ≡ false
    → (line' : ℕ) × (scan false (inside records fields field line) (quote_field s rest)
        ≡ scan false (behind records fields (field ++ s) line') rest)
unfolding quote_field
scan-quote_field records fields field [] line rest e =
    (line, scan_close records fields field line rest e ∙ rw (append-nil field))
scan-quote_field records fields field (c ∷ cs) line rest e = elim (Bool-cases (c == b'"')) [
  | inl quote ↦
      let (line', read) = scan-quote_field records fields (field ++ (b'"' ∷ [])) cs line rest e in
      let c_is : c ≡ b'"' = (==_iff c b'"').0 quote in
      (
        line',
        rw quote (
            scan_quotes records fields field line (quote_field cs rest)
            ∙ read
            ∙ rw (c_is, append_assoc field (b'"' ∷ []) cs)),
      )
  | inr other ↦
      let line1 = if c == b'\n' then suc line else line in
      let (line', read) = scan-quote_field records fields (field ++ (c ∷ [])) cs line1 rest e in
      (
        line',
        rw other (
            scan_char records fields field line c (quote_field cs rest) other
            ∙ read
            ∙ rw (append_assoc field (c ∷ []) cs)),
      )
]

-- A record is read whole, whatever fields were read before it on its line.
scan-write_record :
    (records : List (ℕ × List Bytes)) (fields : List Bytes) (f : Bytes) (fs : List Bytes) (line : ℕ)
    (rest : Bytes)
    → (at : ℕ) × (line' : ℕ) × (scan false (before records fields line) (write_record (f ∷ fs) rest)
        ≡ scan false (before (records ++ ((at, fields ++ (f ∷ fs)) ∷ [])) [] line') rest)
unfolding write_record
scan-write_record records fields f [] line rest =
    let (line', read) = scan-quote_field records fields [] f line (b'\n' ∷ rest) refl in
    (
      line',
      suc line',
      scan_open records fields line (quote_field f (b'\n' ∷ rest))
          ∙ read
          ∙ scan_newline records fields f line' rest,
    )
scan-write_record records fields f (g ∷ gs) line rest =
    let (line1, read) =
      scan-quote_field records fields [] f line (b',' ∷ write_record (g ∷ gs) rest) refl in
    let (at, line', others) = scan-write_record records (fields ++ (f ∷ [])) g gs line1 rest in
    (
      at,
      line',
      scan_open records fields line (quote_field f (b',' ∷ write_record (g ∷ gs) rest))
          ∙ read
          ∙ scan_comma records fields f line1 (write_record (g ∷ gs) rest)
          ∙ others
          ∙ ap (λ (r : List Bytes). scan false (before (records ++ ((at, r) ∷ [])) [] line') rest)
              (append_assoc fields (f ∷ []) (g ∷ gs)),
    )

-- The rows have a value for each of the columns.
abbrev pub Full : ℕ → List Bytes → Type 0
Full width row = length row ≡ suc width

-- Rows are read whole, each with the line on which it ends, and their widths are accepted.
scan-write_records :
    (width : ℕ) (rows : List (List Bytes)) (records : List (ℕ × List Bytes)) (line : ℕ)
    → All (Full width) rows
    → (read : List (ℕ × List Bytes)) × (line' : ℕ) × (scan false
          (before records [] line)
          (write_records rows)
        ≡ ok (before (records ++ read) [] line'))
      × (full_rows (suc width) read ≡ ok rows)
unfolding write_records scan full_rows
scan-write_records width [] records line full = ([], line, rw (append-nil records), refl)
scan-write_records width ([] ∷ rows) records line (wide, full) = ground arith
scan-write_records width ((f ∷ fs) ∷ rows) records line (wide, full) =
    let (at, line1, first) = scan-write_record records [] f fs line (write_records rows) in
    let (read, line', others, accepted) =
      scan-write_records width rows (records ++ ((at, f ∷ fs) ∷ [])) line1 full in
    (
      (at, f ∷ fs) ∷ read,
      line',
      first
          ∙ others
          ∙ ap (λ r. ok (before r [] line')) (append_assoc records ((at, f ∷ fs) ∷ []) read),
      rw (wide, accepted) (ground arith),
    )

-- A table with at least one column, whose column names pass the checks and whose rows have a value
-- for every column, is what is read from its text with every field in quotes: commas, quotes and
-- line breaks in fields included.
pub parse_csv-write_records :
    (column : Bytes) (columns : List Bytes) (rows : List (List Bytes)) (checked : List Bytes)
    → check_columns (column ∷ columns) ≡ ok checked
    → All (Full (length columns)) rows
    → parse_csv (write_records ((column ∷ columns) ∷ rows)) ≡ ok (column ∷ columns, rows)
unfolding parse_csv finish_csv table_of last_record write_records
parse_csv-write_records column columns rows checked names full =
    let (at, line1, first) = scan-write_record [] [] column columns 1 (write_records rows) in
    let (read, line', others, accepted) =
      scan-write_records (length columns) rows ((at, column ∷ columns) ∷ []) line1 full in
    rw (first, others) (rw names (rw accepted))
