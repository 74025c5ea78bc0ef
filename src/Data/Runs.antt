-- ===== src/Data/Runs.antt =====
-- data.rs at concrete tables.
use wsblast.Common.{ℕ, ◌≡◌, refl, none, List, [], ◌∷◌, Bytes, codes, arith}
use wsblast.Common.Results.{ok, err}
use wsblast.Data.{
  DataSet, stray_quote, not_closed, values_for_columns, appears_twice, with_share, row_for,
  check_columns, parse_csv,
}
use wsblast.Data.Csv.{write_records, parse_csv-write_records}
use wsblast.Data.Share.{row_for_injective}

abbrev names : List Bytes
names = codes "user" ∷ codes "note" ∷ []

abbrev ada : List Bytes
ada = codes "ada" ∷ codes "hi, \"you\"\nthere" ∷ []

abbrev bob : List Bytes
bob = codes "bob" ∷ [] ∷ []

-- The source's own test of quotes, commas and line breaks.
csv_test :
    parse_csv (codes "user,note\r\nada,\"hi, \"\"you\"\"\nthere\"\r\n\nbob,")
    ≡ ok (names, ada ∷ bob ∷ [])
unfolding parse_csv
csv_test = refl

short_row : parse_csv (codes "a,b\n1,2\n3\n") ≡ err (values_for_columns 3 1 2)
unfolding parse_csv
short_row = refl

open_field : parse_csv (codes "a\n\"x\n") ≡ err (not_closed 3)
unfolding parse_csv
open_field = refl

stray : parse_csv (codes "a\nx\"y\n") ≡ err (stray_quote 2)
unfolding parse_csv
stray = refl

twice : parse_csv (codes "a,a\n1,2\n") ≡ err (appears_twice (codes "a"))
unfolding parse_csv
twice = refl

names_pass : check_columns names ≡ ok names
unfolding check_columns
names_pass = refl

parse_csv-write_records_example :
    parse_csv (write_records (names ∷ ada ∷ bob ∷ [])) ≡ ok (names, ada ∷ bob ∷ [])
parse_csv-write_records_example =
    parse_csv-write_records (codes "user") (codes "note" ∷ []) (ada ∷ bob ∷ []) names names_pass
      (refl, (refl, _))

abbrev table : DataSet
table = record {
  path = codes "users.csv";
  columns = names;
  rows = ada ∷ bob ∷ ada ∷ bob ∷ ada ∷ [];
  share = none;
}

used_once : row_for (with_share table 1 3) 1 ≡ row_for (with_share table 1 3) 1
used_once = refl

row_for_injective_example : (◌≡◌ {A = ℕ} 1 1) × (◌≡◌ {A = ℕ} 1 1)
row_for_injective_example =
    row_for_injective table (omega arith) 3 (omega arith) 1 1 1 1 (omega arith) (omega arith)
      (omega arith) (omega arith) used_once
