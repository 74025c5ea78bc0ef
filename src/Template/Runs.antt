-- ===== src/Template/Runs.antt =====
-- template.rs at concrete templates.
use wsblast.Common.{◌≡◌, refl, false, none, some, List, [], ◌∷◌, Bytes, codes, arith}
use wsblast.Common.Results.{ok}
use wsblast.Common.Text.{cut_at}
use wsblast.Data.{DataSet, column, from_parts}
use wsblast.Data.Table.{Regular}
use wsblast.Template.{
  Template, Values, text, seq, data_column, var, parse_with_vars, is_dynamic, check_data, render,
}
use wsblast.Template.Source.{written_parts, parse_with_vars-written}

abbrev session : List Bytes
session = codes "session" ∷ []

abbrev example : Template
example = record {
  source = codes "{\"s\":\"{{session}}\",\"x\":\"{{other}}\",{{data.user}}}";
  parts =
      text (codes "{\"s\":\"")
      ∷ var 0
      ∷ text (codes "\",\"x\":\"{{other}}\",")
      ∷ data_column (codes "user")
      ∷ text (codes "}")
      ∷ [];
}

example_parses : parse_with_vars example.source session ≡ some example
unfolding parse_with_vars cut_at
example_parses = refl

abbrev plain : Template
plain = record { source = codes "{{name}} and {{"; parts = text (codes "{{name}} and {{") ∷ [] }

plain_parses : parse_with_vars plain.source [] ≡ some plain
unfolding parse_with_vars cut_at
plain_parses = refl

abbrev values : Values
values = record { seq_value = 7; worker = 3; row = none; var_values = []; now_ms = 0 }

plain_is_static : is_dynamic plain ≡ false
unfolding is_dynamic
plain_is_static = refl

numbered : Template
numbered = record { source = []; parts = text (codes "n") ∷ seq ∷ [] }

numbered_renders : render numbered (record values { seq_value = 120 }) ≡ codes "n120"
unfolding numbered render
numbered_renders = refl

parse_with_vars-written_example :
    (t : Template) × (parse_with_vars example.source session ≡ some t)
    × (t.source ≡ example.source)
    × (written_parts session t.parts ≡ example.source)
parse_with_vars-written_example = parse_with_vars-written example.source session

abbrev users : DataSet
users = record {
  path = codes "u.csv";
  columns = codes "user" ∷ [];
  rows = (codes "ada" ∷ []) ∷ (codes "bob" ∷ []) ∷ [];
  share = none;
}

users_accepted : from_parts users.path users.columns users.rows ≡ ok users
unfolding from_parts
users_accepted = refl

users-Regular : Regular users
users-Regular = record { has_rows = omega arith; full = (refl, (refl, _)) }

columns_pass : check_data example (some users) ≡ none
unfolding check_data column
columns_pass = refl
