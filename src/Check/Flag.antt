-- ===== src/Check/Flag.antt =====
-- check.rs: checks as they are written on the command line and sent to agents.
use wsblast.Common.{
  ◌≡◌, refl, ap, subst, ◌∙◌, false, Option, none, some, ◌∷◌, ◌++◌, Bytes, codes, if_intro,
}
use wsblast.Common.Results.{Result, ok, err}
use wsblast.Common.Text.{
  is_empty, strip_prefix, split_once, split_once_first, split_once_absent, Without, FrontWithout,
  split_once-FrontWithout,
}
use wsblast.Json.{Serde}
use wsblast.Check.{
  Check, json, contains, CheckError, check_pointer, validate_check, if_valid, value_or_string,
  json_flag, parse_json_flag, parse_contains, parse_flag, flag_value,
}

-- What a flag can spell: a pointer with no equals sign, or a text.
abbrev IsSpelt : {V : Type 0} → Check V → Type 0
IsSpelt (json pointer equals) = Without b'=' pointer × (check_pointer pointer ≡ none)
IsSpelt (contains t) = is_empty t ≡ false

abbrev Spelt : {V : Type 0} → Result CheckError (Check V) → Type 0
Spelt (ok check) = IsSpelt check
Spelt (err e) = Unit {0}

module _ {V : Type 0} (serde : Serde V) where
  pointer-Spelt :
      (pointer : Bytes) (equals : Option V) (o : Option CheckError)
      → Without b'=' pointer
      → check_pointer pointer ≡ o
      → Spelt (if_valid (json pointer equals) o)
  pointer-Spelt pointer equals none plain e = (plain, e)
  pointer-Spelt pointer equals (some x) plain e = tt

  split-Spelt :
      (rest : Bytes) (o : Option (Bytes × Bytes))
      → FrontWithout b'=' rest o
      → Spelt (if_valid (json_flag serde rest o) (validate_check (json_flag serde rest o)))
  split-Spelt rest none plain = pointer-Spelt rest none (check_pointer rest) plain refl
  split-Spelt rest (some (pointer, value)) plain =
      pointer-Spelt pointer (some (value_or_string serde value (serde.from_str value)))
        (check_pointer pointer) plain refl

  json-Spelt : (spec : Bytes) (o : Option Bytes) → Spelt (parse_json_flag serde spec o)
  json-Spelt spec none = tt
  json-Spelt spec (some rest) =
      split-Spelt rest (split_once b'=' rest) (split_once-FrontWithout b'=' rest)

  contains-Spelt : (spec : Bytes) (o : Option Bytes) → Spelt (parse_contains serde spec o)
  contains-Spelt spec none = json-Spelt spec (strip_prefix (codes "json:") spec)
  contains-Spelt spec (some t) =
      if_intro Spelt (is_empty t) (err CheckError.empty_contains) (ok (contains t)) (λ h. tt)
        (λ h. h)

  parse_flag-Spelt : (spec : Bytes) → Spelt (parse_flag serde spec)
  unfolding parse_flag
  parse_flag-Spelt spec = contains-Spelt spec (strip_prefix (codes "contains:") spec)

  read_pointer :
      (pointer : Bytes) (equals : Option V) (rest : Bytes) (o : Option (Bytes × Bytes))
      → split_once b'=' rest ≡ o
      → json_flag serde rest o ≡ json pointer equals
      → check_pointer pointer ≡ none
      → parse_flag serde (codes "json:" ++ rest) ≡ ok (json pointer equals)
  unfolding parse_flag
  read_pointer pointer equals rest o split made fine =
      ap (λ p. if_valid (json_flag serde rest p) (validate_check (json_flag serde rest p))) split
      ∙ ap (λ c. if_valid c (validate_check c)) made
      ∙ ap (if_valid (json pointer equals)) fine

  contains_again :
      (t : Bytes) → is_empty t ≡ false → parse_flag serde (codes "contains:" ++ t) ≡ ok (contains t)
  unfolding parse_flag
  contains_again t some_text = rw some_text

  -- The value that a check compares with is read back from the JSON it is written as.
  abbrev pub ReadBack : Check V → Type 0
  ReadBack (json pointer none) = Unit {0}
  ReadBack (json pointer (some v)) = serde.from_str (serde.to_string v) ≡ some v
  ReadBack (contains t) = Unit {0}

  spelt_again :
      (check : Check V)
      → ReadBack check
      → IsSpelt check
      → parse_flag serde (flag_value serde check) ≡ ok check
  unfolding flag_value
  spelt_again (json pointer none) reads (plain, fine) =
      read_pointer pointer none pointer none (split_once_absent b'=' pointer plain) refl fine
  spelt_again (json pointer (some value)) reads (plain, fine) =
      read_pointer pointer (some value) (pointer ++ (b'=' ∷ serde.to_string value))
        (some (pointer, serde.to_string value))
        (split_once_first b'=' pointer (serde.to_string value) plain)
        (ap (λ o. json pointer (some (value_or_string serde (serde.to_string value) o))) reads) fine
  spelt_again (contains t) reads some_text = contains_again t some_text

  -- The check that a flag gives is given again by the flag that it is written as, which is how a
  -- coordinator sends it to its agents, provided that JSON gives back the value it compares with.
  pub parse_flag-flag_value :
      (spec : Bytes) (check : Check V)
      → ReadBack check
      → parse_flag serde spec ≡ ok check
      → parse_flag serde (flag_value serde check) ≡ ok check
  parse_flag-flag_value spec check reads e =
      spelt_again check reads (subst Spelt e (parse_flag-Spelt spec))
