-- ===== src/Json/Toy.antt =====
-- A format for concrete runs: what follows a brace is one value, a text, with itself at `/type`.
use wsblast.Common.{
  Bool, true, false, ◌==◌, Option, none, some, [], ◌∷◌, Bytes, codes, if◌then◌else◌,
}
use wsblast.Common.Text.{text_eq}
use wsblast.Json.{Serde}

abbrev pub toy_from_str : Bytes → Option Bytes
toy_from_str [] = none
toy_from_str (c ∷ cs) = if c == b'{' then some cs else none

abbrev pub toy : Serde Bytes
toy = record {
  from_str = toy_from_str;
  pointer = λ v p. if text_eq p (codes "/type") then some v else none;
  to_string = λ v. b'{' ∷ v;
  same_value = text_eq;
  string = λ s. s;
  as_string = some;
  is_scalar = λ v. false;
}

abbrev pub any_bytes : Bytes → Bool
any_bytes b = true
