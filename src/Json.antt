-- ===== src/Json.antt =====
-- serde_json, as the checks on replies and the mock's rules use it.
pub mod Toy
use wsblast.Common.{Bool, Option, Bytes}

-- `from_str`, `Value::pointer`, `to_string`, `==`, a value's text where it is a string, and whether
-- it is a number or a Boolean.
pub record Serde (V : Type 0) : Type 0 where
  pub from_str : Bytes → Option V
  pub pointer : V → Bytes → Option V
  pub to_string : V → Bytes
  pub same_value : V → V → Bool
  pub string : Bytes → V
  pub as_string : V → Option Bytes
  pub is_scalar : V → Bool
