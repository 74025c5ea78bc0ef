-- ===== src/Distributed/Protocol.antt =====
-- src/distributed/protocol.rs: the version and token checks and the split of the work. Texts are ASCII
-- and numbers of connections have 64 bits.
pub mod Split
pub mod Token
mod Runs
use wsblast.Common.{
  ℕ, zero, suc, ◌+◌, ◌-◌, ◌/◌, ◌%◌, max, bit_or, bit_xor, Bool, true, false, ◌&&◌, ◌||◌, Option,
  none, some, List, [], ◌∷◌, Bytes, codes, length, ltb, leb, ◌==◌, if◌then◌else◌,
}
use wsblast.Common.Results.{Result, ok, err}
use wsblast.Common.Text.{eq_ignore_ascii_case, is_whitespace, trim, split_once}

abbrev protocol_version : ℕ
protocol_version = 4

abbrev min_token_len : ℕ
min_token_len = 16

pub data TokenError : Type 0 where
  too_short not_printable : TokenError

pub data VersionError : Type 0 where
  mismatch : ℕ → Bytes → VersionError

-- A peer's protocol and its version's name; `none` where they agree.
pub check_protocol : ℕ → Bytes → Option VersionError
check_protocol protocol version =
    if protocol == protocol_version then none else some (mismatch protocol version)

-- The loop of `tokens_match`: `!byte` is `255 - byte`.
pub token_diff : ℕ → Bytes → Bytes → ℕ
token_diff diff [] presented = diff
token_diff diff (b ∷ bs) [] = token_diff (bit_or diff (bit_xor b (255 - b))) bs []
token_diff diff (b ∷ bs) (p ∷ ps) = token_diff (bit_or diff (bit_xor b p)) bs ps

unfoldable pub tokens_match : Bytes → Bytes → Bool
unfolding token_diff
tokens_match expected presented =
    token_diff (if length expected == length presented then 0 else 1) expected presented == 0

not_empty : Bytes → Option Bytes
not_empty [] = none
not_empty (c ∷ cs) = some (c ∷ cs)

unfoldable pub bearer_token : Bytes → Option Bytes
unfolding not_empty
bearer_token header = elim (split_once b' ' (trim header)) [
  | none ↦ none
  | some (scheme, token) ↦
      if eq_ignore_ascii_case scheme (codes "bearer") then not_empty (trim token) else none
]

abbrev is_control : ℕ → Bool
is_control c = ltb c 32 || c == 127

any_unprintable : Bytes → Bool
any_unprintable [] = false
any_unprintable (c ∷ cs) = is_whitespace c || is_control c || any_unprintable cs

unfoldable pub validate_token : Bytes → Option TokenError
unfolding any_unprintable
validate_token token =
    if ltb (length token) min_token_len
    then some too_short
    else if any_unprintable token
    then some not_printable
    else none

unfoldable pub split : ℕ → ℕ → ℕ → ℕ
split total index agents =
    let n = max agents 1 in total / n + (if ltb index (total % n) then 1 else 0)

pub record Share : Type 0 where
  pub index : ℕ
  pub agents : ℕ

unfoldable pub part_of_total : Share → ℕ → ℕ
unfolding split
part_of_total share total = split total share.index share.agents
