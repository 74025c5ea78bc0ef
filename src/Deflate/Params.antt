-- ===== src/Deflate/Params.antt =====
-- src/deflate.rs: the parameters of an agreed extension, what each end makes of them, and the
-- handshake's heads. Texts are ASCII.
pub mod Agreement
mod Runs
use wsblast.Common.{
  ℕ, zero, suc, ◌+◌, Bool, true, false, not, ◌&&◌, Option, none, some, ◌>>=◌, List, [], ◌∷◌, ◌++◌,
  map, Bytes, codes, ◌==◌, leb, if◌then◌else◌, get_elem?,
}
use wsblast.Common.Text.{
  text_eq, lower, eq_ignore_ascii_case, is_whitespace, trim, trim_matches, split_on, split_once,
  parse_unsigned,
}

pub data Role : Type 0 where
  client server : Role

abbrev pub offer_name : Bytes
offer_name = codes "permessage-deflate"

pub record Params : Type 0 where
  pub server_no_context_takeover : Bool
  pub client_no_context_takeover : Bool
  pub server_max_window_bits : Option ℕ
  pub client_max_window_bits : Option ℕ

abbrev pub default_params : Params
default_params = record {
  server_no_context_takeover = false;
  client_no_context_takeover = false;
  server_max_window_bits = none;
  client_max_window_bits = none;
}

-- The name of a parameter and its value, which may stand in quotes.
pub name_and_value : Bytes → Bytes × Option Bytes
name_and_value part = elim (split_once b'=' part) [
  | some (name, value) ↦ (trim name, some (trim_matches (λ c. c == b'"') (trim value)))
  | none ↦ (part, none)
]

-- `bits`: no value, or a number from 8 to 15; `none` refuses the extension.
pub window_bits : Option Bytes → Option (Option ℕ)
window_bits none = some none
window_bits (some v) = do
  b ← parse_unsigned 255 v
  if leb 8 b && leb b 15 then some (some b) else none

pub apply_param : Params → Bytes → Option Bytes → Option Params
apply_param p name value =
    let key = map lower name in
    if text_eq key (codes "server_no_context_takeover")
    then some (record p { server_no_context_takeover = true })
    else if text_eq key (codes "client_no_context_takeover")
    then some (record p { client_no_context_takeover = true })
    else if text_eq key (codes "server_max_window_bits")
    then (window_bits value >>= λ bits. some (record p { server_max_window_bits = bits }))
    else if text_eq key (codes "client_max_window_bits")
    then (window_bits value >>= λ bits. some (record p { client_max_window_bits = bits }))
    else none

-- The loop over the parts behind the name; empty parts are skipped.
pub apply_parts : Params → List Bytes → Option Params
apply_parts p [] = some p
apply_parts p ([] ∷ parts) = apply_parts p parts
apply_parts p ((c ∷ cs) ∷ parts) = do
  let (name, value) = name_and_value (c ∷ cs)
  p' ← apply_param p name value
  apply_parts p' parts

parse_named : List Bytes → Option Params
parse_named [] = none
parse_named (name ∷ parts) =
    if eq_ignore_ascii_case name offer_name then apply_parts default_params parts else none

pub parse_extension : Bytes → Option Params
unfolding parse_named
parse_extension extension = parse_named (map trim (split_on b';' extension))

-- `find_map`
pub first_some : {A : Type 0} → (A → Option Params) → List A → Option Params
first_some f [] = none
first_some f (x ∷ xs) = let rest = first_some f xs in elim (f x) [ some p ↦ some p | none ↦ rest ]

unfoldable pub parse : Bytes → Option Params
unfolding name_and_value window_bits apply_param apply_parts parse_extension first_some
parse value = first_some parse_extension (split_on b',' value)

-- `is_none_or(|bits| bits == 15)`
abbrev pub full_window : Option ℕ → Bool
full_window none = true
full_window (some bits) = bits == 15

unfoldable pub can_compress : Params → Role → Bool
can_compress p client = full_window p.client_max_window_bits
can_compress p server = full_window p.server_max_window_bits

unfoldable pub reset_deflater : Params → Role → Bool
reset_deflater p client = p.client_no_context_takeover
reset_deflater p server = p.server_no_context_takeover

unfoldable pub reset_inflater : Params → Role → Bool
reset_inflater p client = p.server_no_context_takeover
reset_inflater p server = p.client_no_context_takeover

unfoldable pub accept_offer : Bytes → Option Bytes
unfolding parse
accept_offer offer = parse offer >>= λ params.
    (if full_window params.server_max_window_bits
      then some (
          if params.server_no_context_takeover
          then offer_name ++ codes "; server_no_context_takeover"
          else offer_name)
      else none)

-- `split("\r\n")`
lines_from : Bytes → Bytes → List Bytes
lines_from line [] = line ∷ []
lines_from line (c ∷ []) = (line ++ (c ∷ [])) ∷ []
lines_from line (c ∷ d ∷ cs) =
    let ended = line ∷ lines_from [] cs in
    let longer = lines_from (line ++ (c ∷ [])) (d ∷ cs) in
    if c == 13 && d == 10 then ended else longer

pub split_lines : Bytes → List Bytes
unfolding lines_from
split_lines text = lines_from [] text

header_line : Bytes → Bytes → Option Bytes
header_line name line = do
  (key, value) ← split_once b':' line
  if eq_ignore_ascii_case (trim key) name then some (trim value) else none

-- `filter_map` over the lines behind the first.
header_values : Bytes → List Bytes → List Bytes
unfolding header_line
header_values name [] = []
header_values name (line ∷ lines) =
    let rest = header_values name lines in
    elim (header_line name line) [ some value ↦ value ∷ rest | none ↦ rest ]

skip_first : List Bytes → List Bytes
skip_first [] = []
skip_first (line ∷ lines) = lines

unfoldable pub header : Bytes → Bytes → List Bytes
unfolding split_lines header_values skip_first
header head name = header_values name (skip_first (split_lines head))

-- `split_whitespace`: the words, with the one that is being read.
words_from : Bytes → Bytes → List Bytes
words_from [] [] = []
words_from (w ∷ ws) [] = (w ∷ ws) ∷ []
words_from [] (c ∷ cs) =
    let rest = words_from [] cs in
    let longer = words_from (c ∷ []) cs in if is_whitespace c then rest else longer
words_from (w ∷ ws) (c ∷ cs) =
    let ended = (w ∷ ws) ∷ words_from [] cs in
    let longer = words_from (w ∷ (ws ++ (c ∷ []))) cs in if is_whitespace c then ended else longer

first_line : List Bytes → Bytes
first_line [] = []
first_line (line ∷ lines) = line

status_is_101 : Bytes → Bool
unfolding words_from
status_is_101 status = elim (get_elem? (words_from [] status) 1) [
  | some word ↦ text_eq word (codes "101")
  | none ↦ false
]

unfoldable pub negotiated : Bytes → Option Params
unfolding split_lines status_is_101 first_line header first_some parse
negotiated response =
    if status_is_101 (first_line (split_lines response))
    then first_some parse (header response (codes "sec-websocket-extensions"))
    else none
