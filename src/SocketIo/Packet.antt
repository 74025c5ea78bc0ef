-- ===== src/SocketIo/Packet.antt =====
-- src/socketio.rs: `Packet`, its text and how it is read. Texts are ASCII.
pub mod RoundTrip
pub mod Bounds
use wsblast.Common.{
  ℕ, zero, suc, ◌+◌, ◌-◌, ◌^◌, Bool, true, false, not, ◌&&◌, ◌||◌, Option, none, some, ◌>>=◌, List,
  [], ◌∷◌, ◌++◌, Bytes, codes, leb, ◌==◌, if◌then◌else◌,
}
use wsblast.Common.Text.{text_eq, parse_unsigned, split_once}
use wsblast.Common.Decimal.{decimal, leading_digits, after_digits}

pub record Packet : Type 0 where
  pub kind : ℕ
  pub attachments : ℕ
  pub namespace : Bytes
  pub id : Option ℕ
  pub text : Bytes

abbrev pub max_attachments : ℕ
max_attachments = 1024

abbrev pub placeholder : Bytes
placeholder = codes "{\"_placeholder\":true,\"num\":0}"

-- `matches!(kind, b'5' | b'6')`
abbrev pub is_binary : ℕ → Bool
is_binary kind = kind == b'5' || kind == b'6'

abbrev pub small_count : ℕ → Option ℕ
small_count n = if leb n max_attachments then some n else none

abbrev pub behind_dash : ℕ → Bytes → Option (ℕ × Bytes)
behind_dash n [] = none
behind_dash n (c ∷ cs) = if c == b'-' then some (n, cs) else none

-- The number of attachments of a binary packet, and what follows it.
pub attachment_count : ℕ → Bytes → Option (ℕ × Bytes)
attachment_count kind rest =
    if is_binary kind
    then (parse_unsigned (2 ^ 64 - 1) (leading_digits rest) >>= λ n.
        small_count n >>= λ m. behind_dash m (after_digits rest))
    else some (0, rest)

abbrev pub until_comma : Bytes → Bytes × Bytes
until_comma rest = elim (split_once b',' rest) [ some parts ↦ parts | none ↦ (rest, []) ]

-- The namespace, and what follows it.
pub namespace_of : Bytes → Bytes × Bytes
namespace_of [] = (codes "/", [])
namespace_of (c ∷ cs) = if c == b'/' then until_comma (c ∷ cs) else (codes "/", c ∷ cs)

pub packet_of : ℕ → ℕ → Bytes × Bytes → Packet
packet_of kind attachments (namespace, rest) = record {
  kind = kind;
  attachments = attachments;
  namespace = namespace;
  id = parse_unsigned (2 ^ 64 - 1) (leading_digits rest);
  text = after_digits rest;
}

pub parse_kind : Bytes → Option Packet
unfolding attachment_count namespace_of packet_of
parse_kind [] = none
parse_kind (kind ∷ rest) =
    if leb b'0' kind && leb kind b'6'
    then (attachment_count kind rest >>= λ r. some (packet_of kind r.0 (namespace_of r.1)))
    else none

unfoldable pub parse : Bytes → Option Packet
unfolding parse_kind leading_digits after_digits
parse [] = none
parse (c ∷ rest) = if c == b'4' then parse_kind rest else none

pub attachment_text : ℕ → ℕ → Bytes → Bytes
attachment_text kind attachments rest =
    if is_binary kind then decimal attachments ++ (b'-' ∷ rest) else rest

pub namespace_text : Bytes → Bytes → Bytes
namespace_text namespace rest =
    if text_eq namespace (codes "/") then rest else namespace ++ (b',' ∷ rest)

abbrev pub id_text : Option ℕ → Bytes → Bytes
id_text none rest = rest
id_text (some id) rest = decimal id ++ rest

unfoldable pub encode : Packet → Bytes
unfolding attachment_text namespace_text decimal
encode p =
    b'4'
    ∷ p.kind
    ∷ attachment_text p.kind p.attachments (namespace_text p.namespace (id_text p.id p.text))
