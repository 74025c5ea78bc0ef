-- ===== src/SocketIo/Packet/RoundTrip.antt =====
-- socketio.rs: a packet's text is read back as the packet.
use mathlib.Core.List.{reverse, reverse-cons}
use wsblast.Common.{
  ℕ, ◌-◌, ◌^◌, ◌≤◌, ◌<◌, ◌≡◌, refl, sym, ap, subst, ◌∙◌, inl, inr, true, false, ◌&&◌, Bool-cases,
  Option, none, some, [], ◌∷◌, ◌++◌, append-nil, append_assoc, Bytes, codes, All, leb, ◌==◌,
  if◌then◌else◌, arith,
}
use wsblast.Common.Text.{text_eq, text_eq_sound, parse_unsigned, split_once_from}
use wsblast.Common.Decimal.{
  decimal, leading_digits, after_digits, IsDigit, NoDigit, decimal-IsDigit, decimal_cons,
  leading_digits_append, after_digits_append, parse_unsigned-decimal,
}
use wsblast.SocketIo.Packet.{
  Packet, max_attachments, is_binary, attachment_count, namespace_of, packet_of, parse_kind, parse,
  attachment_text, namespace_text, id_text, encode,
}

abbrev pub NoComma : ℕ → Type 0
NoComma c = (c == b',') ≡ false

abbrev NoSlash : Bytes → Type 0
NoSlash [] = Unit {0}
NoSlash (c ∷ cs) = (c == b'/') ≡ false

-- A slash and a name without commas.
abbrev pub IsNamespace : Bytes → Type 0
IsNamespace [] = ⊥
IsNamespace (c ∷ cs) = (c ≡ b'/') × All NoComma cs

abbrev pub Fits : Option ℕ → Type 0
Fits none = Unit {0}
Fits (some id) = id < 2 ^ 64

-- A kind of packet, attachments only where it is a binary one, and data that no digit and no slash
-- starts, as JSON never does but for a bare number.
pub record IsPacket (p : Packet) : Type 0 where
  pub kind_from : b'0' ≤ p.kind
  pub kind_to : p.kind ≤ b'6'
  pub few : p.attachments ≤ (if is_binary p.kind then max_attachments else 0)
  pub in_namespace : IsNamespace p.namespace
  pub id_fits : Fits p.id
  pub no_digit : NoDigit p.text
  pub no_slash : NoSlash p.text

split_once_from_at :
    (front xs rest : Bytes)
    → All NoComma xs
    → split_once_from b',' front (xs ++ (b',' ∷ rest)) ≡ some (reverse front ++ xs, rest)
split_once_from_at front [] rest h = rw (append-nil (reverse front))
split_once_from_at front (x ∷ xs) rest (here, h) =
    rw (here, split_once_from_at (x ∷ front) xs rest h)
      (rw (reverse-cons x front)
        (ap (λ (t : Bytes). some (t, rest)) (append_assoc (reverse front) (x ∷ []) xs)))

default_namespace : (rest : Bytes) → NoSlash rest → namespace_of rest ≡ (codes "/", rest)
unfolding namespace_of
default_namespace [] h = refl
default_namespace (c ∷ cs) h = rw h

read_namespace :
    (ns rest : Bytes)
    → IsNamespace ns
    → NoSlash rest
    → namespace_of (namespace_text ns rest) ≡ (ns, rest)
unfolding namespace_of namespace_text
read_namespace [] rest h k = absurd h
read_namespace (c ∷ cs) rest (slash, h) k = elim (Bool-cases (text_eq (c ∷ cs) (codes "/"))) [
  | inl same ↦
      let all : codes "/" ≡ c ∷ cs = sym (text_eq_sound (c ∷ cs) (codes "/") same) in
      rw same (default_namespace rest k ∙ ap (λ (t : Bytes). (t, rest)) all)
  | inr longer ↦ rw (longer, slash) (rw (split_once_from_at (b'/' ∷ []) cs rest h))
]

read_attachments :
    (kind n : ℕ) (rest : Bytes)
    → n ≤ (if is_binary kind then max_attachments else 0)
    → attachment_count kind (attachment_text kind n rest) ≡ some (n, rest)
unfolding attachment_count attachment_text
read_attachments kind n rest h = elim (Bool-cases (is_binary kind)) [
  | inl binary ↦
      let small : n ≤ max_attachments = rw binary at h in
      let fits : leb n max_attachments ≡ true = ground arith in
      rw (
        binary,
        leading_digits_append (decimal n) (b'-' ∷ rest) (decimal-IsDigit n) refl,
        parse_unsigned-decimal (2 ^ 64 - 1) n (omega arith) (omega arith),
        fits,
        after_digits_append (decimal n) (b'-' ∷ rest) (decimal-IsDigit n) refl,
      )
  | inr plain ↦
      let zero_of : n ≤ 0 = rw plain at h in
      let nothing : 0 ≡ n = omega arith in rw (plain, ← nothing)
]

digit-NoSlash : (d : ℕ) → IsDigit d → (d == b'/') ≡ false
digit-NoSlash d h = ground arith

id_text-NoSlash : (id : Option ℕ) (text : Bytes) → NoSlash text → NoSlash (id_text id text)
id_text-NoSlash none text h = h
id_text-NoSlash (some n) text h =
    let (d, ds, form) = decimal_cons n in
    let digits = subst (All IsDigit) form (decimal-IsDigit n) in
    let no_slash : (d == b'/') ≡ false = digit-NoSlash d digits.0 in rw form no_slash

read_id :
    (id : Option ℕ) (text : Bytes)
    → Fits id
    → NoDigit text
    → (parse_unsigned (2 ^ 64 - 1) (leading_digits (id_text id text)) ≡ id)
      × (after_digits (id_text id text) ≡ text)
read_id none text h k = (rw (leading_digits_append [] text tt k), after_digits_append [] text tt k)
read_id (some n) text h k = (
  rw (leading_digits_append (decimal n) text (decimal-IsDigit n) k)
      (parse_unsigned-decimal (2 ^ 64 - 1) n (omega arith) (omega arith)),
  after_digits_append (decimal n) text (decimal-IsDigit n) k,
)

-- The text of a well-formed packet is read back as the packet.
pub parse-encode : (p : Packet) → IsPacket p → parse (encode p) ≡ some p
unfolding parse encode parse_kind packet_of
parse-encode p w =
    let after_ns = id_text p.id p.text in
    let (id_back, text_back) = read_id p.id p.text w.id_fits w.no_digit in
    let in_range : (leb b'0' p.kind && leb p.kind b'6') ≡ true =
      ground (arith, w.kind_from, w.kind_to) in
    rw (
      in_range,
      read_attachments p.kind p.attachments (namespace_text p.namespace after_ns) w.few,
      read_namespace p.namespace after_ns w.in_namespace (id_text-NoSlash p.id p.text w.no_slash),
      id_back,
      text_back,
    )
