-- ===== src/SocketIo/Packet/Bounds.antt =====
-- socketio.rs: how many attachments a packet that is read can announce.
use wsblast.Common.{
  ℕ, ◌^◌, ◌-◌, ◌≤◌, ◌≡◌, refl, sym, ap, subst, ◌∙◌, inl, inr, ◌&&◌, Bool-cases, if_intro, Option,
  none, some, bind_cases, [], ◌∷◌, Bytes, leb, ◌==◌, arith,
}
use wsblast.Common.Text.{parse_unsigned}
use wsblast.Common.Decimal.{leading_digits, after_digits}
use wsblast.SocketIo.Packet.{
  Packet, max_attachments, is_binary, small_count, behind_dash, attachment_count, namespace_of,
  packet_of, parse_kind, parse,
}

small_count_few : (n m : ℕ) → small_count n ≡ some m → m ≤ max_attachments
small_count_few n m e = ground arith

behind_dash_same : (m : ℕ) (cs : Bytes) (r : ℕ × Bytes) → behind_dash m cs ≡ some r → r.0 ≡ m
behind_dash_same m [] r e = cc
behind_dash_same m (c ∷ cs) r e = elim (Bool-cases (c == b'-')) [
  | inl dash ↦
      let found : ◌≡◌ {A = Option (ℕ × Bytes)} (some (m, cs)) (some r) = sym (rw dash) ∙ e in
      let pair : (m, cs) ≡ r = cc in ap (λ (p : ℕ × Bytes). p.0) (sym pair)
  | inr other ↦ let nothing : ◌≡◌ {A = Option (ℕ × Bytes)} none (some r) = sym (rw other) ∙ e in cc
]

count_few :
    (kind : ℕ) (rest : Bytes) (r : ℕ × Bytes)
    → attachment_count kind rest ≡ some r
    → r.0 ≤ max_attachments
unfolding attachment_count
count_few kind rest r e = elim (Bool-cases (is_binary kind)) [
  | inl binary ↦
      bind_cases (parse_unsigned (2 ^ 64 - 1) (leading_digits rest)) _ (sym (rw binary) ∙ e)
        λ n read e'. bind_cases (small_count n) _ e' λ m small e''.
          rw (behind_dash_same m (after_digits rest) r e'') (small_count_few n m small)
  | inr plain ↦
      let found : ◌≡◌ {A = Option (ℕ × Bytes)} (some (0, rest)) (some r) = sym (rw plain) ∙ e in
      let pair : (0, rest) ≡ r = cc in rw (← pair) (omega arith)
]

abbrev Few : Option Packet → Type 0
Few o = (p : Packet) → o ≡ some p → p.attachments ≤ max_attachments

packet_of_attachments :
    (kind n : ℕ) (parts : Bytes × Bytes) → (packet_of kind n parts).attachments ≡ n
unfolding packet_of
packet_of_attachments kind n (namespace, rest) = refl

kind-Few : (rest : Bytes) → Few (parse_kind rest)
unfolding parse_kind
kind-Few [] = λ p e. cc
kind-Few (kind ∷ rest) =
    if_intro Few (leb b'0' kind && leb kind b'6') _ none
      (λ in_range p e. bind_cases (attachment_count kind rest) _ e λ r counted made.
        let same : packet_of kind r.0 (namespace_of r.1) ≡ p = cc in
        subst (λ (q : Packet). q.attachments ≤ max_attachments) same
          (rw (packet_of_attachments kind r.0 (namespace_of r.1)) (count_few kind rest r counted)))
      (λ out_of_range p e. cc)

-- A packet that is read announces 1024 attachments at most.
pub parse_few : (t : Bytes) (p : Packet) → parse t ≡ some p → p.attachments ≤ max_attachments
unfolding parse
parse_few [] p e = cc
parse_few (c ∷ rest) p e =
    if_intro Few (c == b'4') (parse_kind rest) none (λ message. kind-Few rest)
      (λ other q none_read. cc) p e
