-- ===== src/SocketIo/Settings/Namespace.antt =====
-- socketio.rs: a session whose settings pass the checks sends events that are read back as sent.
use wsblast.Common.Text.{starts_with_slash}
use wsblast.Common.{
  ℕ, ◌^◌, ◌<◌, ◌≡◌, refl, sym, ◌∙◌, inl, inr, true, false, not, ◌||◌, Bool-cases, or_right, Option,
  none, some, [], ◌∷◌, Bytes, All, ◌==◌, ==_iff, arith,
}
use wsblast.SocketIo.Packet.{Packet, encode}
use wsblast.SocketIo.Packet
use wsblast.SocketIo.Packet.RoundTrip.{IsPacket, IsNamespace, NoComma, parse-encode}
use wsblast.SocketIo.Frame.{SocketIoConfig, Json}
use wsblast.SocketIo.Settings.{SettingsError, bad_namespace, has_comma, validate}
use wsblast.SocketIo.Pump.{event_packet}

NoComma-All : (cs : Bytes) → has_comma cs ≡ false → All NoComma cs
unfolding has_comma
NoComma-All [] e = tt
NoComma-All (c ∷ cs) e = elim (Bool-cases (c == b',')) [
  | inl comma ↦ let no : true ≡ false = sym (rw comma) ∙ e in cc
  | inr plain ↦ (plain, NoComma-All cs (sym (rw plain) ∙ e))
]

good-IsNamespace :
    (ns : Bytes) → (not (starts_with_slash ns) || has_comma ns) ≡ false → IsNamespace ns
unfolding has_comma
good-IsNamespace [] e = cc
good-IsNamespace (c ∷ cs) e = elim (Bool-cases (c == b'/')) [
  | inl slash ↦
      let c_is : c ≡ b'/' = (==_iff c b'/').0 slash in
      let named = or_right (not (c == b'/')) (c == b',' || has_comma cs) e in
      (c_is, NoComma-All cs (or_right (c == b',') (has_comma cs) named))
  | inr other ↦ let no : true ≡ false = sym (rw other) ∙ e in cc
]

module _ (json : Json) (config : SocketIoConfig) (valid : validate json config ≡ none) where
  valid-IsNamespace : IsNamespace config.namespace
  unfolding validate
  valid-IsNamespace =
      elim (Bool-cases (not (starts_with_slash config.namespace) || has_comma config.namespace)) [
        | inl bad ↦
            let no : ◌≡◌ {A = Option SettingsError} (some bad_namespace) none =
              sym (rw bad) ∙ valid in
            cc
        | inr good ↦ good-IsNamespace config.namespace good
      ]

  event-IsPacket :
      (id : ℕ) (payload : Bytes) → id < 2 ^ 64 → IsPacket (event_packet json config id payload)
  unfolding event_packet
  event-IsPacket id payload h = record {
    kind_from = omega arith;
    kind_to = omega arith;
    few = omega arith;
    in_namespace = valid-IsNamespace;
    id_fits = h;
    no_digit = refl;
    no_slash = refl;
  }

  -- An event of a session whose settings pass the checks is read back as it was made: the kind, the
  -- session's namespace, the id and the event's name with its argument.
  pub parse-event_packet :
      (id : ℕ) (payload : Bytes)
      → id < 2 ^ 64
      → Packet.parse (encode (event_packet json config id payload))
        ≡ some (event_packet json config id payload)
  parse-event_packet id payload h =
      parse-encode (event_packet json config id payload) (event-IsPacket id payload h)
