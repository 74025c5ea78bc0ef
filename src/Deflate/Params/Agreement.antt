-- ===== src/Deflate/Params/Agreement.antt =====
-- deflate.rs: what the mock's answer means, to both ends.
use wsblast.Common.{
  ℕ, Option, ◌≡◌, ◌⊎◌, ◌↔◌, refl, Option-cases, Bool, true, false, none, some, inl, inr, ◌++◌,
  Bytes, codes, arith,
}
use wsblast.Deflate.Params.{
  Role, client, server, Params, default_params, parse, accept_offer, full_window, offer_name,
  can_compress, reset_deflater, reset_inflater,
}

-- What an answer promises: the offer asks for no smaller window than the server's deflater uses, the
-- answer parses, both ends may compress, the server's deflater and the client's inflater reset
-- after a message exactly where the client asked for it, and the other two never do.
pub record Answered (asked : Params) (answer : Bytes) : Type 0 where
  pub agreed : Params
  pub read_back : parse answer ≡ some agreed
  pub window_kept : (bits : ℕ) → asked.server_max_window_bits ≡ some bits → bits ≡ 15
  pub both_compress : (r : Role) → can_compress agreed r ≡ true
  pub server_deflates : reset_deflater agreed server ≡ asked.server_no_context_takeover
  pub client_inflates : reset_inflater agreed client ≡ asked.server_no_context_takeover
  pub client_deflates : reset_deflater agreed client ≡ false
  pub server_inflates : reset_inflater agreed server ≡ false

abbrev answer_for : Bool → Bytes
answer_for true = offer_name ++ codes "; server_no_context_takeover"
answer_for false = offer_name

both_full :
    (b : Bool) (r : Role)
    → can_compress (record default_params { server_no_context_takeover = b }) r ≡ true
unfolding can_compress
both_full b client = refl
both_full b server = refl

parse-answer_for :
    (b : Bool)
    → parse (answer_for b) ≡ some (record default_params { server_no_context_takeover = b })
unfolding parse
parse-answer_for true = refl
parse-answer_for false = refl

Answered-answer_for :
    (asked : Params)
    → ((bits : ℕ) → asked.server_max_window_bits ≡ some bits → bits ≡ 15)
    → Answered asked (answer_for asked.server_no_context_takeover)
unfolding reset_inflater reset_deflater
Answered-answer_for asked window = record {
  agreed = record default_params { server_no_context_takeover = asked.server_no_context_takeover };
  read_back = parse-answer_for asked.server_no_context_takeover;
  window_kept = window;
  both_compress = both_full asked.server_no_context_takeover;
  server_deflates = refl;
  client_inflates = refl;
  client_deflates = refl;
  server_inflates = refl;
}

chosen :
    (asked : Params) (offer answer : Bytes)
    → parse offer ≡ some asked
    → accept_offer offer ≡ some answer
    → answer_for asked.server_no_context_takeover ≡ answer
unfolding accept_offer
chosen asked offer answer p e = ground arith

full_bits : (o : Option ℕ) (bits : ℕ) → full_window o ≡ true → o ≡ some bits → bits ≡ 15
full_bits none bits h e = cc
full_bits (some b) bits h e = ground arith

accepted_full :
    (asked : Params) (offer answer : Bytes)
    → parse offer ≡ some asked
    → accept_offer offer ≡ some answer
    → full_window asked.server_max_window_bits ≡ true
unfolding accept_offer
accepted_full asked offer answer p e = ground arith

-- The mock accepts an offer only where the client asks for no smaller window of the server than the
-- full one. Its answer parses and lets both ends compress; the server's deflater and the client's
-- inflater reset after a message exactly where the client asked for it, and nothing is asked of the
-- client's deflater.
pub accept_offer-Answered :
    (asked : Params) (offer answer : Bytes)
    → parse offer ≡ some asked
    → accept_offer offer ≡ some answer
    → Answered asked answer
accept_offer-Answered asked offer answer p e = rw (← chosen asked offer answer p e) (
    Answered-answer_for asked
      (λ bits. full_bits asked.server_max_window_bits bits (accepted_full asked offer answer p e)))

-- The mock declines exactly the offers that hold no usable extension or ask the server for a window
-- below the full one.
pub accept_offer-none_iff :
    (offer : Bytes)
    → (accept_offer offer ≡ none) ↔ (
        (parse offer ≡ none)
        ⊎ ((p : Params) × (parse offer ≡ some p) × (full_window p.server_max_window_bits ≡ false)))
unfolding accept_offer
accept_offer-none_iff offer = (
  λ e. elim (Option-cases (parse offer)) [
    | inl nothing ↦ inl nothing
    | inr (p, found) ↦ inr (p, found, ground arith)
  ],
  λ h. elim h [ inl nothing ↦ rw nothing | inr (p, found, narrow) ↦ rw (found, narrow) ],
)
