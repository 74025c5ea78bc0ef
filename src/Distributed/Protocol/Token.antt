-- ===== src/Distributed/Protocol/Token.antt =====
-- protocol.rs: what `tokens_match` compares.
use wsblast.Common.{
  ℕ, ◌≡◌, ◌↔◌, refl, sym, subst, ◌∙◌, bit_or, bit_xor, true, inl, inr, Bool-cases, ◌==◌, ==_iff, [],
  ◌∷◌, Bytes, length, arith,
}
use wsblast.Common.Bits.{or_zero, xor_zero, xor_self}
use wsblast.Distributed.Protocol.{token_diff, tokens_match}

diff_sound :
    (diff : ℕ) (expected presented : Bytes)
    → length expected ≡ length presented
    → token_diff diff expected presented ≡ 0
    → (diff ≡ 0) × (expected ≡ presented)
unfolding token_diff
diff_sound diff [] [] h e = (e, refl)
diff_sound diff [] (p ∷ ps) h e = absurd (omega arith)
diff_sound diff (b ∷ bs) [] h e = absurd (omega arith)
diff_sound diff (b ∷ bs) (p ∷ ps) h e =
    let (both, rest) = diff_sound (bit_or diff (bit_xor b p)) bs ps (omega arith) e in
    let (before, here) = or_zero diff (bit_xor b p) both in (before, rw (xor_zero b p here, rest))

diff_same : (token : Bytes) → token_diff 0 token token ≡ 0
unfolding token_diff
diff_same [] = refl
diff_same (b ∷ bs) = rw (xor_self b) (diff_same bs)

diff_grows :
    (expected presented : Bytes) (diff : ℕ) → token_diff diff expected presented ≡ 0 → diff ≡ 0
unfolding token_diff
diff_grows [] presented diff e = e
diff_grows (b ∷ bs) [] diff e = (or_zero diff _ (diff_grows bs [] _ e)).0
diff_grows (b ∷ bs) (p ∷ ps) diff e = (or_zero diff _ (diff_grows bs ps _ e)).0

match_self : (token : Bytes) → tokens_match token token ≡ true
unfolding tokens_match
match_self token = rw ((==_iff (length token) (length token)).1 refl, diff_same token)

-- The comparison that looks at every byte accepts the expected token and no other.
pub tokens_match_iff :
    (expected presented : Bytes) → (tokens_match expected presented ≡ true) ↔ (expected ≡ presented)
unfolding tokens_match
tokens_match_iff expected presented = (sound, complete)
  where
    sound : tokens_match expected presented ≡ true → expected ≡ presented
    sound e = elim (Bool-cases (length expected == length presented)) [
      | inl same ↦
          (diff_sound 0 expected presented ((==_iff (length expected) (length presented)).0 same)
            ((==_iff (token_diff 0 expected presented) 0).0 (sym (rw same) ∙ e))).1
      | inr other ↦
          let one : ◌≡◌ {A = ℕ} 1 0 =
            diff_grows expected presented 1
              ((==_iff (token_diff 1 expected presented) 0).0 (sym (rw other) ∙ e)) in
          absurd (omega arith)
    ]

    complete : expected ≡ presented → tokens_match expected presented ≡ true
    complete e = subst (λ (p : Bytes). tokens_match expected p ≡ true) e (match_self expected)
