-- ===== src/Config/Durations/Trimming.antt =====
-- config.rs: texts that trimming leaves as they are.
use mathlib.Core.List.{
  reverse, reverse-append, reverse-cons, reverse-reverse, append_assoc, append-nil,
}
use wsblast.Common.{
  ℕ, ◌≡◌, sym, ap, subst, ◌∙◌, Bool, true, false, not, [], ◌∷◌, ◌++◌, All, Bytes, arith,
}
use wsblast.Common.Text.{All-reverse, is_whitespace, trim}
use wsblast.Common.Decimal.{decimal, IsDigit, decimal-IsDigit, decimal_cons}

trim_same :
    (c d : ℕ) (cs ds : Bytes)
    → is_whitespace c ≡ false
    → is_whitespace d ≡ false
    → reverse (c ∷ cs) ≡ d ∷ ds
    → trim (c ∷ cs) ≡ c ∷ cs
trim_same c d cs ds front back e =
    rw front (rw e (rw back (ap reverse (sym e) ∙ reverse-reverse (c ∷ cs))))

unfoldable pub starts_visible : Bytes → Bool
starts_visible [] = false
starts_visible (c ∷ cs) = not (is_whitespace c)

-- A text that starts with a digit and ends visibly is left as it is.
trim_visible :
    (d : ℕ) (ds back rest : Bytes)
    → IsDigit d
    → starts_visible back ≡ true
    → reverse (d ∷ ds) ≡ back ++ rest
    → trim (d ∷ ds) ≡ d ∷ ds
unfolding starts_visible
trim_visible d ds [] rest digit visible e = cc
trim_visible d ds (b ∷ bs) rest digit visible e =
    trim_same d b ds (bs ++ rest) (ground arith) (ground arith) e

-- A text that starts with a number and ends visibly.
pub trim_between :
    (n : ℕ) (middle last : Bytes)
    → starts_visible (reverse last) ≡ true
    → trim (decimal n ++ (middle ++ last)) ≡ decimal n ++ (middle ++ last)
trim_between n middle last visible =
    let (d, ds, form) = decimal_cons n in
    let digits : All IsDigit (d ∷ ds) = subst (All IsDigit) form (decimal-IsDigit n) in
    rw form (
      trim_visible d (ds ++ (middle ++ last)) (reverse last) (reverse ((d ∷ ds) ++ middle)) digits.0
        visible
        (ap reverse (sym (append_assoc (d ∷ ds) middle last))
          ∙ reverse-append ((d ∷ ds) ++ middle) last))

digits_visible :
    (xs : Bytes) (d : ℕ) → All IsDigit (xs ++ (d ∷ [])) → starts_visible (xs ++ (d ∷ [])) ≡ true
unfolding starts_visible
digits_visible [] d (here, there) = ground arith
digits_visible (x ∷ xs) d (here, there) = ground arith

pub decimal_ends_visible : (n : ℕ) → starts_visible (reverse (decimal n)) ≡ true
decimal_ends_visible n =
    let (d, ds, form) = decimal_cons n in
    let digits : All IsDigit (reverse (decimal n)) =
      All-reverse IsDigit (decimal n) (decimal-IsDigit n) in
    let turned_form : reverse (decimal n) ≡ reverse ds ++ (d ∷ []) =
      ap reverse form ∙ reverse-cons d ds in
    subst (λ (t : Bytes). starts_visible t ≡ true) (sym turned_form)
      (digits_visible (reverse ds) d (subst (All IsDigit) turned_form digits))

pub trim-decimal : (n : ℕ) → trim (decimal n) ≡ decimal n
trim-decimal n =
    let (d, ds, form) = decimal_cons n in
    let digits : All IsDigit (d ∷ ds) = subst (All IsDigit) form (decimal-IsDigit n) in
    let visible : starts_visible (reverse (d ∷ ds)) ≡ true =
      subst (λ (t : Bytes). starts_visible (reverse t) ≡ true) form (decimal_ends_visible n) in
    rw form (
      trim_visible d ds (reverse (d ∷ ds)) [] digits.0 visible
        (sym (append-nil (reverse (d ∷ ds)))))
