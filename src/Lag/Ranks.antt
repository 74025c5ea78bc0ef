-- ===== src/Lag/Ranks.antt =====
-- lag.rs: the percentile and the maximum of an interval, by the samples they lie above.
use wsblast.Common.{
  ℕ, zero, suc, ◌+◌, ◌-◌, ◌≤◌, ◌<◌, ◌≡◌, refl, sym, ap, subst, ◌∙◌, Bool, true, false, ◌&&◌,
  if_intro, List, [], ◌∷◌, All, length, get_or, ltb, leb, if◌then◌else◌, arith,
}
use wsblast.Lag.{
  LagRecord, insert, put, sort, count, p99_rank, p99_of, max_of, close_sorted, close_samples,
  close_interval,
}

Sorted : List ℕ → Type 0
Sorted [] = Unit {0}
Sorted (x ∷ xs) = All (λ y. x ≤ y) xs × Sorted xs

All-put : (P : ℕ → Type 0) (x : ℕ) (ys : List ℕ) → P x → All P ys → All P (put x ys)
unfolding put
All-put P x [] h t = (h, tt)
All-put P x (y ∷ ys) h (hy, t) =
    if_intro (All P) (leb x y) _ _ (λ le. (h, (hy, t))) (λ gt. (hy, All-put P x ys h t))

All-le : (x y : ℕ) (ys : List ℕ) → x ≤ y → All (λ z. y ≤ z) ys → All (λ z. x ≤ z) ys
All-le x y [] h t = tt
All-le x y (z ∷ zs) h (hz, t) = (omega arith, All-le x y zs h t)

put-Sorted : (x : ℕ) (ys : List ℕ) → Sorted ys → Sorted (put x ys)
unfolding put Sorted
put-Sorted x [] h = (tt, tt)
put-Sorted x (y ∷ ys) (low, t) =
    if_intro Sorted (leb x y) _ _
      (λ le. ((ground arith, All-le x y ys (ground arith) low), (low, t)))
      (λ gt. (All-put (λ z. y ≤ z) x ys (ground arith) low, put-Sorted x ys t))

sort-Sorted : (xs : List ℕ) → Sorted (sort xs)
unfolding sort Sorted
sort-Sorted [] = tt
sort-Sorted (x ∷ xs) = put-Sorted x (sort xs) (sort-Sorted xs)

swap :
    (a b : Bool) (n : ℕ)
    → (let m = if b then suc n else n in if a then suc m else m)
      ≡ (let m = if a then suc n else n in if b then suc m else m)
swap true true n = refl
swap true false n = refl
swap false true n = refl
swap false false n = refl

count-put : (test : ℕ → Bool) (x : ℕ) (ys : List ℕ) → count test (put x ys) ≡ count test (x ∷ ys)
unfolding put count
count-put test x [] = refl
count-put test x (y ∷ ys) =
    if_intro (λ zs. count test zs ≡ count test (x ∷ (y ∷ ys))) (leb x y) _ _ (λ le. refl)
      (λ gt.
        ap (λ n. if test y then suc n else n) (count-put test x ys)
        ∙ swap (test y) (test x) (count test ys))

count-sort : (test : ℕ → Bool) (xs : List ℕ) → count test (sort xs) ≡ count test xs
unfolding sort count
count-sort test [] = refl
count-sort test (x ∷ xs) =
    count-put test x (sort xs) ∙ ap (λ n. if test x then suc n else n) (count-sort test xs)

length-put : (x : ℕ) (ys : List ℕ) → length (put x ys) ≡ suc (length ys)
unfolding put
length-put x [] = refl
length-put x (y ∷ ys) =
    if_intro (λ (zs : List ℕ). length zs ≡ suc (suc (length ys))) (leb x y) _ _ (λ le. refl)
      (λ gt. ap (λ n. suc n) (length-put x ys))

pub length-sort : (xs : List ℕ) → length (sort xs) ≡ length xs
unfolding sort
length-sort [] = refl
length-sort (x ∷ xs) = length-put x (sort xs) ∙ ap (λ n. suc n) (length-sort xs)

-- A value with at least `k` samples up to it, and fewer than `k` below it.
abbrev pub IsRank : ℕ → List ℕ → ℕ → Type 0
IsRank k xs v = (k ≤ count (λ x. leb x v) xs) × (count (λ x. ltb x v) xs < k)

none_below : (v : ℕ) (xs : List ℕ) → All (λ y. v ≤ y) xs → count (λ x. ltb x v) xs ≡ 0
unfolding count
none_below v [] h = refl
none_below v (x ∷ xs) (h, t) = ground (arith, none_below v xs)

All_get_or : (P : ℕ → Type 0) (xs : List ℕ) (i : ℕ) → i < length xs → All P xs → P (get_or xs i 0)
All_get_or P [] i h t = elim h [ ]
All_get_or P (x ∷ xs) zero h (hx, t) = hx
All_get_or P (x ∷ xs) (suc i) h (hx, t) = All_get_or P xs i (omega arith) t

get_or-IsRank :
    (xs : List ℕ) (i : ℕ) → Sorted xs → i < length xs → IsRank (suc i) xs (get_or xs i 0)
unfolding Sorted count
get_or-IsRank [] i s h = elim h [ ]
get_or-IsRank (x ∷ xs) zero (low, s) h =
    let nothing = none_below x xs low in (ground arith, ground arith)
get_or-IsRank (x ∷ xs) (suc i) (low, s) h =
    let later = get_or-IsRank xs i s (omega arith) in
    let above = All_get_or (λ y. x ≤ y) xs i (omega arith) low in (ground arith, ground arith)

sort-IsRank : (xs : List ℕ) (i : ℕ) → i < length xs → IsRank (suc i) xs (get_or (sort xs) i 0)
sort-IsRank xs i h =
    let v = get_or (sort xs) i 0 in
    let ranked = get_or-IsRank (sort xs) i (sort-Sorted xs) (omega (arith, length-sort xs)) in
    (
      subst (λ n. suc i ≤ n) (count-sort (λ x. leb x v) xs) ranked.0,
      subst (λ n. n < suc i) (count-sort (λ x. ltb x v) xs) ranked.1,
    )

sort-IsRank_at :
    (k : ℕ) (xs : List ℕ) → 1 ≤ k → k ≤ length xs → IsRank k xs (get_or (sort xs) (k - 1) 0)
sort-IsRank_at zero xs h le = elim h [ ]
sort-IsRank_at (suc i) xs h le =
    let same : i ≡ suc i - 1 = omega arith in
    subst (λ j. IsRank (suc i) xs (get_or (sort xs) j 0)) same (sort-IsRank xs i le)

p99_of-IsRank : (xs : List ℕ) → 1 ≤ length xs → IsRank (p99_rank (length xs)) xs (p99_of (sort xs))
unfolding p99_of
p99_of-IsRank xs h =
    subst (λ m. IsRank (p99_rank (length xs)) xs (get_or (sort xs) (p99_rank m - 1) 0))
      (sym (length-sort xs)) (sort-IsRank_at (p99_rank (length xs)) xs (omega arith) (omega arith))

max_of-IsRank : (xs : List ℕ) → 1 ≤ length xs → IsRank (length xs) xs (max_of (sort xs))
unfolding max_of
max_of-IsRank xs h =
    subst (λ m. IsRank (length xs) xs (get_or (sort xs) (m - 1) 0)) (sym (length-sort xs))
      (sort-IsRank_at (length xs) xs h (omega arith))

module _ {H : Type 0} (threshold : ℕ) where
  -- What closing an interval adds: its number of samples, their percentile `p` and maximum `m`.
  abbrev pub closed_with : LagRecord H → ℕ → ℕ → LagRecord H
  closed_with r p m = record r {
    intervals_over =
        if ltb threshold p && leb 2 (count (λ us. ltb threshold us) r.current)
        then r.intervals_over + 1
        else r.intervals_over;
    intervals =
        insert r.current_index (record { samples = length r.current; p99_us = p; max_us = m })
          r.intervals;
    current = [];
  }

  close_sorted-closed_with :
      (r : LagRecord H) (x : ℕ) (xs : List ℕ)
      → r.current ≡ x ∷ xs
      → close_sorted threshold r (sort (x ∷ xs))
        ≡ closed_with r (p99_of (sort (x ∷ xs))) (max_of (sort (x ∷ xs)))
  unfolding close_sorted
  close_sorted-closed_with r x xs e =
      rw (e, length-sort (x ∷ xs), count-sort (λ us. ltb threshold us) (x ∷ xs))

  -- Closing an interval with samples keeps of them their number, the least sample that 99 in 100
  -- are up to, and the largest; the interval counts as over the threshold where that percentile and
  -- two samples at least are above it. The next interval starts without samples, and nothing else
  -- changes.
  pub close_interval-IsRank :
      (r : LagRecord H)
      → 1 ≤ length r.current
      → (p : ℕ) × (m : ℕ) × (close_interval threshold r ≡ closed_with r p m)
        × IsRank (p99_rank (length r.current)) r.current p
        × IsRank (length r.current) r.current m
  unfolding close_interval close_samples
  close_interval-IsRank r h = from r.current refl h
    where
      from :
          (current : List ℕ)
          → r.current ≡ current
          → 1 ≤ length current
          → (p : ℕ) × (m : ℕ) × (close_samples threshold r current ≡ closed_with r p m)
            × IsRank (p99_rank (length current)) current p
            × IsRank (length current) current m
      from [] e h = elim h [ ]
      from (x ∷ xs) e h = (
        p99_of (sort (x ∷ xs)),
        max_of (sort (x ∷ xs)),
        close_sorted-closed_with r x xs e,
        p99_of-IsRank (x ∷ xs) h,
        max_of-IsRank (x ∷ xs) h,
      )
