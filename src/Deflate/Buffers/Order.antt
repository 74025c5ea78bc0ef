-- ===== src/Deflate/Buffers/Order.antt =====
-- deflate.rs: no byte of a buffer is lost, repeated or moved.
use wsblast.Common.{
  ℕ, zero, suc, ◌+◌, ◌-◌, ◌≤◌, ◌≡◌, refl, sym, ap, ◌∙◌, min, false, inl, inr, Bool-cases, List, [],
  ◌∷◌, ◌++◌, append_assoc, Bytes, length, length-drop, length-take, take, drop, take-append-drop,
  ltb, ◌==◌, arith,
}
use wsblast.Deflate.Buffers.{Answer, accepted, not_ready, broken, poll_drain, read_ready}

drop_nil : (n : ℕ) → drop {A = ℕ} n [] ≡ []
drop_nil zero = refl
drop_nil (suc n) = refl

drop_more : (n pos : ℕ) (xs : Bytes) → drop n (drop pos xs) ≡ drop (pos + n) xs
drop_more n zero xs = ap (λ (k : ℕ). drop k xs) (omega arith)
drop_more n (suc pos) [] = drop_nil n ∙ sym (drop_nil (suc pos + n))
drop_more n (suc pos) (x ∷ xs) =
    let next : suc (pos + n) ≡ suc pos + n = omega arith in
    drop_more n pos xs ∙ ap (λ (k : ℕ). drop k (x ∷ xs)) next

take-drop_more : (n pos : ℕ) (xs : Bytes) → take n (drop pos xs) ++ drop (pos + n) xs ≡ drop pos xs
take-drop_more n pos xs = rw (← drop_more n pos xs) (take-append-drop n (drop pos xs))

drop_all : (n : ℕ) (xs : Bytes) → length xs ≤ n → drop n xs ≡ []
drop_all zero [] h = refl
drop_all zero (x ∷ xs) h = elim h [ ]
drop_all (suc n) [] h = refl
drop_all (suc n) (x ∷ xs) h = drop_all n xs (omega arith)

all_sent : (ready : Bytes) (pos : ℕ) → ltb pos (length ready) ≡ false → [] ≡ drop pos ready
all_sent ready pos e = sym (drop_all pos ready (ground arith))

-- Whatever the socket answers, the bytes that it took and the bytes still queued are together the
-- bytes that were queued, in their order.
pub poll_drain_order :
    (answers : List Answer) (ready : Bytes) (pos : ℕ)
    → (poll_drain answers ready pos).taken
        ++ drop (poll_drain answers ready pos).pos (poll_drain answers ready pos).ready
      ≡ drop pos ready
unfolding poll_drain
poll_drain_order [] ready pos = elim (Bool-cases (ltb pos (length ready))) [
  | inl more ↦ rw more
  | inr done ↦ rw done (all_sent ready pos done)
]
poll_drain_order (not_ready ∷ answers) ready pos = elim (Bool-cases (ltb pos (length ready))) [
  | inl more ↦ rw more
  | inr done ↦ rw done (all_sent ready pos done)
]
poll_drain_order (broken ∷ answers) ready pos = elim (Bool-cases (ltb pos (length ready))) [
  | inl more ↦ rw more
  | inr done ↦ rw done (all_sent ready pos done)
]
poll_drain_order (accepted n ∷ answers) ready pos = elim (Bool-cases (ltb pos (length ready))) [
  | inl more ↦ elim (Bool-cases (n == 0)) [
    | inl nothing ↦ rw (more, nothing)
    | inr some_bytes ↦
        let rest = poll_drain answers ready (pos + n) in
        rw (more, some_bytes)
          (append_assoc (take n (drop pos ready)) rest.taken (drop rest.pos rest.ready)
            ∙ ap (λ (t : Bytes). take n (drop pos ready) ++ t)
                (poll_drain_order answers ready (pos + n))
            ∙ take-drop_more n pos ready)
  ]
  | inr done ↦ rw done (all_sent ready pos done)
]

-- Reading the buffer hands on the next bytes, as many as there are and the reader has room for, and
-- keeps the rest, where the position is within the buffer.
pub read_ready_order :
    (remaining : ℕ) (ready : Bytes) (pos : ℕ)
    → pos ≤ length ready
    → let (given, (ready', pos')) = read_ready remaining ready pos in
      (given ++ drop pos' ready' ≡ drop pos ready)
      × (length given ≡ min remaining (length ready - pos))
unfolding read_ready
read_ready_order remaining ready pos h =
    let n = min remaining (length ready - pos) in
    let size : length (take n (drop pos ready)) ≡ n =
      omega (arith, length-take n (drop pos ready), length-drop pos ready) in
    elim (Bool-cases (pos + n == length ready)) [
      | inl last ↦
          let ends : [] ≡ drop (pos + n) ready = sym (drop_all (pos + n) ready (ground arith)) in
          rw last (
            ap (λ (t : Bytes). take n (drop pos ready) ++ t) ends ∙ take-drop_more n pos ready,
            size,
          )
      | inr more ↦ rw more (take-drop_more n pos ready, size)
    ]
