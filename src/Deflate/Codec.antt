-- ===== src/Deflate/Codec.antt =====
-- src/deflate.rs: `inflate` and `deflate`, the loops over flate2, which stands behind an interface.
pub mod Inflating
pub mod Deflating
use wsblast.Common.{
  ℕ, zero, suc, ◌+◌, ◌-◌, ◌*◌, ◌/◌, ◌^◌, ◌≤◌, ◌≡◌, ◌⊎◌, inl, inr, refl, max, Bool, true, false, not,
  ◌&&◌, ◌||◌, Option, none, some, List, [], ◌∷◌, ◌++◌, Bytes, length, drop, take, ltb, leb, ◌==◌,
  if◌then◌else◌,
}
use wsblast.Common.Text.{text_eq}

-- The errors of the layer, one for each message. `stuck` is no result of the code: it stands for a
-- loop that ran out of fuel.
pub data Failure : Type 0 where
  head_too_long frame_too_large inflate_failed message_too_large deflate_failed : Failure

pub data Outcome {ℓ} (A : Type ℓ) : Type ℓ where
  ok : A → Outcome A
  fail : Failure → Outcome A
  stuck : Outcome A

infixl 5 ◌>>=◌
abbrev pub ◌>>=◌ {ℓ κ} : {A : Type ℓ} {B : Type κ} → Outcome A → (A → Outcome B) → Outcome B
ok a >>= f = f a
fail e >>= f = fail e
stuck >>= f = stuck

-- One call of `decompress_vec` or `compress_vec`.
pub record Call (S : Type 0) : Type 0 where
  pub consumed : ℕ
  pub output : Bytes
  pub stream_end : Bool
  pub after : S

-- flate2, and how far a vector's capacity grows. A call gets the input and the room behind the
-- vector's end. `work` bounds what a deflater still has to read and write for an input of a length.
pub record Flate : Type 1 where
  pub Inflater : Type 0
  pub Deflater : Type 0
  pub new_inflater : Inflater
  pub new_deflater : Deflater
  pub reset_inflater : Inflater → Inflater
  pub reset_deflater : Deflater → Deflater
  pub decompress_vec : Inflater → Bytes → ℕ → Option (Call Inflater)
  pub compress_vec : Deflater → Bytes → ℕ → Option (Call Deflater)
  pub reserve : ℕ → ℕ → ℕ → ℕ
  pub work : Deflater → ℕ → ℕ

-- What the documentation of flate2 and of `Vec` says of them.
pub record IsFlate (f : Flate) : Type 0 where
  pub inflater_reads :
      (s : f.Inflater) (input : Bytes) (space : ℕ) (c : Call f.Inflater)
      → f.decompress_vec s input space ≡ some c
      → c.consumed ≤ length input
  pub deflater_reads :
      (s : f.Deflater) (input : Bytes) (space : ℕ) (c : Call f.Deflater)
      → f.compress_vec s input space ≡ some c
      → c.consumed ≤ length input
  pub deflater_works :
      (s : f.Deflater) (input : Bytes) (space : ℕ) (c : Call f.Deflater)
      → f.compress_vec s input space ≡ some c
      → f.work c.after (length input - c.consumed) + c.consumed + length c.output
        ≤ f.work s (length input)

abbrev pub sync_tail : Bytes
sync_tail = 0x00 ∷ 0x00 ∷ 0xff ∷ 0xff ∷ []

-- 64 MiB
abbrev pub max_message : ℕ
max_message = 64 * 2 ^ 20

abbrev clamp : ℕ → ℕ → ℕ → ℕ
clamp x lo hi = if ltb x lo then lo else if ltb hi x then hi else x

-- A message's last part is followed by the tail that its sender removed.
abbrev pub inflate_input : Bool → Bytes → Bytes
inflate_input last scratch = if last then scratch ++ sync_tail else scratch

module _ (f : Flate) where
  -- The capacity of `inflate`'s output before a call.
  inflate_room : ℕ → ℕ → ℕ → ℕ
  inflate_room input_len out_len room =
      if ltb (room - out_len) 4096
      then f.reserve room out_len (clamp (input_len * 4) (16 * 2 ^ 10) (2 ^ 20))
      else room

  -- The loop of `inflate`: the input and how much of it is read, the output with its capacity, and
  -- the message's size so far.
  pub inflate_loop : ℕ → Bytes → ℕ → Bytes → ℕ → ℕ → f.Inflater → Outcome (Bytes × ℕ × f.Inflater)
  inflate_loop zero input consumed out room inflated s = stuck
  inflate_loop (suc fuel) input consumed out room inflated s =
      let room' = inflate_room (length input) (length out) room in
      elim (f.decompress_vec s (drop consumed input) (room' - length out)) [
        | none ↦ fail inflate_failed
        | some c ↦
            let inflated' = inflated + length c.output in
            let consumed' = consumed + c.consumed in
            let out' = out ++ c.output in
            let again = inflate_loop fuel input consumed' out' room' inflated' c.after in
            let done = consumed' == length input in
            let progress = not (c.consumed == 0) || not (length c.output == 0) in
            if ltb max_message inflated'
            then fail message_too_large
            else if c.stream_end || (done && ltb (length out') room') || not progress
            then ok (out', inflated', c.after)
            else again
      ]

  -- `inflate`: the payload, the size of the message so far and the inflater's state. Every round
  -- but the last reads or writes a byte, so the fuel is enough.
  unfoldable pub inflate : Bool → Bytes → ℕ → f.Inflater → Outcome (Bytes × ℕ × f.Inflater)
  unfolding inflate_room inflate_loop
  inflate last scratch inflated s =
      let input = inflate_input last scratch in
      inflate_loop (suc (length input + max_message)) input 0 [] 0 inflated s

  deflate_room : ℕ → ℕ → ℕ → ℕ
  deflate_room input_len out_len room =
      if ltb (room - out_len) 64 then f.reserve room out_len (max input_len 1024) else room

  pub deflate_loop : ℕ → Bytes → ℕ → Bytes → ℕ → f.Deflater → Outcome (Bytes × f.Deflater)
  deflate_loop zero input consumed out room s = stuck
  deflate_loop (suc fuel) input consumed out room s =
      let room' = deflate_room (length input) (length out) room in
      elim (f.compress_vec s (drop consumed input) (room' - length out)) [
        | none ↦ fail deflate_failed
        | some c ↦
            let consumed' = consumed + c.consumed in
            let out' = out ++ c.output in
            let again = deflate_loop fuel input consumed' out' room' c.after in
            let done = consumed' == length input in
            let progress = not (c.consumed == 0) || not (length c.output == 0) in
            if (done && ltb (length out') room') || not progress then ok (out', c.after) else again
      ]

  -- `if out.ends_with(&SYNC_TAIL) { out.truncate(..) }`
  pub without_tail : Bytes → Bytes
  without_tail out =
      let body = length out - 4 in
      if leb 4 (length out) && text_eq (drop body out) sync_tail then take body out else out

  -- `deflate`, from a deflater that exists already.
  unfoldable pub deflate : Bytes → f.Deflater → Outcome (Bytes × f.Deflater)
  unfolding deflate_room deflate_loop without_tail
  deflate input s =
      deflate_loop (suc (f.work s (length input))) input 0 []
        (f.reserve 0 0 (length input / 2 + 64)) s
      >>= λ r. ok (without_tail r.0, r.1)

-- To split on a result and keep the equation.
pub Outcome-cases {ℓ} :
    {A : Type ℓ} (o : Outcome A)
    → ((a : A) × (o ≡ ok a)) ⊎ ((e : Failure) × (o ≡ fail e)) ⊎ (o ≡ stuck)
Outcome-cases (ok a) = inl (a, refl)
Outcome-cases (fail e) = inr (inl (e, refl))
Outcome-cases stuck = inr (inr refl)
