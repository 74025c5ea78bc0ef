-- ===== src/Deflate/Buffers.antt =====
-- src/deflate.rs: `poll_drain`, and the copy at the start of `poll_read`, on the buffers of rewritten
-- bytes. The socket's answers to `poll_write` are a list; where it ends the socket is not ready.
pub mod Order
mod Runs
use wsblast.Common.{
  ℕ, zero, suc, ◌+◌, ◌-◌, min, Bool, true, false, List, [], ◌∷◌, ◌++◌, Bytes, length, take, drop,
  ltb, ◌==◌, if◌then◌else◌,
}

pub data Answer : Type 0 where
  accepted : ℕ → Answer
  not_ready broken : Answer

pub data Polled : Type 0 where
  finished pending write_zero failed : Polled

-- What a call of `poll_drain` returns, the buffer with its position behind it, and the bytes that the
-- socket took.
pub record Drained : Type 0 where
  pub polled : Polled
  pub ready : Bytes
  pub pos : ℕ
  pub taken : Bytes

abbrev pub stopped : Polled → Bytes → ℕ → Drained
stopped polled ready pos = record { polled = polled; ready = ready; pos = pos; taken = [] }

abbrev pub taking : Bytes → Drained → Drained
taking bytes d = record d { taken = bytes ++ d.taken }

unfoldable pub poll_drain : List Answer → Bytes → ℕ → Drained
poll_drain [] ready pos =
    if ltb pos (length ready) then stopped pending ready pos else stopped finished [] 0
poll_drain (not_ready ∷ answers) ready pos =
    if ltb pos (length ready) then stopped pending ready pos else stopped finished [] 0
poll_drain (broken ∷ answers) ready pos =
    if ltb pos (length ready) then stopped failed ready pos else stopped finished [] 0
poll_drain (accepted n ∷ answers) ready pos =
    let rest = taking (take n (drop pos ready)) (poll_drain answers ready (pos + n)) in
    if ltb pos (length ready)
    then if n == 0 then stopped write_zero ready pos else rest
    else stopped finished [] 0

-- The bytes that `poll_read` hands on, and the buffer with its position behind them, where there are
-- bytes and the reader has room for `remaining`.
unfoldable pub read_ready : ℕ → Bytes → ℕ → Bytes × (Bytes × ℕ)
read_ready remaining ready pos =
    let n = min remaining (length ready - pos) in
    let given = take n (drop pos ready) in
    if pos + n == length ready then (given, ([], 0)) else (given, (ready, pos + n))
