-- ===== src/Distributed/Protocol/Split.antt =====
-- protocol.rs: how `split` divides a total among the agents.
use native.Mathlib.Nat.{mod-lt, div-add-mod'}
use wsblast.Common.{ℕ, zero, suc, ◌+◌, ◌*◌, ◌/◌, ◌%◌, ◌≤◌, ◌<◌, ◌≡◌, ◌∙◌, min, max, arith}
use wsblast.Distributed.Protocol.{split, part_of_total}

-- The parts of the first `n` of a run's agents, added up.
pub parts_sum : ℕ → ℕ → ℕ → ℕ
parts_sum zero total agents = 0
parts_sum (suc n) total agents =
    parts_sum n total agents + part_of_total (record { index = n; agents = agents }) total

first_parts :
    (n total agents : ℕ)
    → parts_sum n total agents ≡ n * (total / max agents 1) + min n (total % max agents 1)
unfolding parts_sum part_of_total split
first_parts zero total agents = omega arith
first_parts (suc n) total agents =
    let q = total / max agents 1 in
    let grows : suc n * q ≡ n * q + q = omega arith in
    ground (arith, first_parts n total agents, grows)

-- The parts of all agents add up to the total.
pub parts_sum_total : (total agents : ℕ) → 0 < agents → parts_sum agents total agents ≡ total
parts_sum_total total agents h =
    let n : max agents 1 ≡ agents = omega arith in
    first_parts agents total agents
    ∙ rw n (omega (arith, mod-lt total h, div-add-mod' total agents))

-- Two agents' parts of a total differ by one connection at most, and the earlier agent's is not the
-- smaller.
pub split_even :
    (total agents i j : ℕ)
    → i ≤ j
    → (split total j agents ≤ split total i agents)
      × (split total i agents ≤ split total j agents + 1)
unfolding split
split_even total agents i j h = (ground arith, ground arith)
