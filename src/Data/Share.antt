-- ===== src/Data/Share.antt =====
-- data.rs: which rows the agents of a distributed run use.
use native.Mathlib.Nat.{
  mod-eq_of_lt, mul-add-mod_self_right, mul-add-div_right, div-eq_of_lt, div-add-mod',
}
use wsblast.Common.{ℕ, ◌+◌, ◌*◌, ◌/◌, ◌%◌, ◌^◌, ◌<◌, ◌≡◌, sym, ap, ◌∙◌, true, length, ltb, arith}
use wsblast.Data.{DataSet, with_share, row_for, saturate}

saturate_small : (n : ℕ) → n < 2 ^ 64 → saturate n ≡ n
saturate_small n h = omega arith

-- Rows that fit into memory are counted below 2^64.
module _ (d : DataSet) (small : length d.rows < 2 ^ 64) (agents : ℕ) (many : 1 < agents) where
  row_for_shared :
      (i n : ℕ)
      → n * agents + i < length d.rows
      → row_for (with_share d i agents) n ≡ n * agents + i
  unfolding row_for with_share
  row_for_shared i n h =
      let several : ltb 1 agents ≡ true = ground arith in
      let product : saturate (n * agents) ≡ n * agents =
        saturate_small (n * agents) (omega arith) in
      let sum : saturate (n * agents + i) ≡ n * agents + i =
        saturate_small (n * agents + i) (omega arith) in
      rw (several, product, sum) (mod-eq_of_lt h)

  positive : 0 < agents
  positive = omega arith

  -- With two agents or more and fewer than 2^64 rows: as long as the rows last, no two connections of
  -- a run use the same row, since a row tells the agent and its connection.
  pub row_for_injective :
      (i j n m : ℕ)
      → i < agents
      → j < agents
      → n * agents + i < length d.rows
      → m * agents + j < length d.rows
      → row_for (with_share d i agents) n ≡ row_for (with_share d j agents) m
      → (i ≡ j) × (n ≡ m)
  row_for_injective i j n m hi hj hn hm e =
      let same : n * agents + i ≡ m * agents + j =
        sym (row_for_shared i n hn) ∙ e ∙ row_for_shared j m hm in
      (
        sym (agent_of i n hi) ∙ ap (λ x. x % agents) same ∙ agent_of j m hj,
        sym (connection_of i n hi) ∙ ap (λ x. x / agents) same ∙ connection_of j m hj,
      )
    where
      agent_of : (k x : ℕ) → k < agents → (x * agents + k) % agents ≡ k
      agent_of k x h = mul-add-mod_self_right x agents k ∙ mod-eq_of_lt h

      connection_of : (k x : ℕ) → k < agents → (x * agents + k) / agents ≡ x
      connection_of k x h = mul-add-div_right positive x k ∙ rw (div-eq_of_lt h) (omega arith)

  -- Two agents or more leave none of fewer than 2^64 rows out: connection r / agents of agent r % agents uses row r.
  pub row_for_surjective :
      (r : ℕ) → r < length d.rows → row_for (with_share d (r % agents) agents) (r / agents) ≡ r
  row_for_surjective r h =
      row_for_shared (r % agents) (r / agents) (rw (div-add-mod' r agents) h)
      ∙ div-add-mod' r agents
