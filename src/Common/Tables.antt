-- ===== src/Common/Tables.antt =====
-- Facts about every byte, checked value by value.
use Prim.Native.Nat.{ℕ, zero, suc, ◌<◌}
use mathlib.Core.Path.{◌≡◌}
use mathlib.Core.Bool.{Bool, true, false}
use native.Mathlib.Omega.{arith}

-- The test passes at each number under the bound, tried from the top down.
unfoldable pub passes : (ℕ → Bool) → ℕ → Bool
passes test zero = true
passes test (suc top) = elim (test top) [ true ↦ passes test top | false ↦ false ]

pub passes_everywhere :
    (test : ℕ → Bool) (bound i : ℕ) → passes test bound ≡ true → i < bound → test i ≡ true
unfolding passes
passes_everywhere test zero i e below = elim below [ ]
passes_everywhere test (suc top) i e below = ground (arith, passes_everywhere test top i)
