-- ===== src/Deflate/Buffers/Runs.antt =====
-- deflate.rs: draining and reading buffers at concrete answers.
use wsblast.Common.{◌≡◌, refl, [], ◌∷◌, ◌++◌, codes, drop}
use wsblast.Deflate.Buffers.{accepted, not_ready, poll_drain}
use wsblast.Deflate.Buffers.Order.{poll_drain_order}

-- Three of the four bytes that are left go out before the socket is busy.
busy : (poll_drain (accepted 1 ∷ accepted 2 ∷ not_ready ∷ []) (codes "xabcd") 1).taken ≡ codes "abc"
unfolding poll_drain
busy = refl

poll_drain_order_example :
    (poll_drain (accepted 1 ∷ not_ready ∷ []) (codes "xabcd") 1).taken
      ++ drop
          (poll_drain (accepted 1 ∷ not_ready ∷ []) (codes "xabcd") 1).pos
          (poll_drain (accepted 1 ∷ not_ready ∷ []) (codes "xabcd") 1).ready
    ≡ codes "abcd"
poll_drain_order_example = poll_drain_order (accepted 1 ∷ not_ready ∷ []) (codes "xabcd") 1
