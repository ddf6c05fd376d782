-- ===== src/Arbiter/Demands/Tests.antt =====
-- The theorem of the requests at a concrete end node.
use fastpass.Base.{ℕ, ◌+◌, max, List, [], ◌∷◌, ◌==◌, if◌then◌else◌, ◌≡◌, refl, arith}
use fastpass.Arbiter.Demands.{EndNode, handle_areq}
use fastpass.Arbiter.Demands.Requests.{sum_for, asked, handle_areq_lem}

abbrev asking : EndNode
asking = record { demands = λ d. if d == 4 then 65530 else 0; added = []; triggered = 0 }

-- The total for the node 4 has passed 2 ^ 16.
abbrev totals : ℕ → ℕ
totals d = if d == 4 then 65540 else 7

abbrev requests : List (ℕ × ℕ)
requests = (4, 4) ∷ (9, 7) ∷ []

handle_areq_example :
    ((d : ℕ)
      → ((handle_areq asking requests).demands d
          ≡ (if asked d requests then max (asking.demands d) (totals d) else asking.demands d))
        × (sum_for d (handle_areq asking requests).added + asking.demands d
            ≡ sum_for d asking.added + (handle_areq asking requests).demands d))
    × ((handle_areq asking requests).triggered ≡ 0 + 1)
handle_areq_example = handle_areq_lem totals asking requests (
  omega arith,
  refl,
  record {
    known_lt = omega arith;
    total_lt = omega arith;
    behind = omega arith;
    ahead = omega arith;
  },
  (
    omega arith,
    refl,
    record {
      known_lt = omega arith;
      total_lt = omega arith;
      behind = omega arith;
      ahead = omega arith;
    },
    tt,
  ),
)
