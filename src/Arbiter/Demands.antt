-- ===== src/Arbiter/Demands.antt =====
-- src/arbiter/comm_core.c: handle_areq and handle_ack, what an endpoint asks for and what it has
-- got.
--
-- Totals are words of 32 bits that never go down, sent by their low bits or in whole.
mod Tests
pub mod Requests
use fastpass.Base.{
  ℕ, zero, suc, ◌+◌, ◌-◌, ◌*◌, ◌%◌, ◌^◌, List, [], ◌∷◌, ◌++◌, Bool, true, false, ◌&&◌, ltb, leb,
  ◌==◌, if◌then◌else◌,
}
use fastpass.Alloc.Batch.{max_nodes}
use fastpass.Arbiter.Reports.{Report}

-- The parts of an end node that handle_areq changes; the calls of add_backlog with their
-- destinations and amounts, and how often trigger_request is called.
pub record EndNode : Type 0 where
  pub demands : ℕ → ℕ
  pub added : List (ℕ × ℕ)
  pub triggered : ℕ

abbrev pub minus32 : ℕ → ℕ → ℕ
minus32 a b = (a + 2 ^ 32 - b) % 2 ^ 32

-- The demand that the low 16 bits of a count stand for, from half their range before the old one on.
unfoldable pub new_demand : ℕ → ℕ → ℕ
new_demand orig_demand count =
    let demand = minus32 orig_demand (2 ^ 15) in (demand + minus32 count demand % 2 ^ 16) % 2 ^ 32

-- Whether an int32_t is positive.
abbrev pub is_positive32 : ℕ → Bool
is_positive32 x = ltb 0 x && ltb x (2 ^ 31)

abbrev pub set_total : (ℕ → ℕ) → ℕ → ℕ → ℕ → ℕ
set_total totals dst v d = if d == dst then v else totals d

-- One round of the loop, for a destination that is valid.
unfoldable pub areq_round : EndNode → ℕ → ℕ → EndNode
areq_round en dst count =
    let orig_demand = en.demands dst in
    let demand = new_demand orig_demand count in
    let demand_diff = minus32 demand orig_demand in
    if is_positive32 demand_diff
    then record en {
      added = en.added ++ ((dst, demand_diff) ∷ []);
      demands = set_total en.demands dst demand;
    }
    else en

-- The requests are pairs of a destination and a count.
unfoldable pub handle_areq : EndNode → List (ℕ × ℕ) → EndNode
handle_areq en [] = record en { triggered = en.triggered + 1 }
handle_areq en ((dst, count) ∷ requests) =
    let rest = handle_areq (areq_round en dst count) requests in
    if ltb dst max_nodes then rest else en

-- The parts that handle_ack changes.
pub record Acked : Type 0 where
  pub acked_allocs : ℕ → ℕ
  pub total_acked_alloc : ℕ

unfoldable pub handle_ack : Acked → List Report → Acked
handle_ack en [] = en
handle_ack en (areq ∷ areqs) =
    let dst = areq.src_dst_key % 2 ^ 16 in
    let new_acked = minus32 areq.tslots (en.acked_allocs dst) in
    handle_ack
      (if is_positive32 new_acked
        then record {
          acked_allocs = set_total en.acked_allocs dst ((en.acked_allocs dst + new_acked) % 2 ^ 32);
          total_acked_alloc = (en.total_acked_alloc + new_acked) % 2 ^ 64;
        }
        else en)
      areqs
