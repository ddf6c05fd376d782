-- ===== src/Alloc/Demands/Tests.antt =====
-- One pair with demand left in the table when its entry comes back, and the theorems at it.
use fastpass.Base.{ℕ, ◌+◌, ◌*◌, ◌/◌, ◌^◌, [], ◌∷◌, some, ◌==◌, if◌then◌else◌, ◌≡◌, arith}
use fastpass.Alloc.Bins.{BacklogEdge}
use fastpass.Alloc.Demands.{
  Status, handle_spent_edge, seq_add_backlog, seq_handle_spent, seq_reset_sender, backlog_index,
}
use fastpass.Alloc.Demands.Flows.{Flows, demand, Added, seq_add_backlog_lem}
use fastpass.Alloc.Demands.Spent.{
  Handled, spent_edge-demand, seq_handle_spent_lem, seq_reset_sender_lem,
}

abbrev spent : BacklogEdge
spent = record { src = 1; dst = 2; backlog = 0; metric = 7 }

abbrev status : Status
status = record {
  backlog = record { n = λ k. if k == 258 then 5 else 0; is_active = λ k. k == 258 };
  last_alloc_tslot = λ _. 0;
  new_demands = [];
  q_head = [];
  q_spent = (spent ∷ []) ∷ [];
}

abbrev no_other : ℕ → ℕ
no_other _ = 0

status-Flows : Flows no_other status
status-Flows = record { once = λ k. ground arith; idle = λ k off. ground arith }

seq_add_backlog_example :
    (status' : Status) × (seq_add_backlog status 1 3 40 ≡ some status')
    × Added no_other 259 40 status status'
seq_add_backlog_example =
    seq_add_backlog_lem no_other status 1 3 40 status-Flows (omega arith) (omega arith)
      (omega arith)

seq_handle_spent_example : Handled no_other status (seq_handle_spent status)
seq_handle_spent_example = seq_handle_spent_lem no_other status status-Flows λ k. ground arith

seq_reset_sender_example :
    Flows no_other (seq_reset_sender status 1)
    × ((k : ℕ)
        → (seq_reset_sender status 1).backlog.n k
          ≡ (if k / 2 ^ 8 == 1 then 0 else status.backlog.n k))
seq_reset_sender_example = seq_reset_sender_lem no_other status 1 status-Flows

spent_edge-demand_example :
    demand 258 (handle_spent_edge status spent)
      + (if 258 == backlog_index spent.src spent.dst
          then status.backlog.n (backlog_index spent.src spent.dst) / 2 ^ 16 * 2 ^ 16
          else 0)
    ≡ demand 258 status
spent_edge-demand_example = spent_edge-demand 258 status spent
