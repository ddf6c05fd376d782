-- ===== src/Alloc/Loop/Inputs.antt =====
-- What the loop of seq_get_admissible_traffic keeps, and that its reading of the queues keeps it.
use fastpass.Base.{ℕ, zero, suc, ◌≤◌, List, [], ◌∷◌, ◌++◌, leb, ◌≡◌, if_both}
use fastpass.Alloc.Bins.{Bin, AdmittedEdge}
use fastpass.Alloc.Core.{Core, incoming_bin_to_core}
use fastpass.Alloc.Core.Once.{count_src}
use fastpass.Alloc.Core.Runs.{BinInRange, Inv, try_allocation_core-Inv, incoming_bin_to_core-Inv}
use fastpass.Alloc.Loop.{
  LoopState, take_request, take_requests, process_new_requests, pass_bin, burst_q_in_to_q_out,
  take_bin_in, read_inputs, handle_inputs, max_demands_per_batch, core_fuel,
}

-- All bins of a queue hold node ids only; all admitted lists have each source at most once.
abbrev pub QueueInRange : List Bin → Type 0
QueueInRange [] = Unit
QueueInRange (bin ∷ q) = BinInRange bin × QueueInRange q

abbrev pub AllOnce : List (List AdmittedEdge) → Type 0
AllOnce [] = Unit
AllOnce (adm ∷ out) = ((a : ℕ) → count_src a adm ≤ 1) × AllOnce out

pub record LoopInv (st : LoopState) : Type 0 where
  pub core : Inv st.core
  pub ins : QueueInRange st.queue_in
  pub heads : QueueInRange st.q_head
  pub outs : AllOnce st.q_admitted_out
  pub sent : st.admitted_bins ≤ 16

pub append-QueueInRange : (q r : List Bin) → QueueInRange q → QueueInRange r → QueueInRange (q ++ r)
append-QueueInRange [] r h k = k
append-QueueInRange (bin ∷ q) r (h, hs) k = (h, append-QueueInRange q r hs k)

pub snoc-AllOnce :
    (out : List (List AdmittedEdge)) (adm : List AdmittedEdge)
    → AllOnce out
    → ((a : ℕ) → count_src a adm ≤ 1)
    → AllOnce (out ++ (adm ∷ []))
snoc-AllOnce [] adm h k = (k, tt)
snoc-AllOnce (x ∷ out) adm (h, hs) k = (h, snoc-AllOnce out adm hs k)

-- The words of the core that the invariant does not speak of may change.
abbrev Kept : Core → Core → Type 0
Kept core core' =
    (core'.batch_state ≡ core.batch_state)
    × (core'.admitted ≡ core.admitted)
    × (core'.new_request_bins ≡ core.new_request_bins)

Kept-Inv : (core core' : Core) → Kept core core' → Inv core → Inv core'
Kept-Inv core core' (b, a, n) v = record {
  once = rw (b, a) v.once;
  ranged = λ i. rw n (v.ranged i);
}

incoming :
    (st : LoopState) (bin : Bin)
    → BinInRange bin
    → LoopInv st
    → Inv (incoming_bin_to_core bin st.core)
incoming st bin h v = incoming_bin_to_core-Inv bin st.core h v.core

take_request-LoopInv :
    (q : List Bin) (st : LoopState) → QueueInRange q → LoopInv st → LoopInv (take_request q st)
take_request-LoopInv [] st h v = v
take_request-LoopInv (bin ∷ rest) st (h, hs) v = record {
  core = incoming st bin h v;
  ins = v.ins;
  heads = hs;
  outs = v.outs;
  sent = v.sent;
}

take_bin_in-LoopInv :
    (q : List Bin) (st : LoopState) → QueueInRange q → LoopInv st → LoopInv (take_bin_in q st)
take_bin_in-LoopInv [] st h v = v
take_bin_in-LoopInv (bin ∷ rest) st (h, hs) v = record {
  core = incoming st bin h v;
  ins = hs;
  heads = v.heads;
  outs = v.outs;
  sent = v.sent;
}

pass_bin-LoopInv :
    (q : List Bin) (st : LoopState) → QueueInRange q → LoopInv st → LoopInv (pass_bin q st)
pass_bin-LoopInv [] st h v = v
pass_bin-LoopInv (bin ∷ rest) st (h, hs) v = record {
  core = record { once = v.core.once; ranged = v.core.ranged };
  ins = hs;
  heads = v.heads;
  outs = v.outs;
  sent = v.sent;
}

process_new_requests-LoopInv :
    (n : ℕ) (st : LoopState) → LoopInv st → LoopInv (process_new_requests n st)
unfolding process_new_requests
process_new_requests-LoopInv zero st v = v
process_new_requests-LoopInv (suc n) st v =
    process_new_requests-LoopInv n (take_request st.q_head st)
      (take_request-LoopInv st.q_head st v.heads v)

pub burst-LoopInv : (n : ℕ) (st : LoopState) → LoopInv st → LoopInv (burst_q_in_to_q_out n st)
unfolding burst_q_in_to_q_out
burst-LoopInv zero st v = v
burst-LoopInv (suc n) st v =
    burst-LoopInv n (pass_bin st.queue_in st) (pass_bin-LoopInv st.queue_in st v.ins v)

take_requests-LoopInv : (st : LoopState) → LoopInv st → LoopInv (take_requests st)
take_requests-LoopInv st v =
    if_both LoopInv st.should_process_new_req (process_new_requests 8 st) st
      (process_new_requests-LoopInv 8 st v) v

read_inputs-LoopInv : (st : LoopState) → LoopInv st → LoopInv (read_inputs st)
read_inputs-LoopInv st v =
    let st' = take_requests st in
    let v' = take_requests-LoopInv st v in
    if_both LoopInv (leb max_demands_per_batch st.n_processed) (burst_q_in_to_q_out 16 st)
      (take_bin_in st'.queue_in st') (burst-LoopInv 16 st v)
      (take_bin_in-LoopInv st'.queue_in st' v'.ins v')

pub handle_inputs-LoopInv : (st : LoopState) → LoopInv st → LoopInv (handle_inputs st)
unfolding handle_inputs
handle_inputs-LoopInv st v =
    let v' = read_inputs-LoopInv st v in
    record {
      core = try_allocation_core-Inv core_fuel (read_inputs st).core v'.core;
      ins = v'.ins;
      heads = v'.heads;
      outs = v'.outs;
      sent = v'.sent;
    }
