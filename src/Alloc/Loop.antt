-- ===== src/Alloc/Loop.antt =====
-- seq_get_admissible_traffic of src/graph-algo/admissible_traffic.c, which allocates one batch of
-- 16 timeslots, and alloc_core_reset of admissible_structures.h. The time and what other cores put
-- in the queues are read anew in each round of `while (1)`: they are the inputs of the rounds.
pub mod Inputs
pub mod Rounds
pub mod Once
use fastpass.Base.{
  ℕ, zero, suc, ◌+◌, ◌-◌, ◌*◌, ◌/◌, ◌%◌, ◌^◌, bit_or, Bool, true, false, not, ◌&&◌, ◌||◌, List, [],
  ◌∷◌, ◌++◌, length, get_or, replicate, ltb, leb, ◌==◌, if◌then◌else◌, sub64, is_negative,
}
use fastpass.Base.Bits.Scan.{lowest}
use fastpass.Base.Bits.{bit}
use fastpass.Alloc.Batch.{BatchState, batch_state_init, disallow_lsb_timeslot}
use fastpass.Alloc.Bins.{Bin, AdmittedEdge, num_bins}
use fastpass.Alloc.Core.{
  Core, bin_at, admitted_at, incoming_bin_to_core, move_bin_to_q_out, core_flush_q_out,
  core_flush_q_spent, try_allocation_core,
}

-- The fields of struct seq_admissible_status that a core reads when it starts a batch.
pub record Config : Type 0 where
  pub oversubscribed : Bool
  pub inter_rack_capacity : ℕ
  pub out_of_boundary_capacity : ℕ
  pub num_nodes : ℕ

pub record LoopState : Type 0 where
  pub core : Core
  pub queue_in : List Bin
  pub q_head : List Bin
  pub q_admitted_out : List (List AdmittedEdge)
  pub prev_timeslot : ℕ
  pub processed_bins : ℕ
  pub admitted_bins : ℕ
  pub should_process_new_req : Bool
  pub n_processed : ℕ

-- What a round finds: the timeslot of the clock, and the bins that have arrived since the last one.
pub record Input : Type 0 where
  pub now_timeslot : ℕ
  pub arrived_head : List Bin
  pub arrived_in : List Bin

abbrev pub max_demands_per_batch : ℕ
max_demands_per_batch = 256 * 16 * 4

abbrev pub timeslots_start_before : ℕ
timeslots_start_before = (16 + 32) * 2

-- More rounds than `try_allocation_core` can make: one for each bin and each free source timeslot.
abbrev pub core_fuel : ℕ
core_fuel = 64 + 256 * 64 + 1

unfoldable pub alloc_core_reset : Config → Core → Core
alloc_core_reset status core = record core {
  new_request_bins = replicate (num_bins + 16) [];
  allowed_bins = 1;
  batch_state =
      batch_state_init core.batch_state status.oversubscribed status.inter_rack_capacity
        status.out_of_boundary_capacity status.num_nodes;
  non_empty_bins = 0;
}

-- One `fp_ring_dequeue` of `q_head`, and what is done with the bin; nothing on an empty queue.
abbrev pub take_request : List Bin → LoopState → LoopState
take_request [] st = st
take_request (bin ∷ rest) st = record st {
  q_head = rest;
  core = incoming_bin_to_core bin st.core;
  n_processed = st.n_processed + length bin;
}

-- `RING_DEQUEUE_BURST_SIZE` is 8.
unfoldable pub process_new_requests : ℕ → LoopState → LoopState
process_new_requests zero st = st
process_new_requests (suc n) st = process_new_requests n (take_request st.q_head st)

abbrev pub pass_bin : List Bin → LoopState → LoopState
pass_bin [] st = st
pass_bin (bin ∷ rest) st = record st {
  queue_in = rest;
  core = record (st.core) { queue_out = st.core.queue_out ++ (bin ∷ []) };
}

-- `Q_IN_Q_OUT_BURST_SIZE` is 16.
unfoldable pub burst_q_in_to_q_out : ℕ → LoopState → LoopState
burst_q_in_to_q_out zero st = st
burst_q_in_to_q_out (suc n) st = burst_q_in_to_q_out n (pass_bin st.queue_in st)

-- One `fp_ring_dequeue` of `queue_in`.
abbrev pub take_bin_in : List Bin → LoopState → LoopState
take_bin_in [] st = st
take_bin_in (bin ∷ rest) st = record st {
  queue_in = rest;
  core = incoming_bin_to_core bin st.core;
  n_processed = st.n_processed + length bin;
}

abbrev pub take_requests : LoopState → LoopState
take_requests st = if st.should_process_new_req then process_new_requests 8 st else st

-- The rest of a round from `handle_inputs` on.

abbrev pub read_inputs : LoopState → LoopState
read_inputs st =
    if leb max_demands_per_batch st.n_processed
    then burst_q_in_to_q_out 16 st
    else let st' = take_requests st in take_bin_in st'.queue_in st'

unfoldable pub handle_inputs : LoopState → LoopState
handle_inputs st =
    let st' = read_inputs st in record st' { core = try_allocation_core core_fuel st'.core }

-- `for (bin = admitted_bins; bin < admit_gap; bin++)`: each timeslot is sent out, then disallowed.
unfoldable pub send_admitted : ℕ → ℕ → LoopState → LoopState
send_admitted zero t st = st
send_admitted (suc left) t st = send_admitted left (t + 1) (record st {
  q_admitted_out = st.q_admitted_out ++ (admitted_at st.core t ∷ []);
  core = record (st.core) { batch_state = disallow_lsb_timeslot st.core.batch_state };
})

-- `bts` for the bins from `b` on
unfoldable pub allow_bins : ℕ → ℕ → Core → Core
allow_bins zero b core = core
allow_bins (suc left) b core =
    allow_bins left (b + 1) (record core { allowed_bins = bit_or core.allowed_bins (2 ^ b) })

unfoldable pub update_allowed : ℕ → ℕ → LoopState → LoopState
update_allowed first_timeslot now st =
    let slot_gap = sub64 now (sub64 (first_timeslot + 16 - 1) timeslots_start_before) in
    let new_bins = if ltb timeslots_start_before slot_gap then 16 + num_bins else slot_gap / 2 in
    if is_negative slot_gap then st else record st {
      core = allow_bins (new_bins - st.processed_bins) st.processed_bins st.core;
      processed_bins = new_bins;
    }

pub data Progress : Type 0 where
  going : LoopState → Progress
  wrapped : LoopState → Progress

-- `now_timeslot - first_timeslot + 1`, an int64_t, and the same held to BATCH_SIZE
abbrev pub gap_of : ℕ → ℕ → ℕ
gap_of first_timeslot now = sub64 (now + 1) first_timeslot

abbrev pub admit_gap_of : ℕ → ℕ → ℕ
admit_gap_of first_timeslot now =
    if ltb 16 (gap_of first_timeslot now) then 16 else gap_of first_timeslot now

abbrev pub retime : ℕ → ℕ → LoopState → LoopState
retime first_timeslot now st = record st {
  prev_timeslot = now;
  should_process_new_req = ltb 1 (sub64 first_timeslot now) && leb (sub64 first_timeslot now) 16;
}

abbrev pub send_due : ℕ → ℕ → LoopState → LoopState
send_due first_timeslot now st =
    let admit_gap = admit_gap_of first_timeslot now in
    record (send_admitted (admit_gap - st.admitted_bins) st.admitted_bins st) {
      admitted_bins = admit_gap;
    }

-- The part of a round between a new timeslot and `handle_inputs`. `wrapped` is `goto wrap_up`.
unfoldable pub new_timeslot : ℕ → ℕ → LoopState → Progress
new_timeslot first_timeslot now st =
    let timed = retime first_timeslot now st in
    let sent = send_due first_timeslot now timed in
    if is_negative (gap_of first_timeslot now) || (gap_of first_timeslot now == 0)
    then going (update_allowed first_timeslot now timed)
    else if admit_gap_of first_timeslot now == 16
    then wrapped sent
    else going (update_allowed first_timeslot now sent)

abbrev pub arrive : Input → LoopState → LoopState
arrive i st = record st {
  q_head = st.q_head ++ i.arrived_head;
  queue_in = st.queue_in ++ i.arrived_in;
}

abbrev pub then_handle : Progress → Progress
then_handle (going st) = going (handle_inputs st)
then_handle (wrapped st) = wrapped st

-- One round of `while (1)`.
unfoldable pub round : ℕ → Input → LoopState → Progress
round first_timeslot i st = then_handle (
    if i.now_timeslot == st.prev_timeslot
    then going (arrive i st)
    else new_timeslot first_timeslot i.now_timeslot (arrive i st))

-- The loop of `move_core_to_q_out` over the set bits of the mask, the lowest first.
unfoldable pub move_core_to_q_out : ℕ → ℕ → Core → Core
move_core_to_q_out zero mask core = core
move_core_to_q_out (suc left) b core =
    let core' =
      if bit core.non_empty_bins b then move_bin_to_q_out (bin_at core b) core else core in
    move_core_to_q_out left (b + 1) core'

abbrev pub flush_out : Core → Core
flush_out core = if length core.out_bin == 0 then core else core_flush_q_out core

abbrev pub flush_spent : Core → Core
flush_spent core = if length core.spent_bin == 0 then core else core_flush_q_spent core

-- `ALGO_N_CORES` is 4.
unfoldable pub wrap_up : LoopState → LoopState
wrap_up st =
    let moved = move_core_to_q_out (num_bins + 16) 0 st.core in
    let st' = burst_q_in_to_q_out 16 (record st { core = flush_spent (flush_out moved) }) in
    record st' {
      core = record (st'.core) { current_timeslot = (st'.core.current_timeslot + 4 * 16) % 2 ^ 64 };
    }

abbrev pub then_run : (LoopState → Progress) → Progress → Progress
then_run rest (going st) = rest st
then_run rest (wrapped st) = wrapped (wrap_up st)

-- All rounds; `going` when the inputs end before the batch does.
unfoldable pub run_rounds : ℕ → List Input → LoopState → Progress
run_rounds first_timeslot [] st = going st
run_rounds first_timeslot (i ∷ is) st =
    then_run (run_rounds first_timeslot is) (round first_timeslot i st)

abbrev pub fresh_state : Config → ℕ → Core → List Bin → List Bin → LoopState
fresh_state status clock core queue_in q_head = record {
  core = alloc_core_reset status core;
  queue_in = queue_in;
  q_head = q_head;
  q_admitted_out = [];
  prev_timeslot = sub64 clock 1;
  processed_bins = 0;
  admitted_bins = 0;
  should_process_new_req = false;
  n_processed = 0;
}

-- `init_admitted_traffic` of each timeslot
abbrev pub init_admitted : LoopState → LoopState
init_admitted st = record st { core = record (st.core) { admitted = replicate 16 [] } }

-- The state in which the loop starts, after `waits` failures to get memory for the admitted
-- traffic, in each of which new requests are processed. `clock` is the first reading of the clock.
unfoldable pub start_batch : Config → ℕ → ℕ → Core → List Bin → List Bin → LoopState
start_batch status waits clock core queue_in q_head =
    init_admitted (process_new_requests (8 * waits) (fresh_state status clock core queue_in q_head))

unfoldable pub seq_get_admissible_traffic :
    Config → ℕ → ℕ → ℕ → List Input → Core → List Bin → List Bin → Progress
seq_get_admissible_traffic status waits clock first_timeslot inputs core queue_in q_head =
    run_rounds first_timeslot inputs (start_batch status waits clock core queue_in q_head)
