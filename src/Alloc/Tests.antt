-- ===== src/Alloc/Tests.antt =====
-- Runs of the allocator on small inputs, and the theorems at them.
use fastpass.Base.{
  ℕ, ◌+◌, ◌%◌, ◌^◌, ◌<◌, true, false, List, [], ◌∷◌, replicate, get_or, ◌≡◌, ◌≢◌, refl, arith, zero,
  suc, get_or-replicate_self, ◌&&◌, ◌||◌, not, ◌==◌,
}
use fastpass.Alloc.Batch.{
  BatchState, batch_state_init, get_avail_bitmap, set_occupied_conditional, disallow_lsb_timeslot,
}
use fastpass.Alloc.Batch.Avail.{IsValid, init-IsValid, is_free, takes_dst, is_free-set_occupied}
use fastpass.Alloc.Bins.{
  BacklogEdge, AdmittedEdge, Bin, insert_admitted_edge, bin_index_from_timeslot,
}
use fastpass.Base.Bits.{bit}
use fastpass.Base.Bits.Scan.{lowest}
use fastpass.Alloc.Core.{
  Core, admitted_at, try_allocation_core, try_allocation_core_loop, process_lowest_bin,
  try_allocation_bin, try_allocation_bin_from, try_edge, try_allocation, core_enqueue_to_q_spent,
  core_enqueue_to_q_out, core_flush_q_spent, core_flush_q_out, incoming_bin_to_core,
  move_bin_to_q_out,
}
use fastpass.Alloc.Loop.{
  Config, Input, Progress, seq_get_admissible_traffic, start_batch, run_rounds, round, new_timeslot,
  handle_inputs, wrap_up, alloc_core_reset, process_new_requests, update_allowed, send_admitted,
  allow_bins, move_core_to_q_out, burst_q_in_to_q_out,
}
use fastpass.Alloc.Loop.Inputs.{AllOnce}
use fastpass.Alloc.Loop.Once.{sent_out, sources_once, empty_batch-SrcOnce}
use fastpass.Alloc.Core.Once.{SrcOnce, timeslot, count_dst}
use fastpass.Alloc.Core.Earliest.{try_allocation_earliest, destination_booked_twice}
use fastpass.Alloc.Core.Runs.{BinInRange}

-- A batch state as it is when the memory of the arbiter is zero.
abbrev zeroed : BatchState
zeroed = record {
  oversubscribed = false;
  allowed_mask = 0;
  src_endnodes = replicate 256 0;
  dst_endnodes = replicate 256 0;
  src_rack_bitmaps = replicate 16 0;
  dst_rack_bitmaps = replicate 16 0;
  src_rack_counts = replicate 256 0;
  dst_rack_counts = replicate 256 0;
  out_of_boundary_counts = replicate 16 0;
}

abbrev idle_core : Core
idle_core = record {
  new_request_bins = replicate 48 [];
  non_empty_bins = 0;
  allowed_bins = 0;
  batch_state = zeroed;
  admitted = replicate 16 [];
  out_bin = [];
  spent_bin = [];
  current_timeslot = 1024;
  queue_out = [];
  queue_spent = [];
}

abbrev status : Config
status = record {
  oversubscribed = false;
  inter_rack_capacity = 0;
  out_of_boundary_capacity = 16;
  num_nodes = 256;
}

abbrev flow : ℕ → ℕ → ℕ → BacklogEdge
flow src dst backlog = record { src = src; dst = dst; backlog = backlog; metric = 900 }

-- Two flows of one source, and one of another source to the same destination.
abbrev demands : Bin
demands = flow 1 2 1 ∷ flow 1 3 1 ∷ flow 4 2 1 ∷ []

abbrev round_at : ℕ → Input
round_at now = record { now_timeslot = now; arrived_head = []; arrived_in = [] }

abbrev rounds : List Input
rounds = round_at 1020 ∷ round_at 1024 ∷ round_at 1039 ∷ []

abbrev first_three : List (List AdmittedEdge) → List (List AdmittedEdge)
first_three (a ∷ b ∷ c ∷ _) = a ∷ b ∷ c ∷ []
first_three other = other

outcome : Progress
outcome = seq_get_admissible_traffic status 0 1019 1024 rounds idle_core (demands ∷ []) []

zeroed-IsValid : IsValid zeroed
zeroed-IsValid = record {
  srcs = refl;
  dsts = refl;
  counts = refl;
  mask_fits = omega arith;
  src_fits = λ i. rw (get_or-replicate_self {A = ℕ} 256 i 0) (omega arith);
  dst_fits = λ i. rw (get_or-replicate_self {A = ℕ} 256 i 0) (omega arith);
}

demands-InRange : BinInRange demands
demands-InRange zero = (omega arith, omega arith)
demands-InRange (suc zero) = (omega arith, omega arith)
demands-InRange (suc (suc zero)) = (omega arith, omega arith)
demands-InRange (suc (suc (suc i))) = (omega arith, omega arith)

-- Source 1 is given two timeslots; both sources are put in the first one for destination 2.
outcome_sent :
    first_three (sent_out outcome)
    ≡ (record { src = 1; dst = 2 } ∷ record { src = 4; dst = 2 } ∷ [])
      ∷ (record { src = 1; dst = 3 } ∷ [])
      ∷ []
      ∷ []
unfolding outcome seq_get_admissible_traffic start_batch run_rounds round new_timeslot handle_inputs
    wrap_up batch_state_init alloc_core_reset process_new_requests update_allowed send_admitted
    allow_bins move_core_to_q_out burst_q_in_to_q_out try_allocation_core try_allocation_core_loop
    process_lowest_bin try_allocation_bin try_allocation_bin_from try_edge try_allocation
    get_avail_bitmap set_occupied_conditional lowest disallow_lsb_timeslot core_enqueue_to_q_spent
    core_enqueue_to_q_out core_flush_q_spent incoming_bin_to_core bin_index_from_timeslot
    core_flush_q_out move_bin_to_q_out bit
outcome_sent = refl

sources_once_example :
    AllOnce
      (sent_out (seq_get_admissible_traffic status 0 1019 1024 rounds idle_core (demands ∷ []) []))
sources_once_example =
    sources_once status 0 1019 1024 rounds idle_core (demands ∷ []) [] zeroed-IsValid
      (demands-InRange, tt) tt (tt, tt, (tt, tt, (tt, tt, tt)))

abbrev begun : Core
begun = record idle_core { batch_state = batch_state_init zeroed false 0 16 256 }

begun-SrcOnce : SrcOnce begun.batch_state begun.admitted
begun-SrcOnce =
    empty_batch-SrcOnce begun.batch_state (init-IsValid zeroed false 0 16 256 zeroed-IsValid)

begun_free :
    (get_avail_bitmap begun.batch_state 1 2 ≡ 65535)
    × (get_avail_bitmap begun.batch_state 4 2 ≡ 65535)
unfolding get_avail_bitmap batch_state_init
begun_free = (refl, refl)

try_allocation_earliest_example :
    let (rc, core') = try_allocation 1 2 5 900 begun in
    let t = timeslot begun 1 2 in
    (rc ≡ false)
    × (is_free begun.batch_state 1 2 t ≡ true)
    × ((j : ℕ) → j < t → is_free begun.batch_state 1 2 j ≡ false)
    × (admitted_at core' t ≡ insert_admitted_edge (admitted_at begun t) 1 2)
    × ((u : ℕ) → t ≢ u → admitted_at core' u ≡ admitted_at begun u)
    × ((b : ℕ) → is_free core'.batch_state 1 b t ≡ false)
try_allocation_earliest_example =
    try_allocation_earliest 1 2 5 900 begun begun-SrcOnce (omega arith) (omega arith)
      (omega (arith, begun_free))

same_timeslot : timeslot begun 4 2 ≡ timeslot begun 1 2
unfolding get_avail_bitmap batch_state_init lowest
same_timeslot = refl

boundary_count :
    get_or begun.batch_state.out_of_boundary_counts (timeslot begun 1 2) 0 % 2 ^ 16 ≡ 16
unfolding get_avail_bitmap batch_state_init lowest
boundary_count = refl

destination_booked_twice_example :
    let (_, core1) = try_allocation 1 2 5 900 begun in
    let (_, core2) = try_allocation 4 2 7 900 core1 in
    count_dst 2 (admitted_at core2 (timeslot begun 1 2))
    ≡ count_dst 2 (admitted_at begun (timeslot begun 1 2)) + 2
destination_booked_twice_example =
    destination_booked_twice begun 1 4 2 5 7 900 900 begun-SrcOnce (omega arith) (omega arith)
      (omega arith) (omega arith) (omega (arith, begun_free)) (omega (arith, begun_free))
      same_timeslot (omega (arith, boundary_count))

begun_pair_free : is_free begun.batch_state 1 2 3 ≡ true
unfolding get_avail_bitmap batch_state_init bit
begun_pair_free = refl

is_free-set_occupied_example :
    is_free (set_occupied_conditional begun.batch_state 1 2 3 (2 ^ 3)) 1 7 3 ≡ (
      is_free begun.batch_state 1 7 3
      && not ((3 == 3) && ((1 == 1) || ((7 == 2) && takes_dst begun.batch_state 2 3))))
is_free-set_occupied_example =
    is_free-set_occupied begun.batch_state 1 2 3 (init-IsValid zeroed false 0 16 256 zeroed-IsValid)
      (omega arith) (omega arith) (omega arith) begun_pair_free 1 7 3
