-- ===== src/Alloc/Core.antt =====
-- One allocation core: struct seq_admission_core_state of src/graph-algo/admissible_structures.h
-- and the functions of admissible_traffic.c that allocate a batch. BIN_MASK_SIZE is 1, so the two
-- bin masks are single words. A queue is the list of the bins in it, first out first; a full queue
-- or an empty pool only makes the source spin until there is room, so an enqueue appends.
-- The statistics are not modelled.
pub mod Once
pub mod Runs
pub mod Earliest
use fastpass.Base.{
  ℕ, zero, suc, ◌+◌, ◌-◌, ◌%◌, ◌^◌, bit_and, bit_or, bit_xor, Bool, true, false, List, [], ◌∷◌,
  ◌++◌, length, get_or, set, ◌==◌, if◌then◌else◌,
}
use fastpass.Base.Bits.Scan.{lowest}
use fastpass.Alloc.Batch.{BatchState, get_avail_bitmap, set_occupied_conditional, neg64}
use fastpass.Alloc.Bins.{
  Bin, BacklogEdge, AdmittedEdge, init_bin, enqueue_bin, enqueue_bin_edge, bin_get,
  insert_admitted_edge, bin_index_from_timeslot, num_bins, small_bin_size,
}

pub record Core : Type 0 where
  pub new_request_bins : List Bin
  pub non_empty_bins : ℕ
  pub allowed_bins : ℕ
  pub batch_state : BatchState
  pub admitted : List (List AdmittedEdge)
  pub out_bin : Bin
  pub spent_bin : Bin
  pub current_timeslot : ℕ
  -- the queues that the core writes to
  pub queue_out : List Bin
  pub queue_spent : List Bin

abbrev pub bin_at : Core → ℕ → Bin
bin_at core b = get_or core.new_request_bins b []

abbrev pub admitted_at : Core → ℕ → List AdmittedEdge
admitted_at core t = get_or core.admitted t []

unfoldable pub core_flush_q_spent : Core → Core
core_flush_q_spent core = record core {
  queue_spent = core.queue_spent ++ (core.spent_bin ∷ []);
  spent_bin = init_bin;
}

unfoldable pub core_enqueue_to_q_spent : ℕ → ℕ → ℕ → Core → Core
unfolding core_flush_q_spent
core_enqueue_to_q_spent src dst metric core =
    let core' = record core { spent_bin = enqueue_bin core.spent_bin src dst 0 metric } in
    if length core'.spent_bin == small_bin_size then core_flush_q_spent core' else core'

unfoldable pub core_flush_q_out : Core → Core
core_flush_q_out core = record core {
  queue_out = core.queue_out ++ (core.out_bin ∷ []);
  out_bin = init_bin;
}

abbrev flush_full_out : Core → Core
flush_full_out core = if length core.out_bin == small_bin_size then core_flush_q_out core else core

unfoldable pub core_enqueue_to_q_out : ℕ → ℕ → ℕ → ℕ → Core → Core
unfolding core_flush_q_out
core_enqueue_to_q_out src dst backlog metric core =
    flush_full_out (record core { out_bin = enqueue_bin core.out_bin src dst backlog metric })

unfoldable pub core_enqueue_to_q_out_edge : BacklogEdge → Core → Core
unfolding core_flush_q_out
core_enqueue_to_q_out_edge edge core =
    flush_full_out (record core { out_bin = enqueue_bin_edge core.out_bin edge })

-- `bts` on the mask of non-empty bins
abbrev pub set_bin_non_empty : ℕ → Core → Core
set_bin_non_empty b core = record core { non_empty_bins = bit_or core.non_empty_bins (2 ^ b) }

abbrev pub put_in_bin : ℕ → Bin → Core → Core
put_in_bin b bin core = record core { new_request_bins = set core.new_request_bins b bin }

-- The loop of `incoming_bin_to_core` over the entries of a bin.
unfoldable pub incoming_bin_to_core : Bin → Core → Core
incoming_bin_to_core [] core = core
incoming_bin_to_core (e ∷ bin) core =
    let b = bin_index_from_timeslot e.metric core.current_timeslot in
    let core' = put_in_bin b (enqueue_bin_edge (bin_at core b) e) core in
    incoming_bin_to_core bin (set_bin_non_empty b core')

unfoldable pub move_bin_to_q_out : Bin → Core → Core
move_bin_to_q_out [] core = core
move_bin_to_q_out (e ∷ bin) core = move_bin_to_q_out bin (core_enqueue_to_q_out_edge e core)

-- The timeslot that `try_allocation` picks: `bsfq`, then `& ((1 << BATCH_SHIFT) - 1)`.
abbrev pub batch_timeslot_of : ℕ → ℕ
batch_timeslot_of bitmap = bit_and (lowest 64 bitmap) (2 ^ 4 - 1)

abbrev pub set_bit_of : ℕ → ℕ
set_bit_of bitmap = bit_and bitmap (neg64 bitmap)

-- The part of `try_allocation` that occupies and admits the timeslot.
abbrev pub admit : ℕ → ℕ → ℕ → ℕ → Core → Core
admit src dst timeslot set_bit core = record core {
  batch_state = set_occupied_conditional core.batch_state src dst timeslot set_bit;
  admitted = set core.admitted timeslot (insert_admitted_edge (admitted_at core timeslot) src dst);
}

-- The part that stores what is left of the flow.
abbrev pub store_rest : ℕ → ℕ → ℕ → ℕ → ℕ → Core → Core
store_rest src dst backlog metric timeslot core =
    if backlog == 0
    then core_enqueue_to_q_spent src dst metric core
    else let b = num_bins + timeslot in
      set_bin_non_empty b (put_in_bin b (enqueue_bin (bin_at core b) src dst backlog metric) core)

-- `true` if the caller must handle the flow. The backlog is a uint16_t: `backlog--` wraps.
unfoldable pub try_allocation : ℕ → ℕ → ℕ → ℕ → Core → Bool × Core
try_allocation src dst backlog metric core =
    let bitmap = get_avail_bitmap core.batch_state src dst in
    let timeslot = batch_timeslot_of bitmap in
    let left = (backlog % 2 ^ 16 + 2 ^ 16 - 1) % 2 ^ 16 in
    let metric' = (core.current_timeslot + timeslot) % 2 ^ 32 in
    if bitmap == 0 then (true, core) else (
      false,
      store_rest src dst left metric' timeslot (admit src dst timeslot (set_bit_of bitmap) core),
    )

-- One round of the loop of `try_allocation_bin`, for an entry of the bin.
unfoldable pub try_edge : BacklogEdge → Core → Core
try_edge e core =
    let (rc, core') = try_allocation e.src e.dst e.backlog e.metric core in
    if rc then core_enqueue_to_q_out e.src e.dst e.backlog e.metric core' else core'

-- The loop from entry `i` on, with `left` rounds to go. It reads the bin anew in each round.
unfoldable pub try_allocation_bin_from : ℕ → ℕ → ℕ → Core → Core
try_allocation_bin_from zero i b core = core
try_allocation_bin_from (suc left) i b core =
    try_allocation_bin_from left (i + 1) b (try_edge (bin_get (bin_at core b) i) core)

unfoldable pub try_allocation_bin : ℕ → Core → Core
try_allocation_bin b core = try_allocation_bin_from (length (bin_at core b)) 0 b core

-- The body of the loop of `try_allocation_core`, for the lowest bin of the mask.
unfoldable pub process_lowest_bin : ℕ → Core → Core
process_lowest_bin mask core =
    let b = lowest 64 mask in
    let core' = record core {
      non_empty_bins = bit_xor core.non_empty_bins (bit_and mask (neg64 mask));
    } in
    put_in_bin b init_bin (try_allocation_bin b core')

-- The loop, on fuel; `allowed` is read before it. One round of fuel is used by each bin.
unfoldable pub try_allocation_core_loop : ℕ → ℕ → Core → Core
try_allocation_core_loop zero allowed core = core
try_allocation_core_loop (suc fuel) allowed core =
    let mask = bit_and core.non_empty_bins allowed in
    let rest = try_allocation_core_loop fuel allowed (process_lowest_bin mask core) in
    if mask == 0 then core else rest

unfoldable pub try_allocation_core : ℕ → Core → Core
try_allocation_core fuel core = try_allocation_core_loop fuel core.allowed_bins core
