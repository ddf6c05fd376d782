-- ===== src/Alloc/Batch.antt =====
-- src/graph-algo/batch.h: which endpoints are still free in each of the 16 timeslots of a batch.
-- The constants are those of batch.h, algo_config.h and src/protocol/topology.h.
pub mod Avail
use fastpass.Base.{
  ℕ, ◌+◌, ◌-◌, ◌*◌, ◌/◌, ◌%◌, ◌^◌, bit_and, bit_or, bit_xor, Bool, true, false, not, ◌&&◌, ◌||◌,
  List, length, get_or, set, replicate, ltb, ◌==◌, if◌then◌else◌, zero, suc,
}

abbrev pub max_nodes : ℕ
max_nodes = 256

abbrev pub out_of_boundary_node_id : ℕ
out_of_boundary_node_id = 255

abbrev pub max_racks : ℕ
max_racks = 16

abbrev pub batch_size : ℕ
batch_size = 16

abbrev pub supports_oversubscription : Bool
supports_oversubscription = false

-- `~0ULL`
abbrev pub all_ones : ℕ
all_ones = 2 ^ 64 - 1

-- `-(b)` on a 64-bit word
abbrev pub neg_bool : Bool → ℕ
neg_bool b = if b then all_ones else 0

abbrev pub neg64 : ℕ → ℕ
neg64 x = (2 ^ 64 - x) % 2 ^ 64

abbrev pub rack_from_node_id : ℕ → ℕ
rack_from_node_id id = id / 2 ^ 8

pub record BatchState : Type 0 where
  pub oversubscribed : Bool
  pub allowed_mask : ℕ
  pub src_endnodes : List ℕ
  pub dst_endnodes : List ℕ
  pub src_rack_bitmaps : List ℕ
  pub dst_rack_bitmaps : List ℕ
  pub src_rack_counts : List ℕ
  pub dst_rack_counts : List ℕ
  pub out_of_boundary_counts : List ℕ

-- `for (i = 0; i < n; i++) arr[i] = v`
abbrev pub fill : ℕ → ℕ → List ℕ → List ℕ
fill zero v arr = arr
fill (suc n) v arr = set (fill n v arr) n v

unfoldable pub batch_state_init : BatchState → Bool → ℕ → ℕ → ℕ → BatchState
batch_state_init state over inter_rack_capacity out_of_boundary_capacity num_nodes = record {
  oversubscribed = over;
  allowed_mask = 2 ^ batch_size - 1;
  src_endnodes = fill num_nodes all_ones state.src_endnodes;
  dst_endnodes = set (fill num_nodes all_ones state.dst_endnodes) out_of_boundary_node_id all_ones;
  src_rack_bitmaps =
      if over
      then fill (num_nodes / 2 ^ 8) all_ones state.src_rack_bitmaps
      else state.src_rack_bitmaps;
  dst_rack_bitmaps =
      if over
      then fill (num_nodes / 2 ^ 8) all_ones state.dst_rack_bitmaps
      else state.dst_rack_bitmaps;
  src_rack_counts =
      if over
      then fill (max_racks * batch_size) inter_rack_capacity state.src_rack_counts
      else state.src_rack_counts;
  dst_rack_counts =
      if over
      then fill (max_racks * batch_size) inter_rack_capacity state.dst_rack_counts
      else state.dst_rack_counts;
  out_of_boundary_counts = fill batch_size out_of_boundary_capacity state.out_of_boundary_counts;
}

abbrev pub endnode_bitmap : BatchState → ℕ → ℕ → ℕ
endnode_bitmap state src dst =
    bit_and (bit_and state.allowed_mask (get_or state.src_endnodes src 0))
      (get_or state.dst_endnodes dst 0)

abbrev rack_bitmap : BatchState → ℕ → ℕ → ℕ
rack_bitmap state src dst =
    let of_src = get_or state.src_rack_bitmaps (rack_from_node_id src) 0 in
    if dst == out_of_boundary_node_id
    then of_src
    else bit_and of_src (get_or state.dst_rack_bitmaps (rack_from_node_id dst) 0)

-- The free timeslots of a pair, the closest in the lowest bit.
unfoldable pub get_avail_bitmap : BatchState → ℕ → ℕ → ℕ
get_avail_bitmap state src dst =
    if supports_oversubscription && state.oversubscribed
    then bit_and (endnode_bitmap state src dst) (rack_bitmap state src dst)
    else endnode_bitmap state src dst

-- One rack loses one unit of capacity in a timeslot, and the timeslot when it has none left.
abbrev count_rack : ℕ → ℕ → List ℕ → List ℕ
count_rack rack timeslot counts =
    let i = batch_size * rack + timeslot in set counts i ((get_or counts i 0 + 2 ^ 16 - 1) % 2 ^ 16)

abbrev close_rack : ℕ → ℕ → List ℕ → List ℕ → List ℕ
close_rack rack timeslot counts bitmaps =
    if get_or counts (batch_size * rack + timeslot) 0 == 0
    then set bitmaps rack (bit_and (get_or bitmaps rack 0) (all_ones - 2 ^ timeslot))
    else bitmaps

abbrev occupy_src_rack : ℕ → ℕ → BatchState → BatchState
occupy_src_rack src timeslot state =
    let rack = rack_from_node_id src in
    let counts = count_rack rack timeslot state.src_rack_counts in
    record state {
      src_rack_counts = counts;
      src_rack_bitmaps = close_rack rack timeslot counts state.src_rack_bitmaps;
    }

abbrev occupy_dst_rack : ℕ → ℕ → BatchState → BatchState
occupy_dst_rack dst timeslot state =
    let rack = rack_from_node_id dst in
    let counts = count_rack rack timeslot state.dst_rack_counts in
    record state {
      dst_rack_counts = counts;
      dst_rack_bitmaps = close_rack rack timeslot counts state.dst_rack_bitmaps;
    }

abbrev occupy_racks : ℕ → ℕ → ℕ → BatchState → BatchState
occupy_racks src dst timeslot state =
    let state' = occupy_src_rack src timeslot state in
    if dst == out_of_boundary_node_id then state' else occupy_dst_rack dst timeslot state'

-- `out_of_boundary_counts[timeslot] += (is_out_of_boundary & is_set)`, on 16 bits
abbrev pub new_count : BatchState → ℕ → ℕ → ℕ → ℕ
new_count state dst timeslot set_bitmask =
    let is_out_of_boundary = neg_bool (dst == out_of_boundary_node_id) in
    let is_set = neg_bool (not (set_bitmask == 0)) in
    (get_or state.out_of_boundary_counts timeslot 0 + bit_and is_out_of_boundary is_set) % 2 ^ 16

abbrev pub flip_mask : ℕ → ℕ → ℕ
flip_mask dst count = bit_or (neg_bool (dst == out_of_boundary_node_id)) (neg_bool (count == 0))

abbrev occupy_endnodes : BatchState → ℕ → ℕ → ℕ → ℕ → BatchState
occupy_endnodes state src dst timeslot set_bitmask =
    let count = new_count state dst timeslot set_bitmask in
    record state {
      src_endnodes =
          set state.src_endnodes src (bit_xor (get_or state.src_endnodes src 0) set_bitmask);
      out_of_boundary_counts = set state.out_of_boundary_counts timeslot count;
      dst_endnodes =
          set state.dst_endnodes dst
            (bit_xor (get_or state.dst_endnodes dst 0) (bit_and set_bitmask (flip_mask dst count)));
    }

unfoldable pub set_occupied_conditional : BatchState → ℕ → ℕ → ℕ → ℕ → BatchState
set_occupied_conditional state src dst timeslot set_bitmask =
    let state' = occupy_endnodes state src dst timeslot set_bitmask in
    if supports_oversubscription && state'.oversubscribed && not (set_bitmask == 0)
    then occupy_racks src dst timeslot state'
    else state'

-- `allowed_mask <<= 1; allowed_mask &= (1ULL << BATCH_SIZE) - 1`
unfoldable pub disallow_lsb_timeslot : BatchState → BatchState
disallow_lsb_timeslot state = record state {
  allowed_mask = bit_and (state.allowed_mask * 2 % 2 ^ 64) (2 ^ batch_size - 1);
}
