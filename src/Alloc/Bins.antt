-- ===== src/Alloc/Bins.antt =====
-- src/graph-algo/bin.h and admitted.h: lists of backlogged flows, and of the pairs that a timeslot
-- admits. A `struct bin` or `struct admitted_traffic` is the list of its first `size` elements;
-- bin_index_from_timeslot of admissible_traffic.h says in which bin of a core a flow is put.
use fastpass.Base.{
  ℕ, ◌+◌, ◌-◌, ◌/◌, ◌%◌, ◌^◌, bit_and, bit_or, List, [], ◌∷◌, ◌++◌, get_or, leb, if◌then◌else◌,
}

abbrev pub num_bins : ℕ
num_bins = 32

abbrev pub batch_shift : ℕ
batch_shift = 4

abbrev pub small_bin_size : ℕ
small_bin_size = 32

pub record BacklogEdge : Type 0 where
  pub src : ℕ
  pub dst : ℕ
  pub backlog : ℕ
  pub metric : ℕ

abbrev pub Bin : Type 0
Bin = List BacklogEdge

abbrev pub init_bin : Bin
init_bin = []

-- The backlog is stored in 16 bits, the metric in 32.
abbrev pub enqueue_bin : Bin → ℕ → ℕ → ℕ → ℕ → Bin
enqueue_bin bin src dst backlog metric =
    bin
    ++ (record { src = src; dst = dst; backlog = backlog % 2 ^ 16; metric = metric % 2 ^ 32 } ∷ [])

abbrev pub enqueue_bin_edge : Bin → BacklogEdge → Bin
enqueue_bin_edge bin edge = bin ++ (edge ∷ [])

-- What a read past the last element of a bin gives in the model; it is never used.
abbrev pub no_edge : BacklogEdge
no_edge = record { src = 0; dst = 0; backlog = 0; metric = 0 }

abbrev pub bin_get : Bin → ℕ → BacklogEdge
bin_get bin i = get_or bin i no_edge

pub record AdmittedEdge : Type 0 where
  pub src : ℕ
  pub dst : ℕ

-- The assertion that the array of 256 edges has room is not modelled: the list has no bound.
abbrev pub insert_admitted_edge : List AdmittedEdge → ℕ → ℕ → List AdmittedEdge
insert_admitted_edge admitted src dst = admitted ++ (record { src = src; dst = dst } ∷ [])

-- `x >> k` and the casts to 16 bits of `bin_index_from_timeslot`; a shift by 64 or more is taken
-- as giving 0, and what it gives is not used.
abbrev group_of : ℕ → ℕ
group_of gap = gap / 2 ^ batch_shift % 2 ^ 16

-- `(~0UL << 5 | (gap & 15)) >> (1 + group_ind)`, cast to 16 bits
abbrev folded : ℕ → ℕ
folded gap = bit_or (2 ^ 64 - 2 ^ 5) (bit_and gap 15) / 2 ^ (1 + group_of gap) % 2 ^ 16

abbrev old_bin : ℕ → ℕ
old_bin gap =
    let large : ℕ = if leb batch_shift (group_of gap) then 1 else 0 in
    let bin_gap = bit_or (folded gap) (2 ^ 15 - large) in 16 - 1 - bit_and bin_gap 15

unfoldable pub bin_index_from_timeslot : ℕ → ℕ → ℕ
bin_index_from_timeslot last_allocated current_timeslot =
    let gap = ((current_timeslot + 16) % 2 ^ 32 + 2 ^ 32 - last_allocated % 2 ^ 32) % 2 ^ 32 in
    if leb gap num_bins then num_bins + 16 - 1 - gap else old_bin (gap - (num_bins + 1))
