-- ===== src/Alloc/Core/Runs.antt =====
-- The invariant of a core through the loops of admissible_traffic.c.
use fastpass.Base.{
  ℕ, zero, suc, ◌+◌, ◌-◌, ◌%◌, ◌^◌, ◌<◌, bit_and, false, List, [], ◌∷◌, ◌++◌, get_or, set, ◌==◌,
  ◌≡◌, ◌≢◌, refl, arith, Bool-cases, inl, inr, get_or-set_all, get_or-append_all, ℕ_discrete,
}
use fastpass.Alloc.Batch.{get_avail_bitmap}
use fastpass.Alloc.Bins.{BacklogEdge, Bin, bin_get, no_edge, enqueue_bin}
use fastpass.Alloc.Core.{
  Core, bin_at, put_in_bin, try_allocation, try_edge, store_rest, core_enqueue_to_q_out,
  core_enqueue_to_q_spent, core_enqueue_to_q_out_edge, incoming_bin_to_core, move_bin_to_q_out,
  try_allocation_bin_from, try_allocation_bin, process_lowest_bin, try_allocation_core_loop,
  try_allocation_core, core_flush_q_out, core_flush_q_spent,
}
use fastpass.Alloc.Core.Once.{SrcOnce, pick, admit-SrcOnce, timeslot, admitting}

abbrev pub InRange : BacklogEdge → Type 0
InRange e = (e.src < 256) × (e.dst < 256)

abbrev pub BinInRange : Bin → Type 0
BinInRange bin = (i : ℕ) → InRange (bin_get bin i)

-- What a core keeps: no source twice in a timeslot, and only node ids in its bins.
pub record Inv (core : Core) : Type 0 where
  pub once : SrcOnce core.batch_state core.admitted
  pub ranged : (b : ℕ) → BinInRange (bin_at core b)

no_edge-InRange : InRange no_edge
no_edge-InRange = omega arith

pub empty-BinInRange : BinInRange []
empty-BinInRange i = no_edge-InRange

snoc-BinInRange :
    (bin : Bin) (e : BacklogEdge) → InRange e → BinInRange bin → BinInRange (bin ++ (e ∷ []))
snoc-BinInRange bin e h r i = get_or-append_all InRange bin i e no_edge h no_edge-InRange r

put-ranged :
    (bins : List Bin) (b : ℕ) (bin : Bin)
    → BinInRange bin
    → ((c : ℕ) → BinInRange (get_or bins c []))
    → (c : ℕ) → BinInRange (get_or (set bins b bin) c [])
put-ranged bins b bin h r c = get_or-set_all BinInRange bins b c bin [] h r

-- The operations that only queue a flow leave the batch, the admitted pairs and the bins alone.
record Same (core core' : Core) : Type 0 where
  batch : core'.batch_state ≡ core.batch_state
  adm : core'.admitted ≡ core.admitted
  bins : core'.new_request_bins ≡ core.new_request_bins

q_spent-Same :
    (src dst metric : ℕ) (core : Core) → Same core (core_enqueue_to_q_spent src dst metric core)
unfolding core_enqueue_to_q_spent
q_spent-Same src dst metric core = ground arith

q_out-Same :
    (src dst backlog metric : ℕ) (core : Core)
    → Same core (core_enqueue_to_q_out src dst backlog metric core)
unfolding core_enqueue_to_q_out
q_out-Same src dst backlog metric core = ground arith

q_out_edge-Same : (e : BacklogEdge) (core : Core) → Same core (core_enqueue_to_q_out_edge e core)
unfolding core_enqueue_to_q_out_edge
q_out_edge-Same e core = ground arith

Same-Inv : {core core' : Core} → Same core core' → Inv core → Inv core'
Same-Inv s v = record { once = rw (s.batch, s.adm) v.once; ranged = λ b. rw s.bins (v.ranged b) }

store_rest-Inv :
    (src dst backlog metric t : ℕ) (core : Core)
    → src < 256
    → dst < 256
    → Inv core
    → Inv (store_rest src dst backlog metric t core)
store_rest-Inv src dst backlog metric t core hs hd v = elim (Bool-cases (backlog == 0)) [
  | inl none_left ↦ rw none_left (Same-Inv (q_spent-Same src dst metric core) v)
  | inr more ↦ rw more (record {
    once = v.once;
    ranged =
        put-ranged core.new_request_bins (32 + t)
          (enqueue_bin (bin_at core (32 + t)) src dst backlog metric)
          (snoc-BinInRange (bin_at core (32 + t))
            (record { src = src; dst = dst; backlog = backlog % 2 ^ 16; metric = metric % 2 ^ 32 })
            (hs, hd) (v.ranged (32 + t)))
          v.ranged;
  })
]

pub try_allocation-Inv :
    (src dst backlog metric : ℕ) (core : Core)
    → src < 256
    → dst < 256
    → Inv core
    → Inv (try_allocation src dst backlog metric core).1
unfolding try_allocation
try_allocation-Inv src dst backlog metric core hs hd v =
    elim (ℕ_discrete (get_avail_bitmap core.batch_state src dst) 0) [
      | yes e ↦ rw e v
      | no ne ↦ rw (ne_test ne) (
          store_rest-Inv src dst ((backlog % 2 ^ 16 + 2 ^ 16 - 1) % 2 ^ 16)
            ((core.current_timeslot + timeslot core src dst) % 2 ^ 32) (timeslot core src dst)
            (admitting core src dst) hs hd
            (record {
              once = admit-SrcOnce core src dst v.once hs hd (pick src dst v.once.valid ne);
              ranged = v.ranged;
            }))
    ]
  where
    ne_test :
        get_avail_bitmap core.batch_state src dst ≢ 0
        → (get_avail_bitmap core.batch_state src dst == 0) ≡ false
    ne_test ne = ground arith

pub try_edge-Inv : (e : BacklogEdge) (core : Core) → InRange e → Inv core → Inv (try_edge e core)
unfolding try_edge
try_edge-Inv e core (hs, hd) v =
    let v' : Inv (try_allocation e.src e.dst e.backlog e.metric core).1 =
      try_allocation-Inv e.src e.dst e.backlog e.metric core hs hd v in
    elim (Bool-cases (try_allocation e.src e.dst e.backlog e.metric core).0) [
      | inl full ↦ rw full (
          Same-Inv
            (q_out-Same e.src e.dst e.backlog e.metric
              (try_allocation e.src e.dst e.backlog e.metric core).1)
            v')
      | inr done ↦ rw done v'
    ]

try_allocation_bin_from-Inv :
    (left i b : ℕ) (core : Core) → Inv core → Inv (try_allocation_bin_from left i b core)
unfolding try_allocation_bin_from
try_allocation_bin_from-Inv zero i b core v = v
try_allocation_bin_from-Inv (suc left) i b core v =
    try_allocation_bin_from-Inv left (i + 1) b (try_edge (bin_get (bin_at core b) i) core)
      (try_edge-Inv (bin_get (bin_at core b) i) core (v.ranged b i) v)

empty_bin-Inv : (b : ℕ) (core : Core) → Inv core → Inv (put_in_bin b [] core)
empty_bin-Inv b core v = record {
  once = v.once;
  ranged = put-ranged core.new_request_bins b [] empty-BinInRange v.ranged;
}

process_lowest_bin-Inv : (mask : ℕ) (core : Core) → Inv core → Inv (process_lowest_bin mask core)
unfolding process_lowest_bin try_allocation_bin
process_lowest_bin-Inv mask core v =
    empty_bin-Inv _ _
      (try_allocation_bin_from-Inv _ 0 _ _ (record { once = v.once; ranged = v.ranged }))

loop-Inv :
    (fuel allowed : ℕ) (core : Core) → Inv core → Inv (try_allocation_core_loop fuel allowed core)
unfolding try_allocation_core_loop
loop-Inv zero allowed core v = v
loop-Inv (suc fuel) allowed core v =
    let mask = bit_and core.non_empty_bins allowed in
    elim (Bool-cases (mask == 0)) [
      | inl done ↦ rw done v
      | inr more ↦ rw more (
          loop-Inv fuel allowed (process_lowest_bin mask core) (process_lowest_bin-Inv mask core v))
    ]

pub try_allocation_core-Inv :
    (fuel : ℕ) (core : Core) → Inv core → Inv (try_allocation_core fuel core)
unfolding try_allocation_core
try_allocation_core-Inv fuel core v = loop-Inv fuel core.allowed_bins core v

BinInRange-tail : (e : BacklogEdge) (bin : Bin) → BinInRange (e ∷ bin) → BinInRange bin
BinInRange-tail e bin r i = r (suc i)

pub incoming-kept :
    (bin : Bin) (core : Core)
    → ((incoming_bin_to_core bin core).batch_state ≡ core.batch_state)
      × ((incoming_bin_to_core bin core).admitted ≡ core.admitted)
unfolding incoming_bin_to_core
incoming-kept [] core = (refl, refl)
incoming-kept (e ∷ bin) core = incoming-kept bin _

pub incoming-ranged :
    (bin : Bin) (core : Core)
    → BinInRange bin
    → ((b : ℕ) → BinInRange (bin_at core b))
    → (b : ℕ) → BinInRange (bin_at (incoming_bin_to_core bin core) b)
unfolding incoming_bin_to_core
incoming-ranged [] core r v = v
incoming-ranged (e ∷ bin) core r v =
    incoming-ranged bin _ (BinInRange-tail e bin r)
      (put-ranged core.new_request_bins _ _ (snoc-BinInRange _ e (r 0) (v _)) v)

pub incoming_bin_to_core-Inv :
    (bin : Bin) (core : Core) → BinInRange bin → Inv core → Inv (incoming_bin_to_core bin core)
incoming_bin_to_core-Inv bin core r v =
    let (b, a) = incoming-kept bin core in
    record { once = rw (b, a) v.once; ranged = incoming-ranged bin core r v.ranged }

pub move_bin_to_q_out-Inv : (bin : Bin) (core : Core) → Inv core → Inv (move_bin_to_q_out bin core)
unfolding move_bin_to_q_out
move_bin_to_q_out-Inv [] core v = v
move_bin_to_q_out-Inv (e ∷ bin) core v =
    move_bin_to_q_out-Inv bin (core_enqueue_to_q_out_edge e core)
      (Same-Inv (q_out_edge-Same e core) v)

pub flush_q_out-Inv : (core : Core) → Inv core → Inv (core_flush_q_out core)
unfolding core_flush_q_out
flush_q_out-Inv core v = record { once = v.once; ranged = v.ranged }

pub flush_q_spent-Inv : (core : Core) → Inv core → Inv (core_flush_q_spent core)
unfolding core_flush_q_spent
flush_q_spent-Inv core v = record { once = v.once; ranged = v.ranged }
