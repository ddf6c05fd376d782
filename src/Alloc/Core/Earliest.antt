-- ===== src/Alloc/Core/Earliest.antt =====
-- What `try_allocation` does to the lists of admitted pairs, and when a destination is given the
-- same timeslot twice.
use fastpass.Base.{
  ℕ, ◌+◌, ◌-◌, ◌%◌, ◌^◌, ◌<◌, true, false, not, [], get_or, ◌==◌, ◌≡◌, ◌≢◌, refl, sym, ap, ◌∙◌,
  arith, subst,
}
use fastpass.Base.Bits.{bit_ext, zero-bit_and}
use fastpass.Base.Bits.Scan.{bit_below-lowest}
use fastpass.Alloc.Batch.{get_avail_bitmap, set_occupied_conditional, neg_bool}
use fastpass.Alloc.Batch.Avail.{is_free, is_free_lem, takes_dst, avail-lt, is_free-set_occupied}
use fastpass.Alloc.Bins.{insert_admitted_edge}
use fastpass.Alloc.Core.{
  Core, admitted_at, batch_timeslot_of, try_allocation, store_rest, core_enqueue_to_q_spent,
}
use fastpass.Alloc.Core.Once.{
  SrcOnce, Picked, pick, timeslot, admitting, admitted_same, admitted_other, admit-SrcOnce,
  src_free_admit, count_dst, count_dst-insert,
}

-- Storing what is left of a flow leaves the batch and the admitted pairs alone.
store_rest-same :
    (src dst backlog metric t : ℕ) (core : Core)
    → ((store_rest src dst backlog metric t core).batch_state ≡ core.batch_state)
      × ((store_rest src dst backlog metric t core).admitted ≡ core.admitted)
unfolding core_enqueue_to_q_spent
store_rest-same src dst backlog metric t core = ground arith

-- A flow with a free timeslot is handled, and its pair is put in the earliest one.
allocated :
    (src dst backlog metric : ℕ) (core : Core)
    → get_avail_bitmap core.batch_state src dst ≢ 0
    → ((try_allocation src dst backlog metric core).0 ≡ false)
      × ((try_allocation src dst backlog metric core).1.batch_state
          ≡ (admitting core src dst).batch_state)
      × ((try_allocation src dst backlog metric core).1.admitted
          ≡ (admitting core src dst).admitted)
unfolding try_allocation
allocated src dst backlog metric core ne =
    let e : (get_avail_bitmap core.batch_state src dst == 0) ≡ false = ground arith in
    let (b, a) =
      store_rest-same src dst ((backlog % 2 ^ 16 + 2 ^ 16 - 1) % 2 ^ 16)
        ((core.current_timeslot + timeslot core src dst) % 2 ^ 32) (timeslot core src dst)
        (admitting core src dst) in
    rw e (refl, b, a)

-- A flow with no free timeslot is left to the caller, and nothing changes.
pub try_allocation_full :
    (src dst backlog metric : ℕ) (core : Core)
    → get_avail_bitmap core.batch_state src dst ≡ 0
    → try_allocation src dst backlog metric core ≡ (true, core)
unfolding try_allocation
try_allocation_full src dst backlog metric core e = rw e

-- A flow between nodes that has a free timeslot is handled: the pair is appended to the list of
-- the earliest timeslot that is free for it, the lists of the other timeslots stay, and that
-- timeslot is no longer free for the source.
pub try_allocation_earliest :
    (src dst backlog metric : ℕ) (core : Core)
    → SrcOnce core.batch_state core.admitted
    → src < 256
    → dst < 256
    → get_avail_bitmap core.batch_state src dst ≢ 0
    → let (rc, core') = try_allocation src dst backlog metric core in
      let t = timeslot core src dst in
      (rc ≡ false)
      × (is_free core.batch_state src dst t ≡ true)
      × ((j : ℕ) → j < t → is_free core.batch_state src dst j ≡ false)
      × (admitted_at core' t ≡ insert_admitted_edge (admitted_at core t) src dst)
      × ((u : ℕ) → t ≢ u → admitted_at core' u ≡ admitted_at core u)
      × ((b : ℕ) → is_free core'.batch_state src b t ≡ false)
try_allocation_earliest src dst backlog metric core o hs hd ne =
    let (handled, batch, adm) = allocated src dst backlog metric core ne in
    let p = pick src dst o.valid ne in
    let t = timeslot core src dst in
    (
      handled,
      p.free,
      λ j h.
          bit_below-lowest 64 (get_avail_bitmap core.batch_state src dst) j
            (omega (arith, p.earliest)),
      ap (λ l. get_or l t []) adm ∙ admitted_same core src dst o hs hd p,
      λ u q. ap (λ l. get_or l u []) adm ∙ admitted_other core src dst o hs hd p u q,
      λ b.
          ap (λ s. is_free s src b t) batch
          ∙ ground (
            arith,
            is_free_lem (admitting core src dst).batch_state src b t,
            src_free_admit core src dst o hs hd p src t,
          ),
    )

module _ (core : Core) (src src' dst : ℕ) (o : SrcOnce core.batch_state core.admitted)
    (hs : src < 256) (hs' : src' < 256) (hd : dst < 255) (other : src' ≢ src)
    (p : Picked core.batch_state src dst)
    (room : get_or core.batch_state.out_of_boundary_counts (timeslot core src dst) 0 % 2 ^ 16
      ≢ 0) where
  abbrev after : Core
  after = admitting core src dst

  dst_not_taken : takes_dst core.batch_state dst (timeslot core src dst) ≡ false
  dst_not_taken =
      let t = timeslot core src dst in ground (arith, zero-bit_and (neg_bool (not (2 ^ t == 0))))

  same_free : (i : ℕ) → is_free after.batch_state src' dst i ≡ is_free core.batch_state src' dst i
  same_free i =
      ap
        (λ w.
          is_free (set_occupied_conditional core.batch_state src dst (timeslot core src dst) w) src'
            dst i)
        p.its_bit
      ∙ is_free-set_occupied core.batch_state src dst (timeslot core src dst) o.valid hs
          (omega arith) p.in_batch p.free src' dst i
      ∙ ground (arith, dst_not_taken)

  same_avail :
      get_avail_bitmap after.batch_state src' dst ≡ get_avail_bitmap core.batch_state src' dst
  same_avail =
      let o' = admit-SrcOnce core src dst o hs (omega arith) p in
      bit_ext 16 _ _ (avail-lt src' dst o'.valid) (avail-lt src' dst o.valid) (λ i _. same_free i)

-- A destination inside the boundary is not taken while the boundary count of the timeslot is not
-- 0: if another source has the same earliest timeslot for it, two calls in a row put both sources
-- in the same timeslot for the one destination.
pub destination_booked_twice :
    (core : Core) (src src' dst backlog backlog' metric metric' : ℕ)
    → SrcOnce core.batch_state core.admitted
    → src < 256
    → src' < 256
    → dst < 255
    → src' ≢ src
    → get_avail_bitmap core.batch_state src dst ≢ 0
    → get_avail_bitmap core.batch_state src' dst ≢ 0
    → timeslot core src' dst ≡ timeslot core src dst
    → get_or core.batch_state.out_of_boundary_counts (timeslot core src dst) 0 % 2 ^ 16 ≢ 0
    → let (_, core1) = try_allocation src dst backlog metric core in
      let (_, core2) = try_allocation src' dst backlog' metric' core1 in
      count_dst dst (admitted_at core2 (timeslot core src dst))
      ≡ count_dst dst (admitted_at core (timeslot core src dst)) + 2
destination_booked_twice core src src' dst backlog backlog' metric metric' o hs hs' hd other ne ne'
      e room =
    let p = pick src dst o.valid ne in
    let t = timeslot core src dst in
    let core1 = (try_allocation src dst backlog metric core).1 in
    let core2 = (try_allocation src' dst backlog' metric' core1).1 in
    let (_, batch, adm) = allocated src dst backlog metric core ne in
    let o1 : SrcOnce core1.batch_state core1.admitted =
      rw (batch, adm) (admit-SrcOnce core src dst o hs (omega arith) p) in
    let avail : get_avail_bitmap core1.batch_state src' dst
        ≡ get_avail_bitmap core.batch_state src' dst =
      ap (λ s. get_avail_bitmap s src' dst) batch
      ∙ same_avail core src src' dst o hs hs' hd other p room in
    let t' : timeslot core1 src' dst ≡ t = ap batch_timeslot_of avail ∙ e in
    let first = try_allocation_earliest src dst backlog metric core o hs (omega arith) ne in
    let second =
      try_allocation_earliest src' dst backlog' metric' core1 o1 hs' (omega arith)
        (λ z. ne' (sym avail ∙ z)) in
    let last : admitted_at core2 t ≡ insert_admitted_edge (admitted_at core1 t) src' dst =
      subst (λ u. admitted_at core2 u ≡ insert_admitted_edge (admitted_at core1 u) src' dst) t'
        second.3 in
    ap (count_dst dst) last
    ∙ count_dst-insert dst src' dst (admitted_at core1 t)
    ∙ ground (arith, ap (count_dst dst) first.3, count_dst-insert dst src dst (admitted_at core t))
