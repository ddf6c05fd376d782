-- ===== src/Alloc/Core/Once.antt =====
-- No timeslot admits a source twice: the sources that a timeslot admits are exactly kept out of it.
use fastpass.Base.{
  ℕ, ◌+◌, ◌^◌, ◌≤◌, ◌<◌, bit_and, Bool, true, not, ◌&&◌, List, [], ◌∷◌, length, get_or, ◌==◌,
  if◌then◌else◌, ◌≡◌, ◌≢◌, ◌∙◌, ap, arith, length-set, get_or-set_self, get_or-set_ne, ℕ_discrete,
  subst, sym, dec_lt,
}
use mathlib.Core.Bool.{true≢false}
use fastpass.Base.Bits.{bit_past, bit_and-mask_of_lt}
use fastpass.Base.Bits.Scan.{lowest, bit-lowest, bit_and-neg}
use fastpass.Alloc.Batch.{BatchState, get_avail_bitmap}
use fastpass.Alloc.Batch.Avail.{
  IsValid, src_free, dst_free, is_free, takes_dst, is_free_lem, avail-lt, src_free-after,
  dst_free-after, set_occupied-IsValid,
}
use fastpass.Alloc.Bins.{AdmittedEdge, insert_admitted_edge}
use fastpass.Alloc.Core.{Core, batch_timeslot_of, set_bit_of, admit, admitted_at}

-- The number of edges of a source, and of a destination.
abbrev pub count_src : ℕ → List AdmittedEdge → ℕ
count_src a [] = 0
count_src a (e ∷ es) = (if a == e.src then 1 else 0) + count_src a es

abbrev pub count_dst : ℕ → List AdmittedEdge → ℕ
count_dst b [] = 0
count_dst b (e ∷ es) = (if b == e.dst then 1 else 0) + count_dst b es

count_src-insert :
    (a src dst : ℕ) (es : List AdmittedEdge)
    → count_src a (insert_admitted_edge es src dst) ≡ count_src a es + (if a == src then 1 else 0)
count_src-insert a src dst [] = ground arith
count_src-insert a src dst (e ∷ es) = ground (arith, count_src-insert a src dst es)

pub count_dst-insert :
    (b src dst : ℕ) (es : List AdmittedEdge)
    → count_dst b (insert_admitted_edge es src dst) ≡ count_dst b es + (if b == dst then 1 else 0)
count_dst-insert b src dst [] = ground arith
count_dst-insert b src dst (e ∷ es) = ground (arith, count_dst-insert b src dst es)

abbrev one_if : Bool → ℕ
one_if b = if b then 1 else 0

-- The words of the batch have their sizes, and in each timeslot a source is admitted at most
-- once, and not at all while the timeslot is free for it.
pub record SrcOnce (s : BatchState) (admitted : List (List AdmittedEdge)) : Type 0 where
  pub valid : IsValid s
  pub slots : length admitted ≡ 16
  pub once : (a t : ℕ) → t < 16 → count_src a (get_or admitted t []) + one_if (src_free s a t) ≤ 1

-- The timeslot that is picked is one of the batch and free, and `set_bit` is its bit.
pub record Picked (s : BatchState) (src dst : ℕ) : Type 0 where
  pub in_batch : batch_timeslot_of (get_avail_bitmap s src dst) < 16
  pub free : is_free s src dst (batch_timeslot_of (get_avail_bitmap s src dst)) ≡ true
  pub earliest :
      batch_timeslot_of (get_avail_bitmap s src dst) ≡ lowest 64 (get_avail_bitmap s src dst)
  pub its_bit :
      set_bit_of (get_avail_bitmap s src dst) ≡ 2 ^ batch_timeslot_of (get_avail_bitmap s src dst)

lowest_small : (x : ℕ) → x ≢ 0 → x < 2 ^ 16 → lowest 64 x < 16
lowest_small x ne h = elim (dec_lt (lowest 64 x) 16) [
  | yes p ↦ p
  | no p ↦ absurd (
      true≢false
        (sym (bit-lowest 64 x ne (omega arith)) ∙ bit_past 16 x (lowest 64 x) h (omega arith)))
]

module _ (x : ℕ) (ne : x ≢ 0) (fits : x < 2 ^ 16) where
  wide : x < 2 ^ 64
  wide = omega arith

  pick_earliest : batch_timeslot_of x ≡ lowest 64 x
  pick_earliest = bit_and-mask_of_lt 4 (lowest 64 x) (lowest_small x ne fits)

  pick_its_bit : set_bit_of x ≡ 2 ^ lowest 64 x
  pick_its_bit = ap (bit_and x) (omega arith) ∙ bit_and-neg 64 x ne wide

pub pick :
    {s : BatchState} (src dst : ℕ) → IsValid s → get_avail_bitmap s src dst ≢ 0 → Picked s src dst
pick {s} src dst v ne =
    let x = get_avail_bitmap s src dst in
    let fits = avail-lt src dst v in
    let e = pick_earliest x ne fits in
    record {
      in_batch = rw e (lowest_small x ne fits);
      free = rw e (bit-lowest 64 x ne (wide x ne fits));
      earliest = e;
      its_bit = rw e (pick_its_bit x ne fits);
    }

-- The timeslot and the bit that `try_allocation` uses for a pair.
abbrev pub timeslot : Core → ℕ → ℕ → ℕ
timeslot core src dst = batch_timeslot_of (get_avail_bitmap core.batch_state src dst)

abbrev pub admitting : Core → ℕ → ℕ → Core
admitting core src dst =
    admit src dst (timeslot core src dst) (set_bit_of (get_avail_bitmap core.batch_state src dst))
      core

module _ (core : Core) (src dst : ℕ) (o : SrcOnce core.batch_state core.admitted) (hs : src < 256)
    (hd : dst < 256) (p : Picked core.batch_state src dst) where
  abbrev here : ℕ
  here = timeslot core src dst

  abbrev after : Core
  after = admitting core src dst

  pub admitted_same :
      get_or after.admitted here [] ≡ insert_admitted_edge (admitted_at core here) src dst
  admitted_same =
      get_or-set_self core.admitted here (insert_admitted_edge (admitted_at core here) src dst) []
        (omega (arith, p.in_batch, o.slots))

  pub admitted_other : (t : ℕ) → here ≢ t → get_or after.admitted t [] ≡ get_or core.admitted t []
  admitted_other t ne =
      get_or-set_ne core.admitted here t (insert_admitted_edge (admitted_at core here) src dst) []
        ne

  pub src_free_admit :
      (a t : ℕ)
      → src_free after.batch_state a t
        ≡ (src_free core.batch_state a t && not ((t == here) && (a == src)))
  src_free_admit a t =
      rw p.its_bit
        (src_free-after core.batch_state src dst here o.valid hs hd p.in_batch p.free a t)

  pub dst_free_admit :
      (b t : ℕ)
      → dst_free after.batch_state b t ≡ (
          dst_free core.batch_state b t
          && not ((t == here) && ((b == dst) && takes_dst core.batch_state dst here)))
  dst_free_admit b t =
      rw p.its_bit
        (dst_free-after core.batch_state src dst here o.valid hs hd p.in_batch p.free b t)

  once_here :
      (a : ℕ)
      → count_src a (get_or after.admitted here []) + one_if (src_free after.batch_state a here) ≤ 1
  once_here a = rw admitted_same (
      ground (
        arith,
        count_src-insert a src dst (admitted_at core here),
        src_free_admit a here,
        o.once a here p.in_batch,
        o.once src here p.in_batch,
        is_free_lem core.batch_state src dst here,
        p.free,
      ))

  pub admit-SrcOnce : SrcOnce after.batch_state after.admitted
  admit-SrcOnce = record {
    valid =
        rw p.its_bit (set_occupied-IsValid core.batch_state src dst here o.valid hs hd p.in_batch);
    slots =
        length-set core.admitted here (insert_admitted_edge (admitted_at core here) src dst)
        ∙ o.slots;
    once = λ a t h. elim (ℕ_discrete here t) [
      | yes e ↦
          subst
            (λ x.
              count_src a (get_or after.admitted x []) + one_if (src_free after.batch_state a x)
              ≤ 1)
            e (once_here a)
      | no ne ↦ ground (arith, admitted_other t ne, src_free_admit a t, o.once a t h)
    ];
  }
