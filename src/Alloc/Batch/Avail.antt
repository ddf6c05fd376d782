-- ===== src/Alloc/Batch/Avail.antt =====
-- What `batch_state_set_occupied_conditional` and `batch_state_disallow_lsb_timeslot` do to the
-- free timeslots of every pair.
use fastpass.Base.{
  ℕ, zero, suc, ◌+◌, ◌-◌, ◌*◌, ◌%◌, ◌^◌, ◌<◌, bit_and, bit_xor, Bool, true, false, not, ◌&&◌, ◌||◌,
  List, length, get_or, set, ◌==◌, ◌≡◌, refl, ◌∙◌, ap, arith, length-set, get_or-set_self,
  get_or-set_ne, get_or-set_all, ltb, ◌≢◌, ℕ_discrete,
}
use mathlib.Core.Bool.{xor}
use native.Mathlib.Nat.{pow-le-pow_right}
use fastpass.Base.Bits.{
  bit, bit-bit_and, bit-bit_or, bit-bit_xor, bit-pow, bit-mask, bit-zero, bit_and-lt,
  bit_and-lt_right, bit_xor-lt, bit-shl, bit-mod, bit-shl_below,
}
use fastpass.Alloc.Batch.{
  BatchState, get_avail_bitmap, fill, batch_state_init, set_occupied_conditional,
  disallow_lsb_timeslot, all_ones, neg_bool, new_count, flip_mask, out_of_boundary_node_id,
  batch_size,
}

-- The arrays have their declared sizes, and their words 64 bits.
pub record IsValid (s : BatchState) : Type 0 where
  pub srcs : length s.src_endnodes ≡ 256
  pub dsts : length s.dst_endnodes ≡ 256
  pub counts : length s.out_of_boundary_counts ≡ 16
  pub mask_fits : s.allowed_mask < 2 ^ 16
  pub src_fits : (i : ℕ) → get_or s.src_endnodes i 0 < 2 ^ 64
  pub dst_fits : (i : ℕ) → get_or s.dst_endnodes i 0 < 2 ^ 64

-- Whether timeslot `i` is free for source `src`, for destination `dst`, and for the pair.
abbrev pub src_free : BatchState → ℕ → ℕ → Bool
src_free s src i = bit (get_or s.src_endnodes src 0) i

abbrev pub dst_free : BatchState → ℕ → ℕ → Bool
dst_free s dst i = bit (get_or s.dst_endnodes dst 0) i

abbrev pub is_free : BatchState → ℕ → ℕ → ℕ → Bool
is_free s src dst i = bit (get_avail_bitmap s src dst) i

pub is_free_lem :
    (s : BatchState) (src dst i : ℕ)
    → is_free s src dst i ≡ ((bit s.allowed_mask i && src_free s src i) && dst_free s dst i)
unfolding get_avail_bitmap
is_free_lem s src dst i =
    bit-bit_and (bit_and s.allowed_mask (get_or s.src_endnodes src 0)) (get_or s.dst_endnodes dst 0)
      i
    ∙ ap (λ b. b && dst_free s dst i) (bit-bit_and s.allowed_mask (get_or s.src_endnodes src 0) i)

pub avail-lt : {s : BatchState} (src dst : ℕ) → IsValid s → get_avail_bitmap s src dst < 2 ^ 16
unfolding get_avail_bitmap
avail-lt {s} src dst v =
    bit_and-lt 16 (bit_and s.allowed_mask (get_or s.src_endnodes src 0))
      (get_or s.dst_endnodes dst 0)
      (bit_and-lt 16 s.allowed_mask (get_or s.src_endnodes src 0) v.mask_fits)

bit-all_ones : (i : ℕ) → i < 64 → bit all_ones i ≡ true
bit-all_ones i h = bit-mask 64 i ∙ ground arith

get_or-set-lt :
    (xs : List ℕ) (i j x : ℕ)
    → x < 2 ^ 64
    → ((k : ℕ) → get_or xs k 0 < 2 ^ 64)
    → get_or (set xs i x) j 0 < 2 ^ 64
get_or-set-lt xs i j x h f = get_or-set_all (λ y. y < 2 ^ 64) xs i j x 0 h f

-- Whether `set_occupied_conditional` takes the timeslot from the destination.
abbrev pub takes_dst : BatchState → ℕ → ℕ → Bool
takes_dst s dst t = (dst == out_of_boundary_node_id) || (new_count s dst t (2 ^ t) == 0)

module _ (s : BatchState) (src dst t : ℕ) (v : IsValid s) (hs : src < 256) (hd : dst < 256)
    (ht : t < 16) where
  abbrev after : BatchState
  after = set_occupied_conditional s src dst t (2 ^ t)

  abbrev taken : ℕ
  taken = bit_and (2 ^ t) (flip_mask dst (new_count s dst t (2 ^ t)))

  abbrev new_src : ℕ
  new_src = bit_xor (get_or s.src_endnodes src 0) (2 ^ t)

  abbrev new_dst : ℕ
  new_dst = bit_xor (get_or s.dst_endnodes dst 0) taken

  src_free_same : (i : ℕ) → src_free after src i ≡ xor (src_free s src i) (i == t)
  unfolding set_occupied_conditional
  src_free_same i =
      ap (λ w. bit w i) (get_or-set_self s.src_endnodes src new_src 0 (omega (arith, v.srcs)))
      ∙ bit-bit_xor (get_or s.src_endnodes src 0) (2 ^ t) i
      ∙ ap (xor (src_free s src i)) (bit-pow t i)

  src_free_other : (a i : ℕ) → src ≢ a → src_free after a i ≡ src_free s a i
  unfolding set_occupied_conditional
  src_free_other a i ne = ap (λ w. bit w i) (get_or-set_ne s.src_endnodes src a new_src 0 ne)

  bit-flip_mask :
      (i : ℕ) → i < 64 → bit (flip_mask dst (new_count s dst t (2 ^ t))) i ≡ takes_dst s dst t
  bit-flip_mask i h =
      bit-bit_or (neg_bool (dst == out_of_boundary_node_id))
        (neg_bool (new_count s dst t (2 ^ t) == 0)) i
      ∙ ground (arith, bit-all_ones i h, bit-zero i)

  bit-taken : (i : ℕ) → bit taken i ≡ ((i == t) && takes_dst s dst t)
  bit-taken i =
      bit-bit_and (2 ^ t) (flip_mask dst (new_count s dst t (2 ^ t))) i
      ∙ ground (arith, bit-pow t i, bit-flip_mask i)

  dst_free_same :
      (i : ℕ) → dst_free after dst i ≡ xor (dst_free s dst i) ((i == t) && takes_dst s dst t)
  unfolding set_occupied_conditional
  dst_free_same i =
      ap (λ w. bit w i) (get_or-set_self s.dst_endnodes dst new_dst 0 (omega (arith, v.dsts)))
      ∙ bit-bit_xor (get_or s.dst_endnodes dst 0) taken i
      ∙ ap (xor (dst_free s dst i)) (bit-taken i)

  dst_free_other : (b i : ℕ) → dst ≢ b → dst_free after b i ≡ dst_free s b i
  unfolding set_occupied_conditional
  dst_free_other b i ne = ap (λ w. bit w i) (get_or-set_ne s.dst_endnodes dst b new_dst 0 ne)

  same_mask : after.allowed_mask ≡ s.allowed_mask
  unfolding set_occupied_conditional
  same_mask = refl

  -- A timeslot that was free for the pair is taken from the source.
  pub src_free-after :
      is_free s src dst t ≡ true
      → (a i : ℕ) → src_free after a i ≡ (src_free s a i && not ((i == t) && (a == src)))
  unfolding xor
  src_free-after free a i = elim (ℕ_discrete src a) [
    | yes e ↦ ground (
      arith,
      is_free_lem s src dst t,
      src_free_same i,
      ap (λ x. src_free after x i) e,
      ap (λ x. src_free s x i) e,
      ap (src_free s src) {x = i} {y = t},
    )
    | no ne ↦ ground (arith, src_free_other a i ne)
  ]

  pub dst_free-after :
      is_free s src dst t ≡ true
      → (b i : ℕ)
      → dst_free after b i ≡ (dst_free s b i && not ((i == t) && ((b == dst) && takes_dst s dst t)))
  unfolding xor
  dst_free-after free b i = elim (ℕ_discrete dst b) [
    | yes e ↦ ground (
      arith,
      is_free_lem s src dst t,
      dst_free_same i,
      ap (λ x. dst_free after x i) e,
      ap (λ x. dst_free s x i) e,
      ap (dst_free s dst) {x = i} {y = t},
    )
    | no ne ↦ ground (arith, dst_free_other b i ne)
  ]

  -- After a timeslot that was free for a pair is occupied for it, a pair is free in a timeslot
  -- exactly if it was so before, unless it is that timeslot and the pair has the same source, or
  -- has the same destination and that is taken too: if the destination is the outside of the
  -- boundary, or the timeslot's boundary count is then 0.
  pub is_free-set_occupied :
      is_free s src dst t ≡ true
      → (a b i : ℕ)
      → is_free after a b i
        ≡ (is_free s a b i && not ((i == t) && ((a == src) || ((b == dst) && takes_dst s dst t))))
  is_free-set_occupied free a b i =
      is_free_lem after a b i
      ∙ ground (
        arith,
        is_free_lem s a b i,
        src_free-after free a i,
        dst_free-after free b i,
        ap (λ m. bit m i) same_mask,
      )

  pub set_occupied-IsValid : IsValid after
  unfolding set_occupied_conditional
  set_occupied-IsValid = record {
    srcs = length-set s.src_endnodes src new_src ∙ v.srcs;
    dsts = length-set s.dst_endnodes dst new_dst ∙ v.dsts;
    counts = length-set s.out_of_boundary_counts t (new_count s dst t (2 ^ t)) ∙ v.counts;
    mask_fits = v.mask_fits;
    src_fits = λ j.
        get_or-set-lt s.src_endnodes src j new_src
          (bit_xor-lt 64 (get_or s.src_endnodes src 0) (2 ^ t) (v.src_fits src) pow_fits)
          v.src_fits;
    dst_fits = λ j.
        get_or-set-lt s.dst_endnodes dst j new_dst
          (bit_xor-lt 64 (get_or s.dst_endnodes dst 0) taken (v.dst_fits dst)
            (bit_and-lt 64 (2 ^ t) (flip_mask dst (new_count s dst t (2 ^ t))) pow_fits))
          v.dst_fits;
  }
    where
      pow_fits : 2 ^ t < 2 ^ 64
      pow_fits =
          omega (arith, pow-le-pow_right {n = 2} (omega arith) {i = t} {j = 15} (omega arith))

-- Disallowing the earliest timeslot shifts the mask: what was allowed one timeslot earlier is
-- allowed now, and the lowest timeslot is not.
pub bit-disallow_lsb :
    (s : BatchState) (i : ℕ)
    → i < 16
    → (bit (disallow_lsb_timeslot s).allowed_mask 0 ≡ false)
      × (bit (disallow_lsb_timeslot s).allowed_mask (suc i)
          ≡ (bit s.allowed_mask i && ltb (suc i) 16))
unfolding disallow_lsb_timeslot
bit-disallow_lsb s i h = (
  bit-bit_and (s.allowed_mask * 2 % 2 ^ 64) (2 ^ batch_size - 1) 0
      ∙ ground (arith, bit-mod 64 (s.allowed_mask * 2) 0, bit-shl_below 1 s.allowed_mask 0),
  bit-bit_and (s.allowed_mask * 2 % 2 ^ 64) (2 ^ batch_size - 1) (suc i)
      ∙ ground (
        arith,
        bit-mod 64 (s.allowed_mask * 2) (suc i),
        bit-shl 1 s.allowed_mask i,
        ap (bit (s.allowed_mask * 2)) {x = 1 + i} {y = suc i} (omega arith),
        bit-mask 16 (suc i),
      ),
)

pub disallow-IsValid : (s : BatchState) → IsValid s → IsValid (disallow_lsb_timeslot s)
unfolding disallow_lsb_timeslot
disallow-IsValid s v = record {
  srcs = v.srcs;
  dsts = v.dsts;
  counts = v.counts;
  mask_fits = bit_and-lt_right 16 (s.allowed_mask * 2 % 2 ^ 64) (2 ^ batch_size - 1) (omega arith);
  src_fits = v.src_fits;
  dst_fits = v.dst_fits;
}

pub disallow-src : (s : BatchState) → (disallow_lsb_timeslot s).src_endnodes ≡ s.src_endnodes
unfolding disallow_lsb_timeslot
disallow-src s = refl

length-fill : (n v : ℕ) (arr : List ℕ) → length (fill n v arr) ≡ length arr
length-fill zero v arr = refl
length-fill (suc n) v arr = length-set (fill n v arr) n v ∙ length-fill n v arr

fill-lt :
    (n v : ℕ) (arr : List ℕ)
    → v < 2 ^ 64
    → ((i : ℕ) → get_or arr i 0 < 2 ^ 64)
    → (i : ℕ) → get_or (fill n v arr) i 0 < 2 ^ 64
fill-lt zero v arr h f i = f i
fill-lt (suc n) v arr h f i = get_or-set-lt (fill n v arr) n i v h (fill-lt n v arr h f)

-- `batch_state_init` keeps the sizes of the arrays and of their words.
pub init-IsValid :
    (s : BatchState) (over : Bool) (rack_capacity capacity nodes : ℕ)
    → IsValid s
    → IsValid (batch_state_init s over rack_capacity capacity nodes)
unfolding batch_state_init
init-IsValid s over rack_capacity capacity nodes v = record {
  srcs = length-fill nodes all_ones s.src_endnodes ∙ v.srcs;
  dsts =
      length-set (fill nodes all_ones s.dst_endnodes) out_of_boundary_node_id all_ones
      ∙ length-fill nodes all_ones s.dst_endnodes
      ∙ v.dsts;
  counts = length-fill 16 capacity s.out_of_boundary_counts ∙ v.counts;
  mask_fits = omega arith;
  src_fits = fill-lt nodes all_ones s.src_endnodes (omega arith) v.src_fits;
  dst_fits = λ i.
      get_or-set-lt (fill nodes all_ones s.dst_endnodes) out_of_boundary_node_id i all_ones
        (omega arith) (fill-lt nodes all_ones s.dst_endnodes (omega arith) v.dst_fits);
}
