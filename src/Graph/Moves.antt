-- ===== src/Graph/Moves.antt =====
-- split_edge and remove_edge_to_neighbor: which edges a graph has after one is taken from it.
use fastpass.Base.{
  ℕ, ◌-◌, ◌*◌, ◌%◌, ◌^◌, ◌<◌, bit_and, bit_or, Bool, true, false, not, ◌&&◌, ◌||◌, some, ltb, ◌==◌,
  ◌≡◌, ◌≢◌, ap, ap₂, ◌∙◌, arith, Bool-cases, inl, inr,
}
use fastpass.Base.Bits.{bit, bit_and-lt, bit_or-lt, pow-lt}
use fastpass.Base.Bits.Scan.{lowest, lowest-lt, bit-lowest}
use fastpass.Base.Bits.OneBit.{bit-clear, bit-set}
use fastpass.Graph.{
  GraphEdges, GraphStructure, set_bitmap, without_bit, with_bit, split_edge,
  remove_edge_to_neighbor,
}
use fastpass.Graph.Shape.{slot, other, other_index, TwoEnds, IsGraph}

-- The two ends of the edge between `i` at `u` and `j` at `v`.
abbrev pub at_ends : ℕ → ℕ → ℕ → ℕ → ℕ → ℕ → Bool
at_ends u i v j w k = (w == u) && (k == i) || (w == v) && (k == j)

abbrev pub cleared : GraphEdges → ℕ → ℕ → ℕ → ℕ → GraphEdges
cleared edges u i v j =
    set_bitmap (set_bitmap edges u (without_bit (edges.neighbor_bitmaps u) i)) v
      (without_bit (edges.neighbor_bitmaps v) j)

abbrev pub joined : GraphEdges → ℕ → ℕ → ℕ → ℕ → GraphEdges
joined edges u i v j =
    set_bitmap (set_bitmap edges u (with_bit (edges.neighbor_bitmaps u) i)) v
      (with_bit (edges.neighbor_bitmaps v) j)

slot_cong : (edges : GraphEdges) (v w i : ℕ) → (v == w) ≡ true → slot edges v i ≡ slot edges w i
slot_cong edges v w i h = ap (λ x. slot edges x i) (ground arith)

clear_at : (x i k : ℕ) → x < 2 ^ 64 → i < 64 → bit (without_bit x i) k ≡ (bit x k && not (k == i))
clear_at x i k f h =
    ap (λ y. bit (bit_and x (2 ^ 64 - 1 - 2 ^ y)) k) {x = i % 64} {y = i} (omega arith)
    ∙ bit-clear x i k f h

set_at : (x i k : ℕ) → i < 64 → bit (with_bit x i) k ≡ (bit x k || (k == i))
set_at x i k h =
    ap (λ y. bit (bit_or x (2 ^ y)) k) {x = i % 64} {y = i} (omega arith) ∙ bit-set x i k

module _ (edges : GraphEdges) (u i v j : ℕ) (ne : (v == u) ≡ false) (i_lt : i < 64) (j_lt : j < 64)
    (fits : (w : ℕ) → edges.neighbor_bitmaps w < 2 ^ 64) where
  pub slot-cleared :
      (w k : ℕ) → slot (cleared edges u i v j) w k ≡ (slot edges w k && not (at_ends u i v j w k))
  slot-cleared w k = ground (
    arith,
    clear_at (edges.neighbor_bitmaps u) i k (fits u) i_lt,
    clear_at (edges.neighbor_bitmaps v) j k (fits v) j_lt,
    slot_cong edges w u k,
    slot_cong edges w v k,
  )

  pub slot-joined :
      (w k : ℕ) → slot (joined edges u i v j) w k ≡ (slot edges w k || at_ends u i v j w k)
  slot-joined w k = ground (
    arith,
    set_at (edges.neighbor_bitmaps u) i k i_lt,
    set_at (edges.neighbor_bitmaps v) j k j_lt,
    slot_cong edges w u k,
    slot_cong edges w v k,
  )

  pub fits-cleared : (w : ℕ) → (cleared edges u i v j).neighbor_bitmaps w < 2 ^ 64
  fits-cleared w = ground (
    arith,
    fits w,
    bit_and-lt 64 (edges.neighbor_bitmaps u) (2 ^ 64 - 1 - 2 ^ (i % 64)) (fits u),
    bit_and-lt 64 (edges.neighbor_bitmaps v) (2 ^ 64 - 1 - 2 ^ (j % 64)) (fits v),
  )

  pub fits-joined : (w : ℕ) → (joined edges u i v j).neighbor_bitmaps w < 2 ^ 64
  fits-joined w = ground (
    arith,
    fits w,
    bit_or-lt 64 (edges.neighbor_bitmaps u) (2 ^ (i % 64)) (fits u)
        (pow-lt 64 (i % 64) (omega arith)),
    bit_or-lt 64 (edges.neighbor_bitmaps v) (2 ^ (j % 64)) (fits v)
        (pow-lt 64 (j % 64) (omega arith)),
  )

same_end :
    (structure : GraphStructure) (w k u i : ℕ)
    → (w == u && k == i) ≡ true
    → (other structure w k ≡ other structure u i)
      × (other_index structure w k ≡ other_index structure u i)
same_end structure w k u i h = (
  ap₂ (other structure) {x = w} {y = u} {u = k} {v = i} (ground arith) (ground arith),
  ap₂ (other_index structure) {x = w} {y = u} {u = k} {v = i} (ground arith) (ground arith),
)

-- The edges of a graph after the lowest edge of `u` is taken from it.
module _ (structure : GraphStructure) (edges : GraphEdges) (g : IsGraph structure edges) (u : ℕ)
    (lt : u < 2 * structure.n) (ne : edges.neighbor_bitmaps u ≢ 0) where
  abbrev pub low : ℕ
  low = lowest 64 (edges.neighbor_bitmaps u)

  abbrev pub end : ℕ
  end = other structure u low

  abbrev pub end_index : ℕ
  end_index = other_index structure u low

  abbrev pub taken : ℕ → ℕ → Bool
  taken = at_ends u low end end_index

  abbrev pub left : GraphEdges
  left = cleared edges u low end end_index

  abbrev pub gained : GraphEdges → GraphEdges
  gained others = joined others u low end end_index

  pub low-lt : low < 64
  low-lt = lowest-lt 64 (edges.neighbor_bitmaps u) ne (g.fits u)

  pub slot-low : slot edges u low ≡ true
  slot-low = bit-lowest 64 (edges.neighbor_bitmaps u) ne (g.fits u)

  two : TwoEnds structure u low
  two = g.ends u low lt slot-low

  pub end-lt : end < 2 * structure.n
  end-lt = two.id_lt

  pub end-across : ltb end structure.n ≡ not (ltb u structure.n)
  end-across = two.across

  pub end-ne : (end == u) ≡ false
  end-ne = ground (arith, two.across, ap (λ x. ltb x structure.n) {x = end} {y = u})

  pub slot-end : slot edges end end_index ≡ true
  slot-end = g.both u low lt slot-low

  pub slot-left : (w k : ℕ) → slot left w k ≡ (slot edges w k && not (taken w k))
  slot-left = slot-cleared edges u low end end_index end-ne low-lt two.index_lt g.fits

  pub split_edge_run :
      (others : GraphEdges) → split_edge structure edges others u ≡ some (end, left, gained others)
  unfolding split_edge
  split_edge_run others = ground arith

  pub remove_edge_run : remove_edge_to_neighbor structure edges u ≡ some (end, left)
  unfolding remove_edge_to_neighbor
  remove_edge_run = ground arith

  -- An edge that is taken is taken at both ends.
  taken_both :
      (w k : ℕ)
      → TwoEnds structure w k
      → taken (other structure w k) (other_index structure w k) ≡ taken w k
  taken_both w k t =
      let w' = other structure w k in
      let k' = other_index structure w k in
      ground (
        arith,
        same_end structure w k u low,
        same_end structure w k end end_index,
        same_end structure w' k' u low,
        same_end structure w' k' end end_index,
        two.back_id,
        two.back_index,
      )

  pub left-IsGraph : IsGraph structure left
  left-IsGraph = record {
    fits = fits-cleared edges u low end end_index end-ne low-lt two.index_lt g.fits;
    ends = λ w k h s. g.ends w k h (ground (arith, slot-left w k));
    both = λ w k h s. ground (
      arith,
      slot-left w k,
      slot-left (other structure w k) (other_index structure w k),
      taken_both w k (g.ends w k h (ground (arith, slot-left w k))),
      g.both w k h,
    );
  }

  pub slot-taken : (w k : ℕ) → taken w k ≡ true → slot edges w k ≡ true
  slot-taken w k h =
      ground (arith, slot_low_cong w k u low, slot_low_cong w k end end_index, slot-low, slot-end)
    where
      slot_low_cong : (w k v i : ℕ) → (w == v && k == i) ≡ true → slot edges w k ≡ slot edges v i
      slot_low_cong w k v i h =
          ap₂ (slot edges) {x = w} {y = v} {u = k} {v = i} (ground arith) (ground arith)

  module _ (others : GraphEdges) (o : IsGraph structure others) where
    pub slot-gained : (w k : ℕ) → slot (gained others) w k ≡ (slot others w k || taken w k)
    slot-gained = slot-joined others u low end end_index end-ne low-lt two.index_lt o.fits

    gained_ends :
        (w k : ℕ) → w < 2 * structure.n → slot (gained others) w k ≡ true → TwoEnds structure w k
    gained_ends w k h s = elim (Bool-cases (taken w k)) [
      | inl e ↦ g.ends w k h (slot-taken w k e)
      | inr e ↦ o.ends w k h (ground (arith, slot-gained w k))
    ]

    pub gained-IsGraph : IsGraph structure (gained others)
    gained-IsGraph = record {
      fits = fits-joined others u low end end_index end-ne low-lt two.index_lt o.fits;
      ends = gained_ends;
      both = λ w k h s.
          let w' = other structure w k in
          let k' = other_index structure w k in
          ground (
            arith,
            slot-gained w k,
            slot-gained w' k',
            taken_both w k (gained_ends w k h s),
            o.both w k h,
          );
    }
