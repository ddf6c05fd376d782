-- ===== src/Graph/Adds.antt =====
-- add_edge: a new edge at the lowest free index of both vertices.
use fastpass.Base.{
  ℕ, zero, suc, ◌+◌, ◌-◌, ◌*◌, ◌^◌, ◌≤◌, ◌<◌, Bool, true, false, not, ◌&&◌, ◌||◌, some, ltb, ◌==◌,
  ◌≡◌, ◌≢◌, refl, subst, ap, ap₂, ◌∙◌, arith, Bool-cases, inl, inr, lt→ltb,
}
use fastpass.Base.Bits.{bit, bit-complement, bit-mask}
use fastpass.Base.Count.{card}
use fastpass.Base.Bits.Scan.{lowest, lowest-lt, bit-lowest}
use fastpass.Graph.{GraphEdges, GraphStructure, Neighbor, set_neighbor, complement, add_edge}
use fastpass.Graph.Shape.{slot, other, other_index, TwoEnds, IsGraph}
use fastpass.Graph.Moves.{at_ends, joined, slot-joined, fits-joined}
use fastpass.Graph.Degree.{degree, tally, degree-joined}

-- The first index at which a vertex has no edge.
abbrev pub free_index : GraphEdges → ℕ → ℕ
free_index edges u = lowest 64 (complement (edges.neighbor_bitmaps u))

abbrev pub linked : GraphStructure → ℕ → ℕ → ℕ → ℕ → GraphStructure
linked structure u i v j =
    set_neighbor (set_neighbor structure u i (record { id = v; index = j })) v j
      (record { id = u; index = i })

nb_eq :
    (structure : GraphStructure) (v i w k : ℕ)
    → other structure v i ≡ w
    → other_index structure v i ≡ k
    → structure.neighbors v i ≡ record { id = w; index = k }
nb_eq structure v i w k p q = ground arith

TwoEnds-Neighbor :
    (structure : GraphStructure) (w k w' k' : ℕ)
    → structure.neighbors w k ≡ record { id = w'; index = k' }
    → structure.neighbors w' k' ≡ record { id = w; index = k }
    → w' < 2 * structure.n
    → k' < 64
    → ltb w' structure.n ≡ not (ltb w structure.n)
    → TwoEnds structure w k
TwoEnds-Neighbor structure w k w' k' here there lt lt' side = record {
  id_lt = rw (here, other) lt;
  index_lt = rw (here, other_index) lt';
  back_id =
      ap (λ (nb : Neighbor). other structure nb.id nb.index) here
      ∙ ap (λ (nb : Neighbor). nb.id) there;
  back_index =
      ap (λ (nb : Neighbor). other_index structure nb.id nb.index) here
      ∙ ap (λ (nb : Neighbor). nb.index) there;
  across = rw (here, other) side;
}

at_pair : (P : ℕ → ℕ → Type 0) (w k v i : ℕ) → (w == v && k == i) ≡ true → P v i → P w k
at_pair P w k v i h p =
    subst (λ x. P x k) {x = v} {y = w} (ground arith)
      (subst (λ y. P v y) {x = i} {y = k} (ground arith) p)

-- What add_edge makes of a graph: one with one edge more between `u` and `v`.
pub record Added (structure : GraphStructure) (edges : GraphEdges) (u v : ℕ)
    (structure' : GraphStructure) (edges' : GraphEdges) : Type 0 where
  pub graph : IsGraph structure' edges'
  pub same_n : structure'.n ≡ structure.n
  pub degrees : (w : ℕ) → degree edges' w ≡ degree edges w + tally (w == u) + tally (w == v)
  pub kept :
      (w i : ℕ)
      → slot edges w i ≡ true
      → (slot edges' w i ≡ true) × (structure'.neighbors w i ≡ structure.neighbors w i)
  pub index : ℕ
  pub new_edge :
      (slot edges' u index ≡ true) × (other structure' u index ≡ v) × (slot edges u index ≡ false)

card_all : (f : ℕ → Bool) (k : ℕ) → ((m : ℕ) → m < k → f m ≡ true) → card f k ≡ k
unfolding card
card_all f zero h = refl
card_all f (suc k) h = ground (arith, h k, card_all f k λ m p. h m (omega arith))

-- A vertex with less than 64 edges has room.
not_all : (edges : GraphEdges) (u : ℕ) → degree edges u < 64 → edges.neighbor_bitmaps u ≢ 2 ^ 64 - 1
unfolding degree
not_all edges u h e = absurd (
    omega (
      arith,
      card_all (slot edges u) 64 λ i p. ap (λ x. bit x i) e ∙ bit-mask 64 i ∙ lt→ltb i 64 p,
    ))

module _ (structure : GraphStructure) (edges : GraphEdges) (g : IsGraph structure edges) where
  module _ (u : ℕ) (room : edges.neighbor_bitmaps u ≢ 2 ^ 64 - 1) where
    not_full : complement (edges.neighbor_bitmaps u) ≢ 0
    not_full z = room (omega (arith, g.fits u))

    pub free_index-lt : free_index edges u < 64
    free_index-lt = lowest-lt 64 (complement (edges.neighbor_bitmaps u)) not_full (omega arith)

    pub slot-free_index : slot edges u (free_index edges u) ≡ false
    slot-free_index = ground (
      arith,
      bit-lowest 64 (complement (edges.neighbor_bitmaps u)) not_full,
      bit-complement 64 (edges.neighbor_bitmaps u) (free_index edges u) (g.fits u) free_index-lt,
    )

  module _ (u v : ℕ) (u_lt : u < structure.n) (v_le : structure.n ≤ v) (v_lt : v < 2 * structure.n)
      (room_u : edges.neighbor_bitmaps u ≢ 2 ^ 64 - 1)
      (room_v : edges.neighbor_bitmaps v ≢ 2 ^ 64 - 1) where
    abbrev i : ℕ
    i = free_index edges u

    abbrev j : ℕ
    j = free_index edges v

    abbrev structure' : GraphStructure
    structure' = linked structure u i v j

    abbrev edges' : GraphEdges
    edges' = joined edges u i v j

    run : add_edge structure edges u v ≡ some (structure', edges')
    unfolding add_edge
    run = ground (arith, not_full u room_u, not_full v room_v)

    not_new : (w k : ℕ) → slot edges w k ≡ true → at_ends u i v j w k ≡ false
    not_new w k on =
        ground
          (arith, slot-free_index u room_u, slot-free_index v room_v, same w k u i, same w k v j)
      where
        same : (w k v i : ℕ) → (w == v && k == i) ≡ true → slot edges w k ≡ slot edges v i
        same w k v i h =
            ap₂ (slot edges) {x = w} {y = v} {u = k} {v = i} (ground arith) (ground arith)

    slots : (w k : ℕ) → slot edges' w k ≡ (slot edges w k || at_ends u i v j w k)
    slots =
        slot-joined edges u i v j (ground arith) (free_index-lt u room_u) (free_index-lt v room_v)
          g.fits

    old_nb :
        (w k : ℕ) → at_ends u i v j w k ≡ false → structure'.neighbors w k ≡ structure.neighbors w k
    old_nb w k h = ground arith

    new_ends : TwoEnds structure' u i × TwoEnds structure' v j
    new_ends = (
      TwoEnds-Neighbor structure' u i v j (ground arith) (ground arith) v_lt
          (free_index-lt v room_v) (ground arith),
      TwoEnds-Neighbor structure' v j u i (ground arith) (ground arith) (omega arith)
          (free_index-lt u room_u) (ground arith),
    )

    old_ends : (w k : ℕ) → w < 2 * structure.n → slot edges w k ≡ true → TwoEnds structure' w k
    old_ends w k h on =
        let t = g.ends w k h on in
        let w' = other structure w k in
        let k' = other_index structure w k in
        TwoEnds-Neighbor structure' w k w' k' (old_nb w k (not_new w k on))
          (old_nb w' k' (not_new w' k' (g.both w k h on))
            ∙ nb_eq structure w' k' w k t.back_id t.back_index)
          t.id_lt t.index_lt t.across

    -- An edge of the new graph is an old one or the new one, seen from either end.
    edge_cases :
        (P : ℕ → ℕ → Type 0)
        → ((w k : ℕ) → slot edges w k ≡ true → P w k)
        → P u i
        → P v j
        → (w k : ℕ) → slot edges' w k ≡ true
        → P w k
    edge_cases P old at_u at_v w k on = elim (Bool-cases (slot edges w k)) [
      | inl e ↦ old w k e
      | inr e ↦ elim (Bool-cases (w == u && k == i)) [
        | inl a ↦ at_pair P w k u i a at_u
        | inr b ↦ at_pair P w k v j (ground (arith, slots w k)) at_v
      ]
    ]

    ends' : (w k : ℕ) → w < 2 * structure.n → slot edges' w k ≡ true → TwoEnds structure' w k
    ends' w k h on =
        edge_cases (λ w k. w < 2 * structure.n → TwoEnds structure' w k)
          (λ w k e h. old_ends w k h e) (λ _. new_ends.0) (λ _. new_ends.1) w k on h

    Kept : ℕ → ℕ → Type 0
    Kept w k = slot edges' (other structure' w k) (other_index structure' w k) ≡ true

    old_both : (w k : ℕ) → w < 2 * structure.n → slot edges w k ≡ true → Kept w k
    unfolding Kept
    old_both w k h e =
        let w' = other structure w k in
        let k' = other_index structure w k in
        ap (λ (nb : Neighbor). slot edges' nb.id nb.index) (old_nb w k (not_new w k e))
        ∙ slots w' k'
        ∙ ground (arith, g.both w k h e)

    new_both : Kept u i × Kept v j
    unfolding Kept
    new_both = (
      ap (λ (nb : Neighbor). slot edges' nb.id nb.index) {x = structure'.neighbors u i}
            {y = record { id = v; index = j }} (ground arith)
          ∙ slots v j
          ∙ ground arith,
      ap (λ (nb : Neighbor). slot edges' nb.id nb.index) {x = structure'.neighbors v j}
            {y = record { id = u; index = i }} (ground arith)
          ∙ slots u i
          ∙ ground arith,
    )

    both' : (w k : ℕ) → w < 2 * structure.n → slot edges' w k ≡ true → Kept w k
    both' w k h on =
        edge_cases (λ w k. w < 2 * structure.n → Kept w k) (λ w k e h. old_both w k h e)
          (λ _. new_both.0) (λ _. new_both.1) w k on h

    IsGraph-edges' : IsGraph structure' edges'
    unfolding Kept
    IsGraph-edges' = record {
      fits =
          fits-joined edges u i v j (ground arith) (free_index-lt u room_u) (free_index-lt v room_v)
            g.fits;
      ends = ends';
      both = both';
    }

    added : Added structure edges u v structure' edges'
    added = record {
      graph = IsGraph-edges';
      same_n = refl;
      degrees =
          degree-joined edges u i v j (ground arith) (free_index-lt u room_u)
            (free_index-lt v room_v) g.fits (slot-free_index u room_u) (slot-free_index v room_v);
      kept = λ w k on. (ground (arith, slots w k), old_nb w k (not_new w k on));
      index = i;
      new_edge = (ground (arith, slots u i), ground arith, slot-free_index u room_u);
    }

-- In a graph, add_edge between a vertex of the first side and one of the second that have less than
-- 64 edges each adds an edge between them: the degrees of the two grow by one and no others, and the
-- edges that were there stay as they are.
pub add_edge_lem :
    (structure : GraphStructure) (edges : GraphEdges) (u v : ℕ)
    → IsGraph structure edges
    → u < structure.n
    → structure.n ≤ v
    → v < 2 * structure.n
    → degree edges u < 64
    → degree edges v < 64
    → (structure' : GraphStructure) × (edges' : GraphEdges) × (add_edge structure edges u v
        ≡ some (structure', edges'))
      × Added structure edges u v structure' edges'
add_edge_lem structure edges u v g u_lt v_le v_lt room_u room_v =
    let full_u = not_all edges u room_u in
    let full_v = not_all edges v room_v in
    (
      structure' structure edges g u v u_lt v_le v_lt full_u full_v,
      edges' structure edges g u v u_lt v_le v_lt full_u full_v,
      run structure edges g u v u_lt v_le v_lt full_u full_v,
      added structure edges g u v u_lt v_le v_lt full_u full_v,
    )
