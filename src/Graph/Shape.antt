-- ===== src/Graph/Shape.antt =====
-- When the bits of the vertices and the tables of neighbours describe one bipartite graph.
use fastpass.Base.{
  ℕ, zero, suc, ◌+◌, ◌*◌, ◌^◌, ◌≤◌, ◌<◌, Bool, true, not, ltb, ◌≡◌, refl, arith, Bool-cases, inl,
  inr,
}
use fastpass.Base.Bits.{bit, bit_past}
use fastpass.Graph.{GraphEdges, GraphStructure}
use fastpass.Graph.Edges.{
  is_consistent, is_consistent_loop, vertex_is_consistent, edge_is_consistent,
}

-- Whether the edge `i` of the vertex `v` is there.
abbrev pub slot : GraphEdges → ℕ → ℕ → Bool
slot edges v i = bit (edges.neighbor_bitmaps v) i

module _ (structure : GraphStructure) where
  abbrev pub other : ℕ → ℕ → ℕ
  other v i = (structure.neighbors v i).id

  abbrev pub other_index : ℕ → ℕ → ℕ
  other_index v i = (structure.neighbors v i).index

-- The table of the vertex at the other end of an edge leads back, and it is on the other side.
pub record TwoEnds (structure : GraphStructure) (v i : ℕ) : Type 0 where
  pub id_lt : other structure v i < 2 * structure.n
  pub index_lt : other_index structure v i < 64
  pub back_id : other structure (other structure v i) (other_index structure v i) ≡ v
  pub back_index : other_index structure (other structure v i) (other_index structure v i) ≡ i
  pub across : ltb (other structure v i) structure.n ≡ not (ltb v structure.n)

pub record IsGraph (structure : GraphStructure) (edges : GraphEdges) : Type 0 where
  pub fits : (v : ℕ) → edges.neighbor_bitmaps v < 2 ^ 64
  pub ends : (v i : ℕ) → v < 2 * structure.n → slot edges v i ≡ true → TwoEnds structure v i
  pub both :
      (v i : ℕ)
      → v < 2 * structure.n
      → slot edges v i ≡ true
      → slot edges (other structure v i) (other_index structure v i) ≡ true

module _ (structure : GraphStructure) (edges : GraphEdges) (g : IsGraph structure edges) where
  pub slot-lt : (v i : ℕ) → slot edges v i ≡ true → i < 64
  slot-lt v i h = elim (Bool-cases (ltb i 64)) [
    | inl e ↦ ground arith
    | inr e ↦ ground (arith, bit_past 64 (edges.neighbor_bitmaps v) i (g.fits v))
  ]

  edge_lem : (v i : ℕ) → v < 2 * structure.n → edge_is_consistent structure edges v i ≡ true
  unfolding edge_is_consistent
  edge_lem v i h = elim (Bool-cases (slot edges v i)) [
    | inl e ↦ let t = g.ends v i h e in ground (arith, t.back_id, t.back_index)
    | inr e ↦ ground arith
  ]

  vertex_lem : (v j k : ℕ) → v < 2 * structure.n → vertex_is_consistent structure edges v j k ≡ true
  unfolding vertex_is_consistent
  vertex_lem v j zero h = refl
  vertex_lem v j (suc k) h = ground (arith, edge_lem v j h, vertex_lem v (j + 1) k h)

  loop_lem : (i k : ℕ) → i + k ≤ 2 * structure.n → is_consistent_loop structure edges i k ≡ true
  unfolding is_consistent_loop
  loop_lem i zero h = refl
  loop_lem i (suc k) h = ground (arith, vertex_lem i 0 64, loop_lem (i + 1) k)

  -- The code's test accepts such a graph.
  pub is_consistent_lem : is_consistent structure edges ≡ true
  unfolding is_consistent
  is_consistent_lem = loop_lem 0 (2 * structure.n) (omega arith)
