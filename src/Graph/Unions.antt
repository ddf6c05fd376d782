-- ===== src/Graph/Unions.antt =====
-- graph_edges_init, add_edges and is_perfect_matching, for all vertices.
use fastpass.Base.{
  ℕ, zero, suc, ◌+◌, ◌*◌, ◌^◌, ◌≤◌, ◌<◌, bit_and, bit_or, true, false, ◌&&◌, ◌||◌, some, ◌==◌, ◌≡◌,
  refl, sym, ap, ◌∙◌, arith, Bool-cases, inl, inr,
}
use fastpass.Base.Bits.{bit, bit-zero, bit_ext, bit-bit_and, bit-bit_or, bit_and-lt, bit_or-lt}
use fastpass.Graph.{GraphEdges, GraphStructure, set_bitmap, clear_bitmaps, graph_edges_init}
use fastpass.Graph.Edges.{add_edges, add_edges_loop, is_perfect_matching, is_perfect_matching_loop}
use fastpass.Graph.Shape.{slot, other, other_index, IsGraph}
use fastpass.Graph.Degree.{degree, get_degree_lem}

abbrev pub Fits : GraphEdges → Type 0
Fits edges = (v : ℕ) → edges.neighbor_bitmaps v < 2 ^ 64

Fits-set_bitmap :
    (edges : GraphEdges) (i x : ℕ) → Fits edges → x < 2 ^ 64 → Fits (set_bitmap edges i x)
Fits-set_bitmap edges i x f h v = ground (arith, f v)

clear_bitmaps_lem :
    (i k : ℕ) (edges : GraphEdges)
    → Fits edges
    → Fits (clear_bitmaps i k edges)
      × ((v : ℕ) → i ≤ v → v < i + k → (clear_bitmaps i k edges).neighbor_bitmaps v ≡ 0)
      × ((v : ℕ) → v < i → (clear_bitmaps i k edges).neighbor_bitmaps v ≡ edges.neighbor_bitmaps v)
unfolding clear_bitmaps
clear_bitmaps_lem i zero edges f = (f, λ v p q. absurd (omega arith), λ v p. refl)
clear_bitmaps_lem i (suc k) edges f =
    let (fits, zeros, kept) =
      clear_bitmaps_lem (i + 1) k (set_bitmap edges i 0)
        (Fits-set_bitmap edges i 0 f (omega arith)) in
    (
      fits,
      λ v p q. elim (Bool-cases (v == i)) [
        | inl e ↦ kept v (ground arith) ∙ ground arith
        | inr e ↦ zeros v (ground arith) (omega arith)
      ],
      λ v p. kept v (omega arith) ∙ ground arith,
    )

-- graph_edges_init leaves no edge at the vertices of both sides.
pub graph_edges_init_lem :
    (edges : GraphEdges) (n : ℕ)
    → n ≤ 64
    → Fits edges
    → (edges' : GraphEdges) × (graph_edges_init edges n ≡ some edges')
      × Fits edges'
      × ((v : ℕ) → v < 2 * n → edges'.neighbor_bitmaps v ≡ 0)
unfolding graph_edges_init
graph_edges_init_lem edges n h f =
    let (fits, zeros, kept) = clear_bitmaps_lem 0 (2 * n) edges f in
    (clear_bitmaps 0 (2 * n) edges, ground arith, fits, λ v p. zeros v (omega arith) (omega arith))

module _ (edges_2 : GraphEdges) (f_2 : Fits edges_2) where
  add_edges_loop_lem :
      (i k : ℕ) (edges_1 : GraphEdges)
      → Fits edges_1
      → ((v j : ℕ) → i ≤ v → v < i + k → (slot edges_1 v j && slot edges_2 v j) ≡ false)
      → (edges : GraphEdges) × (add_edges_loop edges_2 i k edges_1 ≡ some edges)
        × Fits edges
        × ((v j : ℕ) → i ≤ v → v < i + k → slot edges v j ≡ (slot edges_1 v j || slot edges_2 v j))
        × ((v : ℕ) → v < i → edges.neighbor_bitmaps v ≡ edges_1.neighbor_bitmaps v)
  unfolding add_edges_loop
  add_edges_loop_lem i zero edges_1 f apart =
      (edges_1, refl, f, λ v j p q. absurd (omega arith), λ v p. refl)
  add_edges_loop_lem i (suc k) edges_1 f apart =
      let a = edges_1.neighbor_bitmaps i in
      let b = edges_2.neighbor_bitmaps i in
      let free : bit_and a b ≡ 0 =
        bit_ext 64 (bit_and a b) 0 (bit_and-lt 64 a b (f i)) (omega arith)
          λ j _. bit-bit_and a b j ∙ apart i j (omega arith) (omega arith) ∙ sym (bit-zero j) in
      let fits = Fits-set_bitmap edges_1 i (bit_or a b) f (bit_or-lt 64 a b (f i) (f_2 i)) in
      let (edges, run, fits', all, kept) =
        add_edges_loop_lem (i + 1) k (set_bitmap edges_1 i (bit_or a b)) fits
          λ v j p q. ground (arith, apart v j) in
      (
        edges,
        rw free run,
        fits',
        λ v j p q. elim (Bool-cases (v == i)) [
          | inl e ↦
              ap (λ x. bit x j) (kept v (ground arith))
              ∙ ap (λ x. bit x j) {x = (set_bitmap edges_1 i (bit_or a b)).neighbor_bitmaps v}
                  {y = bit_or a b} (ground arith)
              ∙ bit-bit_or a b j
              ∙ ap (λ x. slot edges_1 x j || slot edges_2 x j) {x = i} {y = v} (ground arith)
          | inr e ↦ all v j (ground arith) (omega arith) ∙ ground arith
        ],
        λ v p. kept v (omega arith) ∙ ground arith,
      )

  -- add_edges makes the union of two sets of edges that have none in common.
  pub add_edges_lem :
      (edges_1 : GraphEdges) (n : ℕ)
      → Fits edges_1
      → ((v j : ℕ) → v < 2 * n → (slot edges_1 v j && slot edges_2 v j) ≡ false)
      → (edges : GraphEdges) × (add_edges edges_1 edges_2 n ≡ some edges)
        × Fits edges
        × ((v j : ℕ) → v < 2 * n → slot edges v j ≡ (slot edges_1 v j || slot edges_2 v j))
  unfolding add_edges
  add_edges_lem edges_1 n f apart =
      let (edges, run, fits, all, kept) =
        add_edges_loop_lem 0 (2 * n) edges_1 f λ v j p q. apart v j (omega arith) in
      (edges, run, fits, λ v j p. all v j (omega arith) (omega arith))

-- A graph with the same edges at the vertices of both sides.
pub IsGraph-slots :
    (structure : GraphStructure) (edges edges' : GraphEdges)
    → IsGraph structure edges
    → Fits edges'
    → ((v i : ℕ) → v < 2 * structure.n → slot edges' v i ≡ slot edges v i)
    → IsGraph structure edges'
IsGraph-slots structure edges edges' g f same = record {
  fits = f;
  ends = λ v i h on. g.ends v i h (sym (same v i h) ∙ on);
  both = λ v i h on.
      let on' = sym (same v i h) ∙ on in
      same (other structure v i) (other_index structure v i) (g.ends v i h on').id_lt
      ∙ g.both v i h on';
}

module _ (edges : GraphEdges) (f : Fits edges) where
  matching_loop_lem :
      (i k : ℕ)
      → i + k ≤ 128
      → ((v : ℕ) → v < i + k → degree edges v ≡ 1)
      → is_perfect_matching_loop edges i k ≡ some true
  unfolding is_perfect_matching_loop
  matching_loop_lem i zero h one = refl
  matching_loop_lem i (suc k) h one =
      rw (get_degree_lem edges i (omega arith) (f i), one i (omega arith))
        (matching_loop_lem (i + 1) k (omega arith) λ v p. one v (omega arith))

  -- The test of a perfect matching succeeds where every degree is 1.
  pub is_perfect_matching_lem :
      (n : ℕ)
      → n ≤ 64
      → ((v : ℕ) → v < 2 * n → degree edges v ≡ 1)
      → is_perfect_matching edges n ≡ some true
  unfolding is_perfect_matching
  is_perfect_matching_lem n h one =
      matching_loop_lem 0 (2 * n) (omega arith) λ v p. one v (omega arith)
