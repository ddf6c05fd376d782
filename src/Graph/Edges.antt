-- ===== src/Graph/Edges.antt =====
-- src/graph-algo/graph.h: the functions that go through all vertices or all edges of one.
--
-- A loop over the vertices takes the next vertex and the number of vertices that are left.
use fastpass.Base.{
  ℕ, zero, suc, ◌+◌, ◌*◌, bit_and, bit_or, Bool, true, false, not, ◌&&◌, Option, some, ◌==◌,
  if◌then◌else◌,
}
use fastpass.Base.Bits.{bit}
use fastpass.Graph.{
  GraphEdges, GraphStructure, set_bitmap, with_bit, get_degree, max_degree, guard, ◌>>=◌, ◌>>◌,
}

unfoldable pub add_edges_loop : GraphEdges → ℕ → ℕ → GraphEdges → Option GraphEdges
add_edges_loop edges_2 i zero edges_1 = some edges_1
add_edges_loop edges_2 i (suc k) edges_1 = do
  guard (bit_and (edges_1.neighbor_bitmaps i) (edges_2.neighbor_bitmaps i) == 0)
  add_edges_loop edges_2 (i + 1) k
      (set_bitmap edges_1 i (bit_or (edges_1.neighbor_bitmaps i) (edges_2.neighbor_bitmaps i)))

-- `edges_1` with the edges of `edges_2`.
unfoldable pub add_edges : GraphEdges → GraphEdges → ℕ → Option GraphEdges
unfolding add_edges_loop
add_edges edges_1 edges_2 n = add_edges_loop edges_2 0 (2 * n) edges_1

unfoldable pub copy_edges_loop : GraphEdges → ℕ → ℕ → GraphEdges → GraphEdges
copy_edges_loop src_edges i zero dst_edges = dst_edges
copy_edges_loop src_edges i (suc k) dst_edges =
    copy_edges_loop src_edges (i + 1) k (set_bitmap dst_edges i (src_edges.neighbor_bitmaps i))

unfoldable pub copy_edges : GraphEdges → GraphEdges → ℕ → GraphEdges
unfolding copy_edges_loop
copy_edges src_edges dst_edges n = copy_edges_loop src_edges 0 (2 * n) dst_edges

-- The search of set_edge, with `k` indices left from `i` on.
unfoldable pub set_edge_loop : GraphStructure → GraphEdges → GraphEdges → ℕ → ℕ → ℕ → ℕ → GraphEdges
set_edge_loop structure existing_edges edges u v i zero = edges
set_edge_loop structure existing_edges edges u v i (suc k) =
    let rest = set_edge_loop structure existing_edges edges u v (i + 1) k in
    let nb = structure.neighbors u i in
    if (nb.id == v)
      && not (bit (edges.neighbor_bitmaps u) i)
      && not (bit (existing_edges.neighbor_bitmaps u) i)
    then set_bitmap (set_bitmap edges u (with_bit (edges.neighbor_bitmaps u) i)) v
        (with_bit (edges.neighbor_bitmaps v) nb.index)
    else rest

unfoldable pub set_edge : GraphStructure → GraphEdges → GraphEdges → ℕ → ℕ → GraphEdges
unfolding set_edge_loop
set_edge structure existing_edges edges u v =
    set_edge_loop structure existing_edges edges u v 0 max_degree

unfoldable pub are_equal_loop : GraphEdges → GraphEdges → ℕ → ℕ → Bool
are_equal_loop edges_1 edges_2 i zero = true
are_equal_loop edges_1 edges_2 i (suc k) =
    let rest = are_equal_loop edges_1 edges_2 (i + 1) k in
    if edges_1.neighbor_bitmaps i == edges_2.neighbor_bitmaps i then rest else false

unfoldable pub are_equal : GraphEdges → GraphEdges → ℕ → Bool
unfolding are_equal_loop
are_equal edges_1 edges_2 n = are_equal_loop edges_1 edges_2 0 (2 * n)

unfoldable pub is_perfect_matching_loop : GraphEdges → ℕ → ℕ → Option Bool
is_perfect_matching_loop edges i zero = some true
is_perfect_matching_loop edges i (suc k) = do
  d ← get_degree edges i
  let rest = is_perfect_matching_loop edges (i + 1) k
  if d == 1 then rest else some false

unfoldable pub is_perfect_matching : GraphEdges → ℕ → Option Bool
unfolding is_perfect_matching_loop
is_perfect_matching edges n = is_perfect_matching_loop edges 0 (2 * n)

-- The test of is_consistent for the edge `j` of the vertex `i`.
unfoldable pub edge_is_consistent : GraphStructure → GraphEdges → ℕ → ℕ → Bool
edge_is_consistent structure edges i j =
    let nb = structure.neighbors i j in
    let back = structure.neighbors nb.id nb.index in
    if bit (edges.neighbor_bitmaps i) j
    then if not (back.id == i) then false else if not (back.index == j) then false else true
    else true

unfoldable pub vertex_is_consistent : GraphStructure → GraphEdges → ℕ → ℕ → ℕ → Bool
vertex_is_consistent structure edges i j zero = true
vertex_is_consistent structure edges i j (suc k) =
    let rest = vertex_is_consistent structure edges i (j + 1) k in
    if edge_is_consistent structure edges i j then rest else false

unfoldable pub is_consistent_loop : GraphStructure → GraphEdges → ℕ → ℕ → Bool
is_consistent_loop structure edges i zero = true
is_consistent_loop structure edges i (suc k) =
    let rest = is_consistent_loop structure edges (i + 1) k in
    if vertex_is_consistent structure edges i 0 max_degree then rest else false

unfoldable pub is_consistent : GraphStructure → GraphEdges → Bool
unfolding is_consistent_loop vertex_is_consistent edge_is_consistent
is_consistent structure edges = is_consistent_loop structure edges 0 (2 * structure.n)
