-- ===== src/Graph.antt =====
-- src/graph-algo/graph.h: bipartite multigraphs, the edges of each vertex as bits of a word.
--
-- `neighbors v i` is vertices[v].neighbors[i]; the bit `i` of neighbor_bitmaps[v] says whether that
-- edge is there. The arrays are functions. `none` means that an assertion fails. A shift takes its
-- count modulo 64.
mod Checks
pub mod Shape
pub mod Degree
pub mod Edges
pub mod Moves
pub mod Adds
pub mod Unions
pub mod Split
pub mod KapoorRizzi
mod Tests
unfoldable pub use Checks.*
use fastpass.Base.{
  ℕ, zero, suc, ◌+◌, ◌-◌, ◌*◌, ◌/◌, ◌%◌, ◌^◌, bit_and, bit_or, max, Bool, true, false, not, ◌&&◌,
  Option, none, some, ltb, leb, ◌==◌, if◌then◌else◌,
}
use fastpass.Base.Bits.{bit}
use fastpass.Base.Bits.Scan.{lowest}

abbrev pub max_degree : ℕ
max_degree = 64

abbrev pub max_graph_nodes : ℕ
max_graph_nodes = 64

pub record GraphEdges : Type 0 where
  pub neighbor_bitmaps : ℕ → ℕ

pub record Neighbor : Type 0 where
  pub id : ℕ
  pub index : ℕ

pub record GraphStructure : Type 0 where
  pub n : ℕ
  pub neighbors : ℕ → ℕ → Neighbor

abbrev pub set_bitmap : GraphEdges → ℕ → ℕ → GraphEdges
set_bitmap edges vertex bitmap = record {
  neighbor_bitmaps = λ v. if v == vertex then bitmap else edges.neighbor_bitmaps v;
}

abbrev pub set_neighbor : GraphStructure → ℕ → ℕ → Neighbor → GraphStructure
set_neighbor structure vertex i nb = record structure {
  neighbors = λ v j. if v == vertex && j == i then nb else structure.neighbors v j;
}

-- `0x1ULL << i`
abbrev pub one_bit : ℕ → ℕ
one_bit i = 2 ^ (i % 64)

-- `bitmap & ~(0x1ULL << i)`
abbrev pub without_bit : ℕ → ℕ → ℕ
without_bit bitmap i = bit_and bitmap (2 ^ 64 - 1 - one_bit i)

-- `bitmap | (0x1ULL << i)`
abbrev pub with_bit : ℕ → ℕ → ℕ
with_bit bitmap i = bit_or bitmap (one_bit i)

pub graph_structure_init : GraphStructure → ℕ → Option GraphStructure
graph_structure_init structure n = do
  guard (leb n max_graph_nodes)
  some (record structure { n = n })

-- The vertices from `v` on, `k` of them.
unfoldable pub clear_bitmaps : ℕ → ℕ → GraphEdges → GraphEdges
clear_bitmaps v zero edges = edges
clear_bitmaps v (suc k) edges = clear_bitmaps (v + 1) k (set_bitmap edges v 0)

unfoldable pub graph_edges_init : GraphEdges → ℕ → Option GraphEdges
unfolding clear_bitmaps
graph_edges_init edges n = do guard (leb n max_graph_nodes); some (clear_bitmaps 0 (2 * n) edges)

unfoldable pub has_neighbor : GraphEdges → ℕ → Option Bool
has_neighbor edges vertex = do
  guard (ltb vertex (2 * max_graph_nodes))
  some (not (edges.neighbor_bitmaps vertex == 0))

-- The loop of get_degree, of which `fuel` rounds are left. A word has 64 bits.
unfoldable pub degree_loop : ℕ → ℕ → ℕ → ℕ
degree_loop zero bitmap degree = degree
degree_loop (suc fuel) bitmap degree = elim (ltb 0 bitmap) [
  | true ↦ degree_loop fuel (bitmap / 2) ((degree + bit_and bitmap 1) % 256)
  | false ↦ degree
]

unfoldable pub get_degree : GraphEdges → ℕ → Option ℕ
unfolding degree_loop
get_degree edges vertex = do
  guard (ltb vertex (2 * max_graph_nodes))
  some (degree_loop 64 (edges.neighbor_bitmaps vertex) 0)

unfoldable pub max_degree_loop : GraphEdges → ℕ → ℕ → ℕ → Option ℕ
unfolding get_degree
max_degree_loop edges i zero degree = some degree
max_degree_loop edges i (suc k) degree = do
  d ← get_degree edges i
  max_degree_loop edges (i + 1) k (max degree d)

unfoldable pub get_max_degree : GraphEdges → ℕ → Option ℕ
unfolding max_degree_loop
get_max_degree edges n = do guard (leb n max_graph_nodes); max_degree_loop edges 0 (2 * n) 0

-- split_edge gives the vertex that it returns, and `src_edges` and `dst_edges` as it leaves them,
-- which are two objects.
unfoldable pub split_edge :
    GraphStructure → GraphEdges → GraphEdges → ℕ → Option (ℕ × GraphEdges × GraphEdges)
split_edge structure src_edges dst_edges u = do
  guard (ltb u (2 * structure.n))
  guard (not (src_edges.neighbor_bitmaps u == 0))
  let edge_index_u = lowest 64 (src_edges.neighbor_bitmaps u)
  let v = (structure.neighbors u edge_index_u).id
  let edge_index_v = (structure.neighbors u edge_index_u).index
  let v_bitmap = src_edges.neighbor_bitmaps v
  let src_u = set_bitmap src_edges u (without_bit (src_edges.neighbor_bitmaps u) edge_index_u)
  let dst_u = set_bitmap dst_edges u (with_bit (dst_edges.neighbor_bitmaps u) edge_index_u)
  some (
    v,
    set_bitmap src_u v (without_bit v_bitmap edge_index_v),
    set_bitmap dst_u v (with_bit (dst_edges.neighbor_bitmaps v) edge_index_v),
  )

unfoldable pub remove_edge_to_neighbor : GraphStructure → GraphEdges → ℕ → Option (ℕ × GraphEdges)
remove_edge_to_neighbor structure src_edges u = do
  guard (ltb u (2 * structure.n))
  guard (not (src_edges.neighbor_bitmaps u == 0))
  let edge_index_u = lowest 64 (src_edges.neighbor_bitmaps u)
  let v = (structure.neighbors u edge_index_u).id
  let edge_index_v = (structure.neighbors u edge_index_u).index
  let v_bitmap = src_edges.neighbor_bitmaps v
  let src_u = set_bitmap src_edges u (without_bit (src_edges.neighbor_bitmaps u) edge_index_u)
  some (v, set_bitmap src_u v (without_bit v_bitmap edge_index_v))

-- `~bitmap`
abbrev pub complement : ℕ → ℕ
complement bitmap = 2 ^ 64 - 1 - bitmap

unfoldable pub add_edge : GraphStructure → GraphEdges → ℕ → ℕ → Option (GraphStructure × GraphEdges)
add_edge structure edges u v = do
  guard (ltb u (2 * structure.n))
  guard (ltb v (2 * structure.n))
  guard (not (complement (edges.neighbor_bitmaps u) == 0))
  let edge_index_u = lowest 64 (complement (edges.neighbor_bitmaps u))
  let v_bitmap = edges.neighbor_bitmaps v
  guard (not (complement v_bitmap == 0))
  let edge_index_v = lowest 64 (complement v_bitmap)
  let edges_u = set_bitmap edges u (with_bit (edges.neighbor_bitmaps u) edge_index_u)
  let structure_u = set_neighbor structure u edge_index_u (record { id = v; index = edge_index_v })
  some (
    set_neighbor structure_u v edge_index_v (record { id = u; index = edge_index_u }),
    set_bitmap edges_u v (with_bit v_bitmap edge_index_v),
  )
