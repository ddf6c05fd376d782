-- ===== src/Graph/Split.antt =====
-- src/graph-algo/euler_split.c: the edges of a graph are dealt out to two graphs in turn, along
-- closed trails.
pub mod Deal
pub mod Round
pub mod Loops
pub mod Halves
use fastpass.Base.{ℕ, zero, suc, ◌+◌, ◌*◌, Bool, true, false, Option, none, some}
use fastpass.Graph.{
  GraphEdges, GraphStructure, has_neighbor, split_edge, max_degree, guard, ◌>>=◌, ◌>>◌,
}
use fastpass.Graph.Edges.{is_consistent}

-- The variables of the loops of `split`, but `node`.
pub record Splitting : Type 0 where
  pub cur_node : ℕ
  pub edges_in : GraphEdges
  pub edges_1 : GraphEdges
  pub edges_2 : GraphEdges

-- The body of the inner loop.
unfoldable pub peel_two : GraphStructure → Splitting → Option Splitting
peel_two structure s = do
  (mid_node, in_1, edges_1) ← split_edge structure s.edges_in s.edges_1 s.cur_node
  guard (is_consistent structure in_1)
  guard (is_consistent structure edges_1)
  (new_node, in_2, edges_2) ← split_edge structure in_1 s.edges_2 mid_node
  guard (is_consistent structure in_2)
  guard (is_consistent structure edges_2)
  some (record { cur_node = new_node; edges_in = in_2; edges_1 = edges_1; edges_2 = edges_2 })

-- The inner loop, `while (has_neighbor(edges_in, node))`; `none` also if the fuel runs out.
unfoldable pub peel_loop : ℕ → GraphStructure → ℕ → Splitting → Option Splitting
peel_loop zero structure node s = none
peel_loop (suc fuel) structure node s = do
  more ← has_neighbor s.edges_in node
  elim more [ true ↦ peel_two structure s >>= peel_loop fuel structure node | false ↦ some s ]

-- A round of the inner loop takes an edge from a vertex of the first side, and these have at most
-- 64 each.
abbrev pub peel_fuel : GraphStructure → ℕ
peel_fuel structure = 64 * structure.n + 1

-- The loop over the nodes, of which `k` are left from `node` on.
unfoldable pub split_loop : GraphStructure → ℕ → ℕ → Splitting → Option Splitting
split_loop structure node zero s = some s
split_loop structure node (suc k) s =
    peel_loop (peel_fuel structure) structure node (record s { cur_node = node })
    >>= split_loop structure (node + 1) k

unfoldable pub split : GraphStructure → GraphEdges → GraphEdges → GraphEdges → Option Splitting
unfolding split_loop
split structure edges_in edges_1 edges_2 =
    split_loop structure 0 structure.n
      (record { cur_node = 0; edges_in = edges_in; edges_1 = edges_1; edges_2 = edges_2 })
