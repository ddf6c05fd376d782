-- ===== src/Graph/Tests.antt =====
-- The theorems of the graphs at concrete inputs.
use fastpass.Base.{
  ℕ, ◌+◌, ◌-◌, ◌<◌, List, [], ◌∷◌, true, Option, none, some, ltb, ◌==◌, if◌then◌else◌, ◌≡◌, refl,
  arith,
}
use fastpass.Base.Bits.{bit, bit-mask, bit-pow, bit-zero}
use fastpass.Graph.{GraphEdges, GraphStructure, split_edge, add_edge, has_neighbor}
use fastpass.Graph.Edges.{is_perfect_matching, is_consistent}
use fastpass.Graph.Shape.{slot, other, other_index, TwoEnds, IsGraph}
use fastpass.Graph.Degree.{degree}
use fastpass.Graph.Adds.{Added, add_edge_lem}
use fastpass.Graph.Split.{Splitting, split, peel_loop, peel_two}
use fastpass.Base.Count.{card}
use fastpass.Base.Bits.Scan.{lowest}
use fastpass.Graph.Split.Halves.{Halves, split_lem}
use fastpass.Graph.KapoorRizzi.{Kr, MatchingSet, solve}
use fastpass.Graph.KapoorRizzi.Step.{Coloring}
use fastpass.Graph.KapoorRizzi.Runs.{last_degrees}
use fastpass.Graph.KapoorRizzi.Solution.{first_degrees, either, solve_lem}

-- Two nodes on each side. The indices 0 and 1 of a vertex lead to both nodes of the other side, the
-- others to the node across.
abbrev square : GraphStructure
square = record {
  n = 2;
  neighbors = λ v i.
      if ltb i 2
      then record { id = if ltb v 2 then i + 2 else i; index = if ltb v 2 then v else v - 2 }
      else record { id = if ltb v 2 then v + 2 else v - 2; index = i };
}

abbrev all_with : ℕ → GraphEdges
all_with bitmap = record { neighbor_bitmaps = λ _. bitmap }

-- Every vertex has the edges 0 and 1.
abbrev ring : GraphEdges
ring = all_with 3

-- Every vertex has the edge 2.
abbrev rungs : GraphEdges
rungs = all_with 4

abbrev no_edges : GraphEdges
no_edges = all_with 0

ring-slot : (v i : ℕ) → slot ring v i ≡ ltb i 2
ring-slot v i = bit-mask 2 i

rungs-slot : (v i : ℕ) → slot rungs v i ≡ (i == 2)
rungs-slot v i = bit-pow 2 i

ring_ends : (v i : ℕ) → v < 4 → i < 3 → TwoEnds square v i
ring_ends v i h p = record {
  id_lt = ground arith;
  index_lt = ground arith;
  back_id = ground arith;
  back_index = ground arith;
  across = ground arith;
}

ring-IsGraph : IsGraph square ring
ring-IsGraph = record {
  fits = λ v. omega arith;
  ends = λ v i h on. ring_ends v i h (ground (arith, ring-slot v i));
  both = λ v i h on.
      ground (arith, ring-slot v i, ring-slot (other square v i) (other_index square v i));
}

rungs-IsGraph : IsGraph square rungs
rungs-IsGraph = record {
  fits = λ v. omega arith;
  ends = λ v i h on. ring_ends v i h (ground (arith, rungs-slot v i));
  both = λ v i h on.
      ground (arith, rungs-slot v i, rungs-slot (other square v i) (other_index square v i));
}

no_edges-IsGraph : IsGraph square no_edges
no_edges-IsGraph = record {
  fits = λ v. omega arith;
  ends = λ v i h on. cc (bit-zero i);
  both = λ v i h on. cc (bit-zero i);
}

ring_degree : (v : ℕ) → degree ring v ≡ 2
unfolding degree card bit
ring_degree v = refl

rungs_degree : (v : ℕ) → degree rungs v ≡ 1
unfolding degree card bit
rungs_degree v = refl

split_example :
    (s : Splitting) × (split square ring no_edges no_edges ≡ some s)
    × Halves square ring no_edges no_edges s
split_example =
    split_lem square ring no_edges no_edges (omega arith) ring-IsGraph no_edges-IsGraph
      no_edges-IsGraph (λ v i h. ground (arith, ring-slot v i, bit-zero i))
      (λ v h. omega (arith, ring_degree v))

abbrev bitmaps : GraphEdges → List ℕ
bitmaps edges =
    edges.neighbor_bitmaps 0
    ∷ edges.neighbor_bitmaps 1
    ∷ edges.neighbor_bitmaps 2
    ∷ edges.neighbor_bitmaps 3
    ∷ []

abbrev halves_of : Option Splitting → List ℕ × List ℕ
halves_of none = ([], [])
halves_of (some s) = (bitmaps s.edges_1, bitmaps s.edges_2)

-- The ring is split into two matchings.
ring-split :
    halves_of (split square ring no_edges no_edges) ≡ (1 ∷ 2 ∷ 1 ∷ 2 ∷ [], 2 ∷ 1 ∷ 2 ∷ 1 ∷ [])
unfolding split peel_loop peel_two has_neighbor split_edge is_consistent lowest bit
ring-split = refl

add_edge_example :
    (structure' : GraphStructure) × (edges' : GraphEdges) × (add_edge square ring 1 2
      ≡ some (structure', edges'))
    × Added square ring 1 2 structure' edges'
add_edge_example =
    add_edge_lem square ring 1 2 ring-IsGraph (omega arith) (omega arith) (omega arith)
      (omega (arith, ring_degree 1)) (omega (arith, ring_degree 2))

-- The steps for the degree 2: the graph 3 is split into the graphs 1 and 2.
abbrev kr_2 : Kr
kr_2 = record {
  degree = 2;
  num_steps = 1;
  steps = λ _. record { src_index = 3; dst1_index = 1; dst2_index = 2 };
}

abbrev unset : MatchingSet
unset = record { num_matchings = 0; matchings = λ _. all_with 9 }

solve_example :
    (solution : MatchingSet) × (solve kr_2 square ring rungs unset ≡ some solution)
    × (solution.num_matchings ≡ 3)
    × Coloring square
        (either ring rungs)
        (last_degrees kr_2 0 1 (first_degrees 2 3))
        solution.matchings
    × ((m : ℕ)
        → m < 48
        → last_degrees kr_2 0 1 (first_degrees 2 3) m ≡ 1
        → is_perfect_matching (solution.matchings m) 2 ≡ some true)
solve_example =
    solve_lem kr_2 square ring rungs unset (omega arith) (omega arith) (λ m v. omega arith)
      ring-IsGraph rungs-IsGraph (λ v _. ring_degree v) (λ v _. rungs_degree v)
      (λ v i h. ground (arith, ring-slot v i, rungs-slot v i))
      (
        record {
          src_lt = omega arith;
          dst1_lt = omega arith;
          dst2_lt = omega arith;
          ne_1 = refl;
          ne_2 = refl;
          ne_12 = refl;
          even = refl;
        },
        tt,
      )

-- The first three graphs of the solution have one edge at each vertex.
kr_2_degrees : (m : ℕ) → m < 3 → last_degrees kr_2 0 1 (first_degrees 2 3) m ≡ 1
kr_2_degrees m h = ground arith
