-- ===== src/Graph/Split/Halves.antt =====
-- `split` deals the edges of a graph with even degrees out in halves.
use fastpass.Base.{ℕ, ◌+◌, ◌*◌, ◌%◌, ◌≤◌, ◌<◌, bit_or, some, ◌≡◌, ap, arith}
use fastpass.Base.Bits.{bit, bit-zero, bit-bit_or}
use fastpass.Graph.{GraphEdges, GraphStructure}
use fastpass.Graph.Shape.{slot, IsGraph}
use fastpass.Graph.Degree.{degree, tally, degree_zero, degree_sum}
use fastpass.Graph.Split.{Splitting, split}
use fastpass.Graph.Split.Loops.{Within, Emptied, split_loop_lem, second_side}

-- What `split` should make of `edges_in`: its edges are all in one of the two other graphs, which
-- keep the edges that they had, and to which each vertex has given half its degree.
pub record Halves (structure : GraphStructure) (edges_in edges_1 edges_2 : GraphEdges)
    (s : Splitting) : Type 0 where
  pub graph_in : IsGraph structure s.edges_in
  pub graph_1 : IsGraph structure s.edges_1
  pub graph_2 : IsGraph structure s.edges_2
  pub emptied : (v : ℕ) → v < 2 * structure.n → s.edges_in.neighbor_bitmaps v ≡ 0
  pub kept_1 : Within edges_1 s.edges_1
  pub kept_2 : Within edges_2 s.edges_2
  pub shares :
      (v i : ℕ)
      → v < 2 * structure.n
      → tally (slot s.edges_1 v i) + tally (slot s.edges_2 v i)
        ≡ tally (slot edges_in v i) + tally (slot edges_1 v i) + tally (slot edges_2 v i)
  pub half_1 :
      (v : ℕ)
      → v < 2 * structure.n
      → 2 * degree s.edges_1 v ≡ 2 * degree edges_1 v + degree edges_in v
  pub half_2 :
      (v : ℕ)
      → v < 2 * structure.n
      → 2 * degree s.edges_2 v ≡ 2 * degree edges_2 v + degree edges_in v

-- No edge is in two of three graphs.
abbrev pub Apart3 : GraphStructure → GraphEdges → GraphEdges → GraphEdges → Type 0
Apart3 structure a b c =
    (v i : ℕ)
    → v < 2 * structure.n
    → tally (slot a v i) + tally (slot b v i) + tally (slot c v i) ≤ 1

module _ (structure : GraphStructure) (edges_in edges_1 edges_2 : GraphEdges)
    (apart : Apart3 structure edges_in edges_1 edges_2) where
  union : GraphEdges
  union = record {
    neighbor_bitmaps = λ v.
        bit_or (edges_in.neighbor_bitmaps v)
          (bit_or (edges_1.neighbor_bitmaps v) (edges_2.neighbor_bitmaps v));
  }

  union_lem :
      (v i : ℕ)
      → v < 2 * structure.n
      → tally (slot edges_in v i) + tally (slot edges_1 v i) + tally (slot edges_2 v i)
        ≡ tally (slot union v i)
  unfolding union
  union_lem v i h = ground (
    arith,
    apart v i h,
    bit-bit_or (edges_in.neighbor_bitmaps v)
        (bit_or (edges_1.neighbor_bitmaps v) (edges_2.neighbor_bitmaps v)) i,
    bit-bit_or (edges_1.neighbor_bitmaps v) (edges_2.neighbor_bitmaps v) i,
  )

  module _ (small : structure.n ≤ 64) (s : Splitting)
      (h : Emptied structure small union (degree edges_1) (degree edges_2) structure.n s) where
    shared :
        (v i : ℕ)
        → v < 2 * structure.n
        → tally (slot s.edges_1 v i) + tally (slot s.edges_2 v i)
          ≡ tally (slot edges_in v i) + tally (slot edges_1 v i) + tally (slot edges_2 v i)
    shared v i p = ground (
      arith,
      h.settled.shares v i p,
      union_lem v i p,
      ap (λ x. bit x i)
          (second_side structure small union (degree edges_1) (degree edges_2) s h v p),
      bit-zero i,
    )

    sums :
        (v : ℕ)
        → v < 2 * structure.n
        → degree s.edges_1 v + degree s.edges_2 v
          ≡ degree edges_in v + degree edges_1 v + degree edges_2 v
    sums v p = omega (
      arith,
      degree_zero s.edges_in v
          (second_side structure small union (degree edges_1) (degree edges_2) s h v p),
      degree_sum s.edges_in s.edges_1 s.edges_2 union v λ i. h.settled.shares v i p,
      degree_sum edges_in edges_1 edges_2 union v λ i. union_lem v i p,
    )

-- split comes to its end, with no failed assertion, on a graph of at most 64 nodes with even degrees
-- and two other graphs of the same structure, if no edge is in two of them: each edge of the first is
-- then in one of the other two, which keep what they had and get half of each vertex's degree, and
-- none is left.
pub split_lem :
    (structure : GraphStructure) (edges_in edges_1 edges_2 : GraphEdges)
    → structure.n ≤ 64
    → IsGraph structure edges_in
    → IsGraph structure edges_1
    → IsGraph structure edges_2
    → Apart3 structure edges_in edges_1 edges_2
    → ((v : ℕ) → v < 2 * structure.n → degree edges_in v % 2 ≡ 0)
    → (s : Splitting) × (split structure edges_in edges_1 edges_2 ≡ some s)
      × Halves structure edges_in edges_1 edges_2 s
unfolding split
split_lem structure edges_in edges_1 edges_2 small g g_1 g_2 apart even =
    let (s, run, h, keeps) =
      split_loop_lem structure small (union structure edges_in edges_1 edges_2 apart)
        (degree edges_1) (degree edges_2) 0 structure.n
        (record { cur_node = 0; edges_in = edges_in; edges_1 = edges_1; edges_2 = edges_2 })
        (omega arith)
        (record {
          settled = record {
            graph_in = g;
            graph_1 = g_1;
            graph_2 = g_2;
            shares = union_lem structure edges_in edges_1 edges_2 apart;
            even = even;
            balance = λ v _. omega arith;
          };
          empty = λ v p. elim p [ ];
        }) in
    (
      s,
      run,
      record {
        graph_in = h.settled.graph_in;
        graph_1 = h.settled.graph_1;
        graph_2 = h.settled.graph_2;
        emptied =
            second_side structure small (union structure edges_in edges_1 edges_2 apart)
              (degree edges_1) (degree edges_2) s h;
        kept_1 = keeps.kept_1;
        kept_2 = keeps.kept_2;
        shares = shared structure edges_in edges_1 edges_2 apart small s h;
        half_1 = λ v p. omega (
          arith,
          sums structure edges_in edges_1 edges_2 apart small s h v p,
          h.settled.balance v p,
        );
        half_2 = λ v p. omega (
          arith,
          sums structure edges_in edges_1 edges_2 apart small s h v p,
          h.settled.balance v p,
        );
      },
    )
