-- ===== src/Graph/Split/Deal.antt =====
-- An edge that goes from one graph to another, and the sums of a round of `split`.
use fastpass.Base.{ℕ, ◌+◌, ◌*◌, ◌/◌, ◌%◌, ◌<◌, true, false, some, ◌==◌, ◌≡◌, ◌≢◌, arith}
use fastpass.Base.Count.{card}
use fastpass.Graph.{GraphEdges, GraphStructure, split_edge}
use fastpass.Graph.Shape.{slot, slot-lt, IsGraph}
use fastpass.Graph.Edges.{is_consistent}
use fastpass.Graph.Moves
use fastpass.Graph.Degree.{degree, tally, degree-joined}
use fastpass.Graph.Split.{Splitting, peel_two}

-- An edge goes from one graph to another.
module _ (structure : GraphStructure) (start edges others third : GraphEdges)
    (g : IsGraph structure edges) (o : IsGraph structure others) (u : ℕ) (lt : u < 2 * structure.n)
    (ne : edges.neighbor_bitmaps u ≢ 0)
    (sum : (v i : ℕ)
      → v < 2 * structure.n
      → tally (slot edges v i) + tally (slot others v i) + tally (slot third v i)
        ≡ tally (slot start v i)) where
  abbrev pub i : ℕ
  i = Moves.low structure edges g u lt ne

  abbrev pub v : ℕ
  v = Moves.end structure edges g u lt ne

  abbrev pub j : ℕ
  j = Moves.end_index structure edges g u lt ne

  abbrev pub rest : GraphEdges
  rest = Moves.left structure edges g u lt ne

  abbrev pub more : GraphEdges
  more = Moves.gained structure edges g u lt ne others

  pub free_u : slot others u i ≡ false
  free_u = ground (arith, sum u i lt, Moves.slot-low structure edges g u lt ne)

  pub free_v : slot others v j ≡ false
  free_v = ground (
    arith,
    sum v j (Moves.end-lt structure edges g u lt ne),
    Moves.slot-end structure edges g u lt ne,
  )

  pub dealt_sum :
      (w k : ℕ)
      → w < 2 * structure.n
      → tally (slot rest w k) + tally (slot more w k) + tally (slot third w k)
        ≡ tally (slot start w k)
  dealt_sum w k h = ground (
    arith,
    sum w k h,
    Moves.slot-left structure edges g u lt ne w k,
    Moves.slot-gained structure edges g u lt ne others o w k,
    Moves.slot-taken structure edges g u lt ne w k,
  )

  pub dealt_degree : (w : ℕ) → degree more w ≡ degree others w + tally (w == u) + tally (w == v)
  dealt_degree =
      degree-joined others u i v j (Moves.end-ne structure edges g u lt ne)
        (Moves.low-lt structure edges g u lt ne)
        (slot-lt structure edges g v j (Moves.slot-end structure edges g u lt ne)) o.fits free_u
        free_v

pub peel_two_of :
    (structure : GraphStructure) (s : Splitting) (mid new : ℕ)
    (in_1 in_2 edges_1 edges_2 : GraphEdges)
    → split_edge structure s.edges_in s.edges_1 s.cur_node ≡ some (mid, in_1, edges_1)
    → is_consistent structure in_1 ≡ true
    → is_consistent structure edges_1 ≡ true
    → split_edge structure in_1 s.edges_2 mid ≡ some (new, in_2, edges_2)
    → is_consistent structure in_2 ≡ true
    → is_consistent structure edges_2 ≡ true
    → peel_two structure s
      ≡ some (record { cur_node = new; edges_in = in_2; edges_1 = edges_1; edges_2 = edges_2 })
unfolding peel_two
peel_two_of structure s mid new in_1 in_2 edges_1 edges_2 a b c d e f = rw (a, b, c, d, e, f)

pub swap_sum : (a b c d : ℕ) → a + b + c ≡ d → a + c + b ≡ d
swap_sum a b c d h = omega arith

pub even_next :
    (d d_1 d_2 cur mid new node : ℕ)
    → (d + cur + node) % 2 ≡ 0
    → d_1 + cur + mid ≡ d
    → d_2 + mid + new ≡ d_1
    → (d_2 + new + node) % 2 ≡ 0
even_next d d_1 d_2 cur mid new node p q r = omega arith

pub balance_next :
    (b_1 b_2 d_1 d_2 e_1 e_2 cur mid new node : ℕ)
    → d_1 + b_2 + cur ≡ d_2 + b_1 + node
    → e_1 ≡ d_1 + cur + mid
    → e_2 ≡ d_2 + mid + new
    → e_1 + b_2 + new ≡ e_2 + b_1 + node
balance_next b_1 b_2 d_1 d_2 e_1 e_2 cur mid new node p q r = omega arith

-- How many edges there are at the first `n` vertices.
abbrev pub remaining : ℕ → GraphEdges → ℕ
remaining n edges = card (λ m. slot edges (m / 64) (m % 64)) (64 * n)

pub slot_kept :
    (structure : GraphStructure) (edges : GraphEdges) (g : IsGraph structure edges) (u : ℕ)
    (lt : u < 2 * structure.n) (ne : edges.neighbor_bitmaps u ≢ 0) (w k : ℕ)
    → slot (Moves.left structure edges g u lt ne) w k ≡ true
    → slot edges w k ≡ true
slot_kept structure edges g u lt ne w k on =
    ground (arith, Moves.slot-left structure edges g u lt ne w k)
