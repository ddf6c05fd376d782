-- ===== src/Graph/Split/Round.antt =====
-- What holds between the rounds of `split`, and that a round keeps it.
use fastpass.Base.{
  ℕ, ◌+◌, ◌*◌, ◌/◌, ◌%◌, ◌≤◌, ◌<◌, true, false, some, ◌==◌, ◌≡◌, ◌≢◌, ap, ap₂, ◌∙◌, arith,
  Bool-cases, inl, inr,
}
use fastpass.Base.Count.{card_lt}
use fastpass.Base.Bits.Scan.{lowest}
use fastpass.Graph.{GraphEdges, GraphStructure}
use fastpass.Graph.Shape.{slot, IsGraph, is_consistent_lem}
use fastpass.Graph.Moves
use fastpass.Graph.Degree.{degree, tally, degree-left, degree_zero}
use fastpass.Graph.Split.{Splitting, peel_two}
use fastpass.Graph.Split.Deal.{
  rest, more, v, dealt_sum, dealt_degree, peel_two_of, swap_sum, even_next, balance_next, remaining,
  slot_kept,
}

-- Between two rounds for `node`: each edge of the graph that was to be split, `start`, is in one of
-- the three graphs; the path from `node` to the current vertex has used up one edge more of either,
-- if they differ; and the second graph got its last edge at the current vertex.
pub record Halfway (structure : GraphStructure) (start : GraphEdges) (base_1 base_2 : ℕ → ℕ)
    (node : ℕ) (s : Splitting) : Type 0 where
  pub graph_in : IsGraph structure s.edges_in
  pub graph_1 : IsGraph structure s.edges_1
  pub graph_2 : IsGraph structure s.edges_2
  pub cur_lt : s.cur_node < structure.n
  pub shares :
      (v i : ℕ)
      → v < 2 * structure.n
      → tally (slot s.edges_in v i) + tally (slot s.edges_1 v i) + tally (slot s.edges_2 v i)
        ≡ tally (slot start v i)
  pub even :
      (v : ℕ)
      → v < 2 * structure.n
      → (degree s.edges_in v + tally (v == s.cur_node) + tally (v == node)) % 2 ≡ 0
  pub balance :
      (v : ℕ)
      → v < 2 * structure.n
      → degree s.edges_1 v + base_2 v + tally (v == s.cur_node)
        ≡ degree s.edges_2 v + base_1 v + tally (v == node)

module _ (structure : GraphStructure) (start : GraphEdges) (base_1 base_2 : ℕ → ℕ) (node : ℕ)
    (s : Splitting) (h : Halfway structure start base_1 base_2 node s)
    (node_lt : node < structure.n) (more_in : s.edges_in.neighbor_bitmaps node ≢ 0) where
  lt : s.cur_node < 2 * structure.n
  lt = omega (arith, h.cur_lt)

  -- The path can go on from where it is.
  cur_more : s.edges_in.neighbor_bitmaps s.cur_node ≢ 0
  cur_more z = elim (Bool-cases (s.cur_node == node)) [
    | inl e ↦
        more_in (ap s.edges_in.neighbor_bitmaps {x = node} {y = s.cur_node} (ground arith) ∙ z)
    | inr e ↦ absurd (ground (arith, h.even s.cur_node lt, degree_zero s.edges_in s.cur_node z))
  ]

  abbrev mid : ℕ
  mid =
      v structure start s.edges_in s.edges_1 s.edges_2 h.graph_in h.graph_1 s.cur_node lt cur_more
        h.shares

  abbrev in_1 : GraphEdges
  in_1 =
      rest structure start s.edges_in s.edges_1 s.edges_2 h.graph_in h.graph_1 s.cur_node lt
        cur_more h.shares

  abbrev edges_1' : GraphEdges
  edges_1' =
      more structure start s.edges_in s.edges_1 s.edges_2 h.graph_in h.graph_1 s.cur_node lt
        cur_more h.shares

  in_1-IsGraph : IsGraph structure in_1
  in_1-IsGraph = Moves.left-IsGraph structure s.edges_in h.graph_in s.cur_node lt cur_more

  edges_1'-IsGraph : IsGraph structure edges_1'
  edges_1'-IsGraph =
      Moves.gained-IsGraph structure s.edges_in h.graph_in s.cur_node lt cur_more s.edges_1
        h.graph_1

  mid_lt : mid < 2 * structure.n
  mid_lt = Moves.end-lt structure s.edges_in h.graph_in s.cur_node lt cur_more

  mid_side : structure.n ≤ mid
  mid_side =
      ground
        (arith, h.cur_lt, Moves.end-across structure s.edges_in h.graph_in s.cur_node lt cur_more)

  less_1 :
      (w : ℕ) → degree in_1 w + tally (w == s.cur_node) + tally (w == mid) ≡ degree s.edges_in w
  less_1 = degree-left structure s.edges_in h.graph_in s.cur_node lt cur_more

  -- It can go on from the middle of a round too.
  mid_more : in_1.neighbor_bitmaps mid ≢ 0
  mid_more z = absurd (
      ground
        (arith, h.even mid mid_lt, degree_zero in_1 mid z, less_1 mid, mid_side, h.cur_lt, node_lt))

  sum_1 :
      (w k : ℕ)
      → w < 2 * structure.n
      → tally (slot in_1 w k) + tally (slot s.edges_2 w k) + tally (slot edges_1' w k)
        ≡ tally (slot start w k)
  sum_1 w k p = omega (
    arith,
    dealt_sum structure start s.edges_in s.edges_1 s.edges_2 h.graph_in h.graph_1 s.cur_node lt
        cur_more h.shares w k p,
  )

  abbrev new : ℕ
  new = v structure start in_1 s.edges_2 edges_1' in_1-IsGraph h.graph_2 mid mid_lt mid_more sum_1

  abbrev in_2 : GraphEdges
  in_2 =
      rest structure start in_1 s.edges_2 edges_1' in_1-IsGraph h.graph_2 mid mid_lt mid_more sum_1

  abbrev edges_2' : GraphEdges
  edges_2' =
      more structure start in_1 s.edges_2 edges_1' in_1-IsGraph h.graph_2 mid mid_lt mid_more sum_1

  in_2-IsGraph : IsGraph structure in_2
  in_2-IsGraph = Moves.left-IsGraph structure in_1 in_1-IsGraph mid mid_lt mid_more

  edges_2'-IsGraph : IsGraph structure edges_2'
  edges_2'-IsGraph =
      Moves.gained-IsGraph structure in_1 in_1-IsGraph mid mid_lt mid_more s.edges_2 h.graph_2

  less_2 : (w : ℕ) → degree in_2 w + tally (w == mid) + tally (w == new) ≡ degree in_1 w
  less_2 = degree-left structure in_1 in_1-IsGraph mid mid_lt mid_more

  more_1 :
      (w : ℕ) → degree edges_1' w ≡ degree s.edges_1 w + tally (w == s.cur_node) + tally (w == mid)
  more_1 =
      dealt_degree structure start s.edges_in s.edges_1 s.edges_2 h.graph_in h.graph_1 s.cur_node lt
        cur_more h.shares

  more_2 : (w : ℕ) → degree edges_2' w ≡ degree s.edges_2 w + tally (w == mid) + tally (w == new)
  more_2 =
      dealt_degree structure start in_1 s.edges_2 edges_1' in_1-IsGraph h.graph_2 mid mid_lt
        mid_more sum_1

  sum_2 :
      (w k : ℕ)
      → w < 2 * structure.n
      → tally (slot in_2 w k) + tally (slot edges_2' w k) + tally (slot edges_1' w k)
        ≡ tally (slot start w k)
  sum_2 =
      dealt_sum structure start in_1 s.edges_2 edges_1' in_1-IsGraph h.graph_2 mid mid_lt mid_more
        sum_1

  new_lt : new < structure.n
  new_lt =
      ground (arith, mid_side, Moves.end-across structure in_1 in_1-IsGraph mid mid_lt mid_more)

  abbrev next : Splitting
  next = record { cur_node = new; edges_in = in_2; edges_1 = edges_1'; edges_2 = edges_2' }

  -- No assertion fails in a round.
  peel_two_run : peel_two structure s ≡ some next
  peel_two_run =
      peel_two_of structure s mid new in_1 in_2 edges_1' edges_2'
        (Moves.split_edge_run structure s.edges_in h.graph_in s.cur_node lt cur_more s.edges_1)
        (is_consistent_lem structure in_1 in_1-IsGraph)
        (is_consistent_lem structure edges_1' edges_1'-IsGraph)
        (Moves.split_edge_run structure in_1 in_1-IsGraph mid mid_lt mid_more s.edges_2)
        (is_consistent_lem structure in_2 in_2-IsGraph)
        (is_consistent_lem structure edges_2' edges_2'-IsGraph)

  next-Halfway : Halfway structure start base_1 base_2 node next
  next-Halfway = record {
    graph_in = in_2-IsGraph;
    graph_1 = edges_1'-IsGraph;
    graph_2 = edges_2'-IsGraph;
    cur_lt = new_lt;
    shares = λ w k p. swap_sum _ _ _ _ (sum_2 w k p);
    even = λ w p. even_next _ _ _ _ _ _ _ (h.even w p) (less_1 w) (less_2 w);
    balance = λ w p. balance_next _ _ _ _ _ _ _ _ _ _ (h.balance w p) (more_1 w) (more_2 w);
  }

  -- An edge that is left was there before.
  slot-next : (w k : ℕ) → slot in_2 w k ≡ true → slot s.edges_in w k ≡ true
  slot-next w k on =
      slot_kept structure s.edges_in h.graph_in s.cur_node lt cur_more w k
        (slot_kept structure in_1 in_1-IsGraph mid mid_lt mid_more w k on)

  first : ℕ
  first = lowest 64 (s.edges_in.neighbor_bitmaps s.cur_node)

  -- The edge that the round began with is not.
  first_gone : slot in_2 s.cur_node first ≡ false
  unfolding first
  first_gone = ground (
    arith,
    Moves.slot-left structure s.edges_in h.graph_in s.cur_node lt cur_more s.cur_node first,
    slot_kept structure in_1 in_1-IsGraph mid mid_lt mid_more s.cur_node first,
  )

  -- A round leaves less edges at the first side.
  remaining-next : remaining structure.n in_2 < remaining structure.n s.edges_in
  unfolding first
  remaining-next =
      card_lt (λ m. slot in_2 (m / 64) (m % 64)) (λ m. slot s.edges_in (m / 64) (m % 64))
        (64 * s.cur_node + first) (64 * structure.n) (λ m _. slot-next (m / 64) (m % 64))
        (omega (arith, first_lt, h.cur_lt)) (at_place in_2 ∙ first_gone)
        (at_place s.edges_in ∙ first_there)
    where
      first_lt : first < 64
      first_lt = Moves.low-lt structure s.edges_in h.graph_in s.cur_node lt cur_more

      first_there : slot s.edges_in s.cur_node first ≡ true
      first_there = Moves.slot-low structure s.edges_in h.graph_in s.cur_node lt cur_more

      at_place :
          (edges : GraphEdges)
          → slot edges ((64 * s.cur_node + first) / 64) ((64 * s.cur_node + first) % 64)
            ≡ slot edges s.cur_node first
      at_place edges =
          ap₂ (slot edges) {x = (64 * s.cur_node + first) / 64} {y = s.cur_node}
            {u = (64 * s.cur_node + first) % 64} {v = first} (omega (arith, first_lt))
            (omega (arith, first_lt))

  -- A round goes well, and what holds between the rounds holds after it; no edge is new in the graph
  -- that is split, and it has less at the first side.
  pub peel_two_lem :
      (s' : Splitting) × (peel_two structure s ≡ some s')
      × Halfway structure start base_1 base_2 node s'
      × ((w k : ℕ) → slot s'.edges_in w k ≡ true → slot s.edges_in w k ≡ true)
      × (remaining structure.n s'.edges_in < remaining structure.n s.edges_in)
      × ((w k : ℕ) → slot s.edges_1 w k ≡ true → slot s'.edges_1 w k ≡ true)
      × ((w k : ℕ) → slot s.edges_2 w k ≡ true → slot s'.edges_2 w k ≡ true)
  peel_two_lem = (next, peel_two_run, next-Halfway, slot-next, remaining-next, still_1, still_2)
    where
      still_1 : (w k : ℕ) → slot s.edges_1 w k ≡ true → slot edges_1' w k ≡ true
      still_1 w k on = ground (
        arith,
        Moves.slot-gained structure s.edges_in h.graph_in s.cur_node lt cur_more s.edges_1 h.graph_1
            w k,
      )

      still_2 : (w k : ℕ) → slot s.edges_2 w k ≡ true → slot edges_2' w k ≡ true
      still_2 w k on = ground (
        arith,
        Moves.slot-gained structure in_1 in_1-IsGraph mid mid_lt mid_more s.edges_2 h.graph_2 w k,
      )
