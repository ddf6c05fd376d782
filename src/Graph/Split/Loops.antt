-- ===== src/Graph/Split/Loops.antt =====
-- The loops of `split` come to their ends, with no edge left.
use fastpass.Base.{
  ℕ, zero, suc, ◌+◌, ◌*◌, ◌/◌, ◌%◌, ◌≤◌, ◌<◌, true, not, some, ltb, ◌==◌, ◌≡◌, refl, sym, subst, ap,
  ◌∙◌, arith, Bool-cases, inl, inr, ltb→lt,
}
use fastpass.Base.Count.{card-le_bound}
use fastpass.Base.Bits.{bit, bit_ext, bit-zero}
use fastpass.Graph.{GraphEdges, GraphStructure, has_neighbor}
use fastpass.Graph.Shape.{slot, other, other_index, IsGraph}
use fastpass.Graph.Degree.{degree, tally, degree_zero}
use fastpass.Graph.Split.{Splitting, peel_loop, split_loop}
use fastpass.Graph.Split.Deal.{remaining}
use fastpass.Graph.Split.Round.{Halfway, peel_two_lem}

abbrev pub Within : GraphEdges → GraphEdges → Type 0
Within edges edges' = (v i : ℕ) → slot edges v i ≡ true → slot edges' v i ≡ true

pub record Keeps (s s' : Splitting) : Type 0 where
  pub within : Within s'.edges_in s.edges_in
  pub kept_1 : Within s.edges_1 s'.edges_1
  pub kept_2 : Within s.edges_2 s'.edges_2

Keeps-refl : (s : Splitting) → Keeps s s
Keeps-refl s = record { within = λ v i on. on; kept_1 = λ v i on. on; kept_2 = λ v i on. on }

Keeps-trans : {s s' s'' : Splitting} → Keeps s s' → Keeps s' s'' → Keeps s s''
Keeps-trans p q = record {
  within = λ v i on. p.within v i (q.within v i on);
  kept_1 = λ v i on. q.kept_1 v i (p.kept_1 v i on);
  kept_2 = λ v i on. q.kept_2 v i (p.kept_2 v i on);
}

no_bits :
    (structure : GraphStructure) (edges : GraphEdges) (v : ℕ)
    → IsGraph structure edges
    → ((i : ℕ) → slot edges v i ≡ true → ⊥)
    → edges.neighbor_bitmaps v ≡ 0
no_bits structure edges v g none =
    bit_ext 64 (edges.neighbor_bitmaps v) 0 (g.fits v) (omega arith) λ i _.
      elim (Bool-cases (slot edges v i)) [
        | inl e ↦ absurd (none i e)
        | inr e ↦ e ∙ sym (bit-zero i)
      ]

pub bits_of_zero :
    (edges : GraphEdges) (v i : ℕ) → edges.neighbor_bitmaps v ≡ 0 → slot edges v i ≡ true → ⊥
bits_of_zero edges v i z on = cc (bit-zero i, ap (λ x. bit x i) z)

module _ (structure : GraphStructure) (small : structure.n ≤ 64) (start : GraphEdges)
    (base_1 base_2 : ℕ → ℕ) where
  module _ (node : ℕ) (node_lt : node < structure.n) where
    has_neighbor_run :
        (edges : GraphEdges)
        → has_neighbor edges node ≡ some (not (edges.neighbor_bitmaps node == 0))
    unfolding has_neighbor
    has_neighbor_run edges = ground arith

    -- The inner loop ends, with no edge left at the node.
    peel_loop_lem :
        (fuel : ℕ) (s : Splitting)
        → Halfway structure start base_1 base_2 node s
        → remaining structure.n s.edges_in < fuel
        → (s' : Splitting) × (peel_loop fuel structure node s ≡ some s')
          × Halfway structure start base_1 base_2 node s'
          × Keeps s s'
          × (s'.edges_in.neighbor_bitmaps node ≡ 0)
    unfolding peel_loop
    peel_loop_lem zero s h p = absurd (omega arith)
    peel_loop_lem (suc fuel) s h p = elim (Bool-cases (s.edges_in.neighbor_bitmaps node == 0)) [
      | inl e ↦ (s, rw (has_neighbor_run s.edges_in, e), h, Keeps-refl s, ground arith)
      | inr e ↦
          let (s_1, run, h_1, within, fewer, kept_1, kept_2) =
            peel_two_lem structure start base_1 base_2 node s h node_lt λ z. ground (arith, z) in
          let keeps : Keeps s s_1 = record { within = within; kept_1 = kept_1; kept_2 = kept_2 } in
          let (s_2, run_2, h_2, keeps_2, none) = peel_loop_lem fuel s_1 h_1 (omega arith) in
          (
            s_2,
            rw (has_neighbor_run s.edges_in, e, run) run_2,
            h_2,
            Keeps-trans keeps keeps_2,
            none,
          )
    ]

  -- What holds between two nodes.
  pub record Settled (s : Splitting) : Type 0 where
    pub graph_in : IsGraph structure s.edges_in
    pub graph_1 : IsGraph structure s.edges_1
    pub graph_2 : IsGraph structure s.edges_2
    pub shares :
        (v i : ℕ)
        → v < 2 * structure.n
        → tally (slot s.edges_in v i) + tally (slot s.edges_1 v i) + tally (slot s.edges_2 v i)
          ≡ tally (slot start v i)
    pub even : (v : ℕ) → v < 2 * structure.n → degree s.edges_in v % 2 ≡ 0
    pub balance :
        (v : ℕ)
        → v < 2 * structure.n
        → degree s.edges_1 v + base_2 v ≡ degree s.edges_2 v + base_1 v

  pub record Emptied (node : ℕ) (s : Splitting) : Type 0 where
    pub settled : Settled s
    pub empty : (v : ℕ) → v < node → s.edges_in.neighbor_bitmaps v ≡ 0

  start_node :
      (node : ℕ) (s : Splitting)
      → node < structure.n
      → Settled s
      → Halfway structure start base_1 base_2 node (record s { cur_node = node })
  start_node node s lt h = record {
    graph_in = h.graph_in;
    graph_1 = h.graph_1;
    graph_2 = h.graph_2;
    cur_lt = lt;
    shares = h.shares;
    even = λ v p. omega (arith, h.even v p);
    balance = λ v p. omega (arith, h.balance v p);
  }

  -- When the node has no edge left the path is back at it.
  back_at :
      (node : ℕ) (s : Splitting)
      → node < structure.n
      → Halfway structure start base_1 base_2 node s
      → s.edges_in.neighbor_bitmaps node ≡ 0
      → s.cur_node ≡ node
  back_at node s lt h z = ground (arith, h.even node (omega arith), degree_zero s.edges_in node z)

  settle :
      (node : ℕ) (s : Splitting)
      → node < structure.n
      → Halfway structure start base_1 base_2 node s
      → s.edges_in.neighbor_bitmaps node ≡ 0
      → Settled s
  settle node s lt h z = record {
    graph_in = h.graph_in;
    graph_1 = h.graph_1;
    graph_2 = h.graph_2;
    shares = h.shares;
    even = λ v p. ground (arith, h.even v p, back_at node s lt h z);
    balance = λ v p. ground (arith, h.balance v p, back_at node s lt h z);
  }

  Emptied-next :
      (node : ℕ) (s s' : Splitting)
      → Emptied node s
      → Settled s'
      → Within s'.edges_in s.edges_in
      → s'.edges_in.neighbor_bitmaps node ≡ 0
      → Emptied (node + 1) s'
  Emptied-next node s s' h settled within none = record {
    settled = settled;
    empty = λ v p. elim (Bool-cases (v == node)) [
      | inl e ↦ ap s'.edges_in.neighbor_bitmaps {x = v} {y = node} (ground arith) ∙ none
      | inr e ↦
          no_bits structure s'.edges_in v settled.graph_in
            λ i on. bits_of_zero s.edges_in v i (h.empty v (ground arith)) (within v i on)
    ];
  }

  Keeps-from :
      (node : ℕ) (s : Splitting) {s' s'' : Splitting}
      → Keeps (record s { cur_node = node }) s'
      → Keeps s' s''
      → Keeps s s''
  Keeps-from node s p q =
      let k = Keeps-trans p q in record { within = k.within; kept_1 = k.kept_1; kept_2 = k.kept_2 }

  pub split_loop_lem :
      (node k : ℕ) (s : Splitting)
      → node + k ≡ structure.n
      → Emptied node s
      → (s' : Splitting) × (split_loop structure node k s ≡ some s')
        × Emptied structure.n s'
        × Keeps s s'
  unfolding split_loop
  split_loop_lem node zero s e h =
      (s, refl, subst (λ n. Emptied n s) {x = node} {y = structure.n} (omega arith) h, Keeps-refl s)
  split_loop_lem node (suc k) s e h =
      let lt : node < structure.n = omega arith in
      let (s_1, run, h_1, keeps, none) =
        peel_loop_lem node lt (64 * structure.n + 1) (record s { cur_node = node })
          (start_node node s lt h.settled)
          (omega
            (arith, card-le_bound (λ m. slot s.edges_in (m / 64) (m % 64)) (64 * structure.n))) in
      let next = Emptied-next node s s_1 h (settle node s_1 lt h_1 none) keeps.within none in
      let (s_2, run_2, h_2, keeps_2) = split_loop_lem (node + 1) k s_1 (omega arith) next in
      (s_2, rw run run_2, h_2, Keeps-from node s keeps keeps_2)

  -- A graph without edges at the first side has none at the second.
  pub second_side :
      (s : Splitting)
      → Emptied structure.n s
      → (v : ℕ) → v < 2 * structure.n
      → s.edges_in.neighbor_bitmaps v ≡ 0
  second_side s h v lt = elim (Bool-cases (ltb v structure.n)) [
    | inl e ↦ h.empty v (ltb→lt v structure.n e)
    | inr e ↦ no_bits structure s.edges_in v h.settled.graph_in λ i on.
        let t = h.settled.graph_in.ends v i lt on in
        bits_of_zero s.edges_in (other structure v i) (other_index structure v i)
          (h.empty (other structure v i) (ground (arith, t.across)))
          (h.settled.graph_in.both v i lt on)
  ]
