-- ===== src/Graph/KapoorRizzi/Step.antt =====
-- One step: the degrees of three graphs change, and each edge stays in one graph.
use fastpass.Base.{
  ℕ, ◌+◌, ◌*◌, ◌/◌, ◌%◌, ◌≤◌, ◌<◌, Bool, true, false, ◌&&◌, ◌||◌, some, ◌==◌, if◌then◌else◌, ◌≡◌,
  ◌≢◌, refl, ap, ◌∙◌, arith, Bool-cases, if_both, inl, inr,
}
use fastpass.Base.Bits.{bit, bit-zero}
use fastpass.Graph.{GraphEdges, GraphStructure}
use fastpass.Graph.Shape.{slot, IsGraph}
use fastpass.Graph.Degree.{degree, degree_zero}
use fastpass.Graph.Split.{Splitting, split}
use fastpass.Graph.Split.Halves.{Halves, Apart3, split_lem}
use fastpass.Graph.KapoorRizzi.{KrStep, run_step, set_matching}

-- The graphs of a solution: each is regular with its degree, and each edge of `start` is in exactly
-- one of them.
pub record Coloring (structure : GraphStructure) (start : ℕ → ℕ → Bool) (degrees : ℕ → ℕ)
    (matchings : ℕ → GraphEdges) : Type 0 where
  pub graph : (m : ℕ) → m < 48 → IsGraph structure (matchings m)
  pub regular : (m v : ℕ) → m < 48 → v < 2 * structure.n → degree (matchings m) v ≡ degrees m
  pub apart :
      (m m' v i : ℕ)
      → m ≢ m'
      → m < 48
      → m' < 48
      → v < 2 * structure.n
      → slot (matchings m) v i ≡ true
      → slot (matchings m') v i ≡ false
  pub within :
      (m v i : ℕ) → m < 48 → v < 2 * structure.n → slot (matchings m) v i ≡ true → start v i ≡ true
  pub covers :
      (v i : ℕ)
      → v < 2 * structure.n
      → start v i ≡ true
      → (m : ℕ) × (m < 48) × (slot (matchings m) v i ≡ true)

-- A step that fits the degrees: three graphs of the solution, the first with an even degree.
pub record IsStep (step : KrStep) (degrees : ℕ → ℕ) : Type 0 where
  pub src_lt : step.src_index < 48
  pub dst1_lt : step.dst1_index < 48
  pub dst2_lt : step.dst2_index < 48
  pub ne_1 : (step.src_index == step.dst1_index) ≡ false
  pub ne_2 : (step.src_index == step.dst2_index) ≡ false
  pub ne_12 : (step.dst1_index == step.dst2_index) ≡ false
  pub even : degrees step.src_index % 2 ≡ 0

-- The degrees after a step: half of the first graph's goes to each of the others.
abbrev pub step_degrees : KrStep → (ℕ → ℕ) → ℕ → ℕ
step_degrees step degrees m =
    if m == step.src_index
    then 0
    else if (m == step.dst1_index) || (m == step.dst2_index)
    then degrees m + degrees step.src_index / 2
    else degrees m

module _ (structure : GraphStructure) (small : structure.n ≤ 64) (start : ℕ → ℕ → Bool)
    (degrees : ℕ → ℕ) (matchings : ℕ → GraphEdges) (c : Coloring structure start degrees matchings)
    (step : KrStep) (ok : IsStep step degrees) where
  abbrev a : ℕ
  a = step.src_index

  abbrev b : ℕ
  b = step.dst1_index

  abbrev d : ℕ
  d = step.dst2_index

  ne_ab : a ≢ b
  ne_ab e = ground (arith, ok.ne_1, e)

  ne_ad : a ≢ d
  ne_ad e = ground (arith, ok.ne_2, e)

  ne_bd : b ≢ d
  ne_bd e = ground (arith, ok.ne_12, e)

  apart3 : Apart3 structure (matchings a) (matchings b) (matchings d)
  apart3 v i h = ground (
    arith,
    c.apart a b v i ne_ab ok.src_lt ok.dst1_lt h,
    c.apart a d v i ne_ad ok.src_lt ok.dst2_lt h,
    c.apart b d v i ne_bd ok.dst1_lt ok.dst2_lt h,
  )

  halved :
      (s : Splitting) × (split structure (matchings a) (matchings b) (matchings d) ≡ some s)
      × Halves structure (matchings a) (matchings b) (matchings d) s
  halved =
      split_lem structure (matchings a) (matchings b) (matchings d) small (c.graph a ok.src_lt)
        (c.graph b ok.dst1_lt) (c.graph d ok.dst2_lt) apart3
        λ v h. omega (arith, c.regular a v ok.src_lt h, ok.even)

  module _ (s : Splitting) (h : Halves structure (matchings a) (matchings b) (matchings d) s) where
    abbrev next : ℕ → GraphEdges
    next = set_matching (set_matching (set_matching matchings a s.edges_in) b s.edges_1) d s.edges_2

    gone : (v i : ℕ) → v < 2 * structure.n → slot s.edges_in v i ≡ false
    gone v i p = ap (λ x. bit x i) (h.emptied v p) ∙ bit-zero i

    same : (m x v i : ℕ) → (m == x) ≡ true → slot (matchings m) v i ≡ slot (matchings x) v i
    same m x v i e = ap (λ k. slot (matchings k) v i) (ground arith)

    next_b : (m v i : ℕ) → (m == b) ≡ true → slot (next m) v i ≡ slot s.edges_1 v i
    next_b m v i e = ground (arith, ok.ne_12)

    next_d : (m v i : ℕ) → (m == d) ≡ true → slot (next m) v i ≡ slot s.edges_2 v i
    next_d m v i e = ground arith

    next_a : (m v i : ℕ) → (m == a) ≡ true → slot (next m) v i ≡ slot s.edges_in v i
    next_a m v i e = ground (arith, ok.ne_1, ok.ne_2)

    next_other :
        (m v i : ℕ)
        → (m == a) ≡ false
        → (m == b) ≡ false
        → (m == d) ≡ false
        → slot (next m) v i ≡ slot (matchings m) v i
    next_other m v i p q r = ground arith

    -- An edge of a graph was there before, or comes from the graph that was split.
    came :
        (m v i : ℕ)
        → v < 2 * structure.n
        → slot (next m) v i ≡ true
        → ((m == a) ≡ false)
          × ((slot (matchings m) v i || slot (matchings a) v i && (m == b || m == d)) ≡ true)
    came m v i p on = ground (
      arith,
      ok.ne_1,
      ok.ne_2,
      gone v i p,
      h.shares v i p,
      h.kept_1 v i,
      h.kept_2 v i,
      same m b v i,
      same m d v i,
      next_a m v i,
      next_b m v i,
      next_d m v i,
      next_other m v i,
    )

    both_halves :
        (v i : ℕ) → v < 2 * structure.n → slot s.edges_1 v i ≡ true → slot s.edges_2 v i ≡ true → ⊥
    both_halves v i p x y = ground (arith, h.shares v i p, apart3 v i p)

    next-apart :
        (m m' v i : ℕ)
        → m ≢ m'
        → m < 48
        → m' < 48
        → v < 2 * structure.n
        → slot (next m) v i ≡ true
        → slot (next m') v i ≡ true
        → ⊥
    next-apart m m' v i ne lt lt' p on on' =
        let x = came m v i p on in
        let y = came m' v i p on' in
        ground (
          arith,
          x.0,
          x.1,
          y.0,
          y.1,
          c.apart m m' v i ne lt lt' p,
          c.apart m a v i (λ e. ground (arith, x.0, e)) lt ok.src_lt p,
          c.apart m' a v i (λ e. ground (arith, y.0, e)) lt' ok.src_lt p,
          both_halves v i p,
          next_b m v i,
          next_b m' v i,
          next_d m v i,
          next_d m' v i,
        )

    next-covers :
        (v i : ℕ)
        → v < 2 * structure.n
        → start v i ≡ true
        → (m : ℕ) × (m < 48) × (slot (next m) v i ≡ true)
    next-covers v i p on =
        let (m, lt, e) = c.covers v i p on in
        elim (Bool-cases (m == a)) [
          | inl at_a ↦ elim (Bool-cases (slot s.edges_1 v i)) [
            | inl x ↦ (b, ok.dst1_lt, next_b b v i (ground arith) ∙ x)
            | inr y ↦ (
              d,
              ok.dst2_lt,
              next_d d v i (ground arith) ∙ ground (arith, y, h.shares v i p, same m a v i at_a),
            )
          ]
          | inr other ↦ (
            m,
            lt,
            ground (
              arith,
              other,
              e,
              next_b m v i,
              next_d m v i,
              h.kept_1 v i,
              h.kept_2 v i,
              same m b v i,
              same m d v i,
            ),
          )
        ]

    next-regular :
        (m v : ℕ) → m < 48 → v < 2 * structure.n → degree (next m) v ≡ step_degrees step degrees m
    next-regular m v lt p = ground (
      arith,
      ok.ne_1,
      ok.ne_2,
      ok.ne_12,
      ok.even,
      degree_zero s.edges_in v (h.emptied v p),
      h.half_1 v p,
      h.half_2 v p,
      c.regular a v ok.src_lt p,
      c.regular b v ok.dst1_lt p,
      c.regular d v ok.dst2_lt p,
      c.regular m v lt p,
      ap degrees {x = m} {y = b},
      ap degrees {x = m} {y = d},
    )

    next-IsGraph : (m : ℕ) → m < 48 → IsGraph structure (next m)
    next-IsGraph m lt = if_both (IsGraph structure) (m == d) s.edges_2 _ h.graph_2 (
        if_both (IsGraph structure) (m == b) s.edges_1 _ h.graph_1
          (if_both (IsGraph structure) (m == a) s.edges_in (matchings m) h.graph_in (c.graph m lt)))

    next-Coloring : Coloring structure start (step_degrees step degrees) next
    next-Coloring = record {
      graph = next-IsGraph;
      regular = next-regular;
      apart = λ m m' v i ne lt lt' p on. elim (Bool-cases (slot (next m') v i)) [
        | inl e ↦ absurd (next-apart m m' v i ne lt lt' p on e)
        | inr e ↦ e
      ];
      within = λ m v i lt p on.
          let x = came m v i p on in
          ground (arith, x.1, c.within m v i lt p, c.within a v i ok.src_lt p);
      covers = next-covers;
    }

  -- A step that fits the degrees runs, and gives the graphs that its degrees say.
  pub run_step_lem :
      (matchings' : ℕ → GraphEdges) × (run_step structure step matchings ≡ some matchings')
      × Coloring structure start (step_degrees step degrees) matchings'
  unfolding run_step
  run_step_lem = let (s, run, h) = halved in (next s h, rw run refl, next-Coloring s h)
