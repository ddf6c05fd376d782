-- ===== src/Graph/KapoorRizzi/Solution.antt =====
-- solve: a list of steps that fits the degrees runs to its end, and the solution has the degrees
-- that the steps say.
use fastpass.Base.{
  ℕ, ◌+◌, ◌*◌, ◌%◌, ◌≤◌, ◌<◌, Bool, true, false, ◌&&◌, ◌||◌, some, ◌==◌, if◌then◌else◌, ◌≡◌, refl,
  ap, ◌∙◌, arith, Bool-cases, if_both, inl, inr,
}
use fastpass.Base.Bits.{bit, bit-zero}
use fastpass.Graph.{GraphEdges, GraphStructure}
use fastpass.Graph.Edges.{add_edges, is_perfect_matching}
use fastpass.Graph.Shape.{slot, IsGraph}
use fastpass.Graph.Degree.{degree, degree_zero, degree_same}
use fastpass.Graph.Unions.{Fits, add_edges_lem, IsGraph-slots, is_perfect_matching_lem}
use fastpass.Graph.KapoorRizzi.{Kr, MatchingSet, run_steps, init_matchings, solve, set_matching}
use fastpass.Graph.KapoorRizzi.Step.{Coloring}
use fastpass.Graph.KapoorRizzi.Runs.{AreSteps, last_degrees, run_steps_lem, init_matchings_lem}

abbrev pub either : GraphEdges → GraphEdges → ℕ → ℕ → Bool
either a b v i = slot a v i || slot b v i

-- The degrees of the graphs before the first step.
abbrev pub first_degrees : ℕ → ℕ → ℕ → ℕ
first_degrees degree num m = if m == 0 then 1 else if m == num then degree else 0

-- The graphs before the first step.
module _ (structure : GraphStructure) (edges_in edges_arbitrary : GraphEdges) (d num : ℕ)
    (g : IsGraph structure edges_in) (g' : IsGraph structure edges_arbitrary)
    (regular : (v : ℕ) → v < 2 * structure.n → degree edges_in v ≡ d)
    (one : (v : ℕ) → v < 2 * structure.n → degree edges_arbitrary v ≡ 1)
    (apart : (v i : ℕ)
      → v < 2 * structure.n
      → (slot edges_in v i && slot edges_arbitrary v i) ≡ false)
    (pos : 0 < num) (num_lt : num < 48) (empty : ℕ → GraphEdges) (fits : (m : ℕ) → Fits (empty m))
    (zeros : (m v : ℕ) → m < 48 → v < 2 * structure.n → (empty m).neighbor_bitmaps v ≡ 0) where
  no_slot : (m v i : ℕ) → m < 48 → v < 2 * structure.n → slot (empty m) v i ≡ false
  no_slot m v i h p = ap (λ x. bit x i) (zeros m v h p) ∙ bit-zero i

  record IsCopy (edges copy : GraphEdges) : Type 0 where
    fit : Fits copy
    slots : (v i : ℕ) → v < 2 * structure.n → slot copy v i ≡ slot edges v i

  copied :
      (m : ℕ) (edges : GraphEdges)
      → m < 48
      → IsGraph structure edges
      → (copy : GraphEdges) × (add_edges (empty m) edges structure.n ≡ some copy)
        × IsCopy edges copy
  copied m edges h e =
      let (copy, run, fit, all) =
        add_edges_lem edges e.fits (empty m) structure.n (fits m)
          λ v i p. ground (arith, no_slot m v i h p) in
      (
        copy,
        run,
        record { fit = fit; slots = λ v i p. all v i p ∙ ground (arith, no_slot m v i h p) },
      )

  module _ (input arbitrary : GraphEdges) (c : IsCopy edges_in input)
      (c' : IsCopy edges_arbitrary arbitrary) where
    abbrev loaded : ℕ → GraphEdges
    loaded = set_matching (set_matching empty num input) 0 arbitrary

    slot-loaded :
        (m v i : ℕ)
        → m < 48
        → v < 2 * structure.n
        → slot (loaded m) v i ≡ (
            if m == 0
            then slot edges_arbitrary v i
            else if m == num
            then slot edges_in v i
            else false)
    slot-loaded m v i h p = elim (Bool-cases (m == 0)) [
      | inl e ↦ rw e (c'.slots v i p)
      | inr e ↦ elim (Bool-cases (m == num)) [
        | inl e' ↦ rw (e, e') (c.slots v i p)
        | inr e' ↦ rw (e, e') (no_slot m v i h p)
      ]
    ]

    empty-IsGraph : (m : ℕ) → m < 48 → IsGraph structure (empty m)
    empty-IsGraph m h = record {
      fits = fits m;
      ends = λ v i p on. cc (no_slot m v i h p);
      both = λ v i p on. cc (no_slot m v i h p);
    }

    degree-loaded :
        (m v : ℕ) → m < 48 → v < 2 * structure.n → degree (loaded m) v ≡ first_degrees d num m
    degree-loaded m v h p = elim (Bool-cases (m == 0)) [
      | inl e ↦ rw e (degree_same edges_arbitrary arbitrary v (λ i. c'.slots v i p) ∙ one v p)
      | inr e ↦ elim (Bool-cases (m == num)) [
        | inl e' ↦ rw (e, e') (degree_same edges_in input v (λ i. c.slots v i p) ∙ regular v p)
        | inr e' ↦ rw (e, e') (degree_zero (empty m) v (zeros m v h p))
      ]
    ]

    loaded-Coloring :
        Coloring structure (either edges_in edges_arbitrary) (first_degrees d num) loaded
    loaded-Coloring = record {
      graph = λ m h.
          if_both (IsGraph structure) (m == 0) arbitrary _
            (IsGraph-slots structure edges_arbitrary arbitrary g' c'.fit c'.slots)
            (if_both (IsGraph structure) (m == num) input (empty m)
              (IsGraph-slots structure edges_in input g c.fit c.slots) (empty-IsGraph m h));
      regular = degree-loaded;
      apart = λ m m' v i ne h h' p on.
          ground (arith, on, ne, slot-loaded m v i h p, slot-loaded m' v i h' p, apart v i p);
      within = λ m v i h p on. ground (arith, on, slot-loaded m v i h p);
      covers = λ v i p on. elim (Bool-cases (slot edges_in v i)) [
        | inl e ↦ (num, num_lt, slot-loaded num v i num_lt p ∙ ground arith)
        | inr e ↦ (0, omega arith, slot-loaded 0 v i (omega arith) p ∙ ground arith)
      ];
    }

solve_of :
    (kr : Kr) (structure : GraphStructure) (edges_in edges_arbitrary : GraphEdges)
    (solution : MatchingSet) (num : ℕ) (empty matchings : ℕ → GraphEdges)
    (input arbitrary : GraphEdges)
    → ((kr.degree + 1) % 256) ≡ num
    → init_matchings structure 0 48 solution.matchings ≡ some empty
    → add_edges (empty num) edges_in structure.n ≡ some input
    → set_matching empty num input 0 ≡ empty 0
    → add_edges (empty 0) edges_arbitrary structure.n ≡ some arbitrary
    → run_steps structure kr 0 kr.num_steps
        (set_matching (set_matching empty num input) 0 arbitrary)
      ≡ some matchings
    → solve kr structure edges_in edges_arbitrary solution
      ≡ some (record { num_matchings = num; matchings = matchings })
unfolding solve
solve_of kr structure edges_in edges_arbitrary solution num empty matchings input arbitrary a b c d
      e h =
    rw (a, b, c, d, e, h) refl

-- solve on a graph of at most 64 nodes that is regular of the degree that the steps are made for, at
-- most 46, and a perfect matching that has no edge in common with it, with steps that fit the degrees:
-- it comes to its end, each edge of the graph and of the matching is in exactly one graph of the
-- solution, and these are regular with the degrees that the steps leave; those with degree 1 pass
-- the test of a perfect matching.
pub solve_lem :
    (kr : Kr) (structure : GraphStructure) (edges_in edges_arbitrary : GraphEdges)
    (solution : MatchingSet)
    → structure.n ≤ 64
    → kr.degree + 1 < 48
    → ((m : ℕ) → Fits (solution.matchings m))
    → IsGraph structure edges_in
    → IsGraph structure edges_arbitrary
    → ((v : ℕ) → v < 2 * structure.n → degree edges_in v ≡ kr.degree)
    → ((v : ℕ) → v < 2 * structure.n → degree edges_arbitrary v ≡ 1)
    → ((v i : ℕ) → v < 2 * structure.n → (slot edges_in v i && slot edges_arbitrary v i) ≡ false)
    → AreSteps kr 0 kr.num_steps (first_degrees kr.degree (kr.degree + 1))
    → (solution' : MatchingSet) × (solve kr structure edges_in edges_arbitrary solution
        ≡ some solution')
      × (solution'.num_matchings ≡ kr.degree + 1)
      × Coloring structure
          (either edges_in edges_arbitrary)
          (last_degrees kr 0 kr.num_steps (first_degrees kr.degree (kr.degree + 1)))
          solution'.matchings
      × ((m : ℕ)
          → m < 48
          → last_degrees kr 0 kr.num_steps (first_degrees kr.degree (kr.degree + 1)) m ≡ 1
          → is_perfect_matching (solution'.matchings m) structure.n ≡ some true)
solve_lem kr structure edges_in edges_arbitrary solution small lt f g g' regular one apart ok =
    let num = kr.degree + 1 in
    let (empty, run_0, fits, zeros, _) =
      init_matchings_lem structure 0 48 solution.matchings small f in
    let zeros' : (m v : ℕ) → m < 48 → v < 2 * structure.n → (empty m).neighbor_bitmaps v ≡ 0 =
      λ m v h p. zeros m v (omega arith) h p in
    let pos : 0 < num = omega arith in
    let (input, run_1, c) =
      copied structure edges_in edges_arbitrary kr.degree num g g' regular one apart pos lt empty
        fits zeros' num edges_in lt g in
    let (arbitrary, run_2, c') =
      copied structure edges_in edges_arbitrary kr.degree num g g' regular one apart pos lt empty
        fits zeros' 0 edges_arbitrary (omega arith) g' in
    let (matchings, run_3, colored) =
      run_steps_lem structure kr (either edges_in edges_arbitrary) 0 kr.num_steps
        (first_degrees kr.degree num) (set_matching (set_matching empty num input) 0 arbitrary)
        small
        (loaded-Coloring structure edges_in edges_arbitrary kr.degree num g g' regular one apart pos
          lt empty fits zeros' input arbitrary c c')
        ok in
    (
      record { num_matchings = num; matchings = matchings },
      solve_of kr structure edges_in edges_arbitrary solution num empty matchings input arbitrary
          (omega arith) run_0 run_1 (ground arith) run_2 run_3,
      refl,
      colored,
      λ m h one.
          is_perfect_matching_lem (matchings m) (colored.graph m h).fits structure.n small
            λ v p. colored.regular m v h p ∙ one,
    )
