-- ===== src/Graph/KapoorRizzi/Runs.antt =====
-- The loops of solve: the graphs are emptied, and the steps run.
use fastpass.Base.{
  ℕ, zero, suc, ◌+◌, ◌*◌, ◌≤◌, ◌<◌, Bool, false, some, ◌==◌, if◌then◌else◌, ◌≡◌, refl, ap, ◌∙◌,
  arith, Bool-cases, if_both, inl, inr,
}
use fastpass.Graph.{GraphEdges, GraphStructure}
use fastpass.Graph.Unions.{Fits, graph_edges_init_lem}
use fastpass.Graph.KapoorRizzi.{Kr, run_steps, init_matchings, set_matching}
use fastpass.Graph.KapoorRizzi.Step.{Coloring, IsStep, step_degrees, run_step_lem}

-- The steps from `i` on, `k` of them, fit the degrees that the steps before them leave.
abbrev pub AreSteps : Kr → ℕ → ℕ → (ℕ → ℕ) → Type 0
AreSteps kr i zero degrees = Unit
AreSteps kr i (suc k) degrees =
    IsStep (kr.steps i) degrees × AreSteps kr (i + 1) k (step_degrees (kr.steps i) degrees)

abbrev pub last_degrees : Kr → ℕ → ℕ → (ℕ → ℕ) → ℕ → ℕ
last_degrees kr i zero degrees = degrees
last_degrees kr i (suc k) degrees = last_degrees kr (i + 1) k (step_degrees (kr.steps i) degrees)

pub run_steps_lem :
    (structure : GraphStructure) (kr : Kr) (start : ℕ → ℕ → Bool) (i k : ℕ) (degrees : ℕ → ℕ)
    (matchings : ℕ → GraphEdges)
    → structure.n ≤ 64
    → Coloring structure start degrees matchings
    → AreSteps kr i k degrees
    → (matchings' : ℕ → GraphEdges) × (run_steps structure kr i k matchings ≡ some matchings')
      × Coloring structure start (last_degrees kr i k degrees) matchings'
unfolding run_steps
run_steps_lem structure kr start i zero degrees matchings small c ok = (matchings, refl, c)
run_steps_lem structure kr start i (suc k) degrees matchings small c ok =
    let (matchings_1, run, c_1) =
      run_step_lem structure small start degrees matchings c (kr.steps i) ok.0 in
    let (matchings_2, run_2, c_2) =
      run_steps_lem structure kr start (i + 1) k (step_degrees (kr.steps i) degrees) matchings_1
        small c_1 ok.1 in
    (matchings_2, rw run run_2, c_2)

pub init_matchings_lem :
    (structure : GraphStructure) (i k : ℕ) (matchings : ℕ → GraphEdges)
    → structure.n ≤ 64
    → ((m : ℕ) → Fits (matchings m))
    → (matchings' : ℕ → GraphEdges) × (init_matchings structure i k matchings ≡ some matchings')
      × ((m : ℕ) → Fits (matchings' m))
      × ((m v : ℕ)
          → i ≤ m
          → m < i + k
          → v < 2 * structure.n
          → (matchings' m).neighbor_bitmaps v ≡ 0)
      × ((m : ℕ) → m < i → matchings' m ≡ matchings m)
unfolding init_matchings
init_matchings_lem structure i zero matchings small f =
    (matchings, refl, f, λ m v p q _. absurd (omega arith), λ m p. refl)
init_matchings_lem structure i (suc k) matchings small f =
    let (edges, run, fits, zeros) = graph_edges_init_lem (matchings i) structure.n small (f i) in
    let (matchings', run', fits', zeros', kept) =
      init_matchings_lem structure (i + 1) k (set_matching matchings i edges) small
        λ m. if_both Fits (m == i) edges (matchings m) fits (f m) in
    (
      matchings',
      rw run run',
      fits',
      λ m v p q r. elim (Bool-cases (m == i)) [
        | inl e ↦
            ap (λ (g : GraphEdges). g.neighbor_bitmaps v)
              (kept m (ground arith) ∙ ap (λ b. if b then edges else matchings m) e)
            ∙ zeros v r
        | inr e ↦ zeros' m v (ground arith) (omega arith) r
      ],
      λ m p.
          kept m (omega arith)
          ∙ ap (λ b. if b then edges else matchings m) {x = m == i} {y = false} (ground arith),
    )
