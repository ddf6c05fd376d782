-- ===== src/Graph/KapoorRizzi.antt =====
-- src/graph-algo/kapoor_rizzi.c: a list of Euler splits, made for one degree, that colours the edges
-- of every regular graph of that degree.
--
-- The graphs of a solution are a function of their index. A step's three graphs are three objects,
-- since kapoor_rizzi.h wants the indices of a step to differ.
pub mod Step
pub mod Runs
pub mod Solution
use fastpass.Base.{
  ℕ, zero, suc, ◌+◌, ◌*◌, ◌%◌, Bool, true, false, Option, none, some, ltb, leb, ◌==◌, if◌then◌else◌,
}
use fastpass.Graph.{GraphEdges, GraphStructure, graph_edges_init, guard, ◌>>=◌, ◌>>◌}
use fastpass.Graph.Edges.{add_edges}
use fastpass.Graph.Split.{split}

abbrev pub max_matchings : ℕ
max_matchings = 48

abbrev pub max_steps : ℕ
max_steps = 128

pub record KrStep : Type 0 where
  pub src_index : ℕ
  pub dst1_index : ℕ
  pub dst2_index : ℕ

pub record Kr : Type 0 where
  pub degree : ℕ
  pub num_steps : ℕ
  pub steps : ℕ → KrStep

pub record MatchingSet : Type 0 where
  pub num_matchings : ℕ
  pub matchings : ℕ → GraphEdges

unfoldable pub kr_init : Kr → ℕ → Option Kr
kr_init kr degree = do guard (leb 1 degree); some (record kr { degree = degree; num_steps = 0 })

unfoldable pub set_kr_step : Kr → ℕ → ℕ → ℕ → Option Kr
set_kr_step kr src_index dst1_index dst2_index = do
  guard (ltb kr.num_steps max_steps)
  let next_step : KrStep = record {
    src_index = src_index;
    dst1_index = dst1_index;
    dst2_index = dst2_index;
  }
  some (record kr {
    num_steps = kr.num_steps + 1;
    steps = λ i. if i == kr.num_steps then next_step else kr.steps i;
  })

abbrev pub set_matching : (ℕ → GraphEdges) → ℕ → GraphEdges → ℕ → GraphEdges
set_matching matchings m edges i = if i == m then edges else matchings i

-- The first loop of solve, with `k` graphs left from `i` on.
unfoldable pub init_matchings : GraphStructure → ℕ → ℕ → (ℕ → GraphEdges) → Option (ℕ → GraphEdges)
init_matchings structure i zero matchings = some matchings
init_matchings structure i (suc k) matchings = do
  edges ← graph_edges_init (matchings i) structure.n
  init_matchings structure (i + 1) k (set_matching matchings i edges)

unfoldable pub run_step : GraphStructure → KrStep → (ℕ → GraphEdges) → Option (ℕ → GraphEdges)
run_step structure step matchings = do
  s ←
      split structure (matchings step.src_index) (matchings step.dst1_index)
        (matchings step.dst2_index)
  some (
      set_matching
        (set_matching (set_matching matchings step.src_index s.edges_in) step.dst1_index s.edges_1)
        step.dst2_index s.edges_2)

-- The steps from `i` on, `k` of them.
unfoldable pub run_steps : GraphStructure → Kr → ℕ → ℕ → (ℕ → GraphEdges) → Option (ℕ → GraphEdges)
run_steps structure kr i zero matchings = some matchings
run_steps structure kr i (suc k) matchings =
    run_step structure (kr.steps i) matchings >>= run_steps structure kr (i + 1) k

unfoldable pub solve :
    Kr → GraphStructure → GraphEdges → GraphEdges → MatchingSet → Option MatchingSet
unfolding init_matchings run_steps
solve kr structure edges_in edges_arbitrary solution = do
  let num_matchings = (kr.degree + 1) % 256
  empty ← init_matchings structure 0 max_matchings solution.matchings
  input ← add_edges (empty num_matchings) edges_in structure.n
  let loaded = set_matching empty num_matchings input
  arbitrary ← add_edges (loaded 0) edges_arbitrary structure.n
  matchings ← run_steps structure kr 0 kr.num_steps (set_matching loaded 0 arbitrary)
  some (record { num_matchings = num_matchings; matchings = matchings })

unfoldable pub get_matching : MatchingSet → ℕ → Option GraphEdges
get_matching solution index = do
  guard (ltb index solution.num_matchings)
  some (solution.matchings index)
