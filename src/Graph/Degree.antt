-- ===== src/Graph/Degree.antt =====
-- The degree of a vertex: how many edges it has, and what taking or adding one edge makes of it.
use fastpass.Base.{
  ℕ, zero, suc, ◌+◌, ◌*◌, ◌/◌, ◌%◌, ◌^◌, ◌≤◌, ◌<◌, bit_and, Bool, true, false, ◌||◌, some, ◌==◌,
  if◌then◌else◌, ◌≡◌, ◌≢◌, sym, ap, ◌∙◌, arith,
}
use fastpass.Base.Bits.{bit, bit-zero, bit_ext}
use fastpass.Base.Bits.Fields.{bit_and-mask}
use fastpass.Base.Count.{
  card, card_same, card-with, card-without, card-none, card-le_bound, with_elem, without, uncounted,
}
use native.Mathlib.Nat.{pow-suc}
use fastpass.Graph.{GraphEdges, GraphStructure, degree_loop, get_degree}
use fastpass.Graph.Shape.{slot, slot-lt, IsGraph}
use fastpass.Graph.Moves.{
  at_ends, low, end, end_index, left, slot-left, joined, slot-joined, low-lt, slot-low, slot-end,
  end-ne,
}

unfoldable pub degree : GraphEdges → ℕ → ℕ
degree edges v = card (slot edges v) 64

card_shift : (x k : ℕ) → card (bit x) (suc k) ≡ x % 2 + card (bit (x / 2)) k
unfolding card bit
card_shift x zero = ground arith
card_shift x (suc k) = ground (arith, card_shift x k)

card-zero : (x k : ℕ) → x ≡ 0 → card (bit x) k ≡ 0
card-zero x k e =
    card_same (bit x) (λ _. false) k (λ m _. ap (λ y. bit y m) e ∙ bit-zero m) ∙ card-none k

degree_loop_lem : (k x d : ℕ) → d + k < 256 → x < 2 ^ k → degree_loop k x d ≡ d + card (bit x) k
unfolding degree_loop
degree_loop_lem zero x d p h = unfold card in omega arith
degree_loop_lem (suc k) x d p h = ground (
  arith,
  card_shift x k,
  card-zero x (suc k),
  bit_and-mask 1 x,
  pow-suc 2 k,
  degree_loop_lem k (x / 2) ((d + bit_and x 1) % 256),
)

-- The loop of get_degree counts the edges of a vertex.
pub get_degree_lem :
    (edges : GraphEdges) (v : ℕ)
    → v < 128
    → edges.neighbor_bitmaps v < 2 ^ 64
    → get_degree edges v ≡ some (degree edges v)
unfolding get_degree degree
get_degree_lem edges v h f =
    ground (arith, degree_loop_lem 64 (edges.neighbor_bitmaps v) 0 (omega arith) f)

pub degree-le : (edges : GraphEdges) (v : ℕ) → degree edges v ≤ 64
unfolding degree
degree-le edges v = card-le_bound (slot edges v) 64

pub degree_zero : (edges : GraphEdges) (v : ℕ) → edges.neighbor_bitmaps v ≡ 0 → degree edges v ≡ 0
unfolding degree
degree_zero edges v = card-zero (edges.neighbor_bitmaps v) 64

pub bitmap_zero :
    (edges : GraphEdges) (v : ℕ)
    → edges.neighbor_bitmaps v < 2 ^ 64
    → degree edges v ≡ 0
    → edges.neighbor_bitmaps v ≡ 0
unfolding degree
bitmap_zero edges v f z =
    bit_ext 64 (edges.neighbor_bitmaps v) 0 f (omega arith)
      λ i h. uncounted (slot edges v) 64 i z h ∙ sym (bit-zero i)

-- 1 for a test that holds.
abbrev pub tally : Bool → ℕ
tally b = if b then 1 else 0

card_sum :
    (f g h e : ℕ → Bool) (k : ℕ)
    → ((m : ℕ) → tally (f m) + tally (g m) + tally (h m) ≡ tally (e m))
    → card f k + card g k + card h k ≡ card e k
unfolding card
card_sum f g h e zero eq = omega arith
card_sum f g h e (suc k) eq = ground (arith, eq k, card_sum f g h e k eq)

-- If each edge is in one of three graphs, the degrees add up.
pub degree_sum :
    (a b c edges : GraphEdges) (v : ℕ)
    → ((i : ℕ)
        → tally (slot a v i) + tally (slot b v i) + tally (slot c v i) ≡ tally (slot edges v i))
    → degree a v + degree b v + degree c v ≡ degree edges v
unfolding degree
degree_sum a b c edges v = card_sum (slot a v) (slot b v) (slot c v) (slot edges v) 64

-- One edge of `v` is there no more.
degree_less :
    (edges edges' : GraphEdges) (v i : ℕ)
    → slot edges v i ≡ true
    → i < 64
    → ((k : ℕ) → slot edges' v k ≡ without (slot edges v) i k)
    → suc (degree edges' v) ≡ degree edges v
unfolding degree
degree_less edges edges' v i on h same = omega (
  arith,
  card-without (slot edges v) i 64 on h,
  card_same (slot edges' v) (without (slot edges v) i) 64 (λ k _. same k),
)

degree_more :
    (edges edges' : GraphEdges) (v i : ℕ)
    → slot edges v i ≡ false
    → i < 64
    → ((k : ℕ) → slot edges' v k ≡ with_elem (slot edges v) i k)
    → degree edges' v ≡ suc (degree edges v)
unfolding degree
degree_more edges edges' v i off h same = omega (
  arith,
  card-with (slot edges v) i 64 off h,
  card_same (slot edges' v) (with_elem (slot edges v) i) 64 (λ k _. same k),
)

pub degree_same :
    (edges edges' : GraphEdges) (v : ℕ)
    → ((k : ℕ) → slot edges' v k ≡ slot edges v k)
    → degree edges' v ≡ degree edges v
unfolding degree
degree_same edges edges' v same = card_same (slot edges' v) (slot edges v) 64 (λ k _. same k)

degree_at : (edges : GraphEdges) (v w : ℕ) → (v == w) ≡ true → degree edges v ≡ degree edges w
degree_at edges v w h = ap (degree edges) (ground arith)

module _ (structure : GraphStructure) (edges : GraphEdges) (g : IsGraph structure edges) (u : ℕ)
    (lt : u < 2 * structure.n) (ne : edges.neighbor_bitmaps u ≢ 0) where
  abbrev i : ℕ
  i = low structure edges g u lt ne

  abbrev v : ℕ
  v = end structure edges g u lt ne

  abbrev j : ℕ
  j = end_index structure edges g u lt ne

  abbrev rest : GraphEdges
  rest = left structure edges g u lt ne

  ne_ends : (v == u) ≡ false
  ne_ends = end-ne structure edges g u lt ne

  on_v : slot edges v j ≡ true
  on_v = slot-end structure edges g u lt ne

  j_lt : j < 64
  j_lt = slot-lt structure edges g v j on_v

  less_u : suc (degree rest u) ≡ degree edges u
  less_u =
      degree_less edges rest u i (slot-low structure edges g u lt ne)
        (low-lt structure edges g u lt ne)
        λ k. slot-left structure edges g u lt ne u k ∙ ground (arith, ne_ends)

  less_v : suc (degree rest v) ≡ degree edges v
  less_v =
      degree_less edges rest v j on_v j_lt
        λ k. slot-left structure edges g u lt ne v k ∙ ground (arith, ne_ends)

  -- Taking an edge makes the degrees of its two ends less by one.
  pub degree-left : (w : ℕ) → degree rest w + tally (w == u) + tally (w == v) ≡ degree edges w
  degree-left w = ground (
    arith,
    less_u,
    less_v,
    ne_ends,
    degree_at edges w u,
    degree_at edges w v,
    degree_at rest w u,
    degree_at rest w v,
    same_w w,
  )
    where
      same_w : (w : ℕ) → (w == u) ≡ false → (w == v) ≡ false → degree rest w ≡ degree edges w
      same_w w p q =
          degree_same edges rest w λ k. slot-left structure edges g u lt ne w k ∙ ground arith

-- Adding an edge makes them greater by one.
module _ (others : GraphEdges) (u i v j : ℕ) (ne : (v == u) ≡ false) (i_lt : i < 64) (j_lt : j < 64)
    (fits : (w : ℕ) → others.neighbor_bitmaps w < 2 ^ 64) (free_u : slot others u i ≡ false)
    (free_v : slot others v j ≡ false) where
  abbrev more : GraphEdges
  more = joined others u i v j

  gain_slot : (w k : ℕ) → slot more w k ≡ (slot others w k || at_ends u i v j w k)
  gain_slot = slot-joined others u i v j ne i_lt j_lt fits

  gain_u : degree more u ≡ suc (degree others u)
  gain_u = degree_more others more u i free_u i_lt λ k. gain_slot u k ∙ ground (arith, ne)

  gain_v : degree more v ≡ suc (degree others v)
  gain_v = degree_more others more v j free_v j_lt λ k. gain_slot v k ∙ ground (arith, ne)

  pub degree-joined : (w : ℕ) → degree more w ≡ degree others w + tally (w == u) + tally (w == v)
  degree-joined w = ground (
    arith,
    gain_u,
    gain_v,
    ne,
    degree_at others w u,
    degree_at others w v,
    degree_at more w u,
    degree_at more w v,
    same_w w,
  )
    where
      same_w : (w : ℕ) → (w == u) ≡ false → (w == v) ≡ false → degree more w ≡ degree others w
      same_w w p q = degree_same others more w λ k. gain_slot w k ∙ ground arith
