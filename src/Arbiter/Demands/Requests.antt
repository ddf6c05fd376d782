-- ===== src/Arbiter/Demands/Requests.antt =====
-- handle_areq brings the demands up to the totals that the requests stand for.
use fastpass.Base.{
  ℕ, ◌+◌, ◌-◌, ◌%◌, ◌^◌, ◌≤◌, ◌<◌, max, List, [], ◌∷◌, ◌++◌, Bool, true, false, ◌||◌, ltb, ◌==◌,
  if◌then◌else◌, ◌≡◌, refl, sym, subst, ap, arith, Bool-cases, inl, inr,
}
use fastpass.Arbiter.Demands.{
  EndNode, minus32, new_demand, is_positive32, set_total, areq_round, handle_areq,
}

-- A total is near the one that is known, so that its low 16 bits tell it.
pub record IsNear (known total : ℕ) : Type 0 where
  pub known_lt : known < 2 ^ 32
  pub total_lt : total < 2 ^ 32
  pub behind : known ≤ total + 2 ^ 15
  pub ahead : total < known + 2 ^ 15

new_demand_lem : (known total : ℕ) → IsNear known total → new_demand known (total % 2 ^ 16) ≡ total
unfolding new_demand
new_demand_lem known total n = omega (arith, n.known_lt, n.total_lt, n.behind, n.ahead)

-- The sum of the amounts that were added for a destination.
unfoldable pub sum_for : ℕ → List (ℕ × ℕ) → ℕ
sum_for d [] = 0
sum_for d ((dst, amount) ∷ added) = if dst == d then amount + sum_for d added else sum_for d added

sum_for-append : (d : ℕ) (xs ys : List (ℕ × ℕ)) → sum_for d (xs ++ ys) ≡ sum_for d xs + sum_for d ys
unfolding sum_for
sum_for-append d [] ys = omega arith
sum_for-append d ((dst, amount) ∷ xs) ys = ground (arith, sum_for-append d xs ys)

-- Requests with the low bits of the totals, for valid destinations.
abbrev pub AreRequests : (ℕ → ℕ) → EndNode → List (ℕ × ℕ) → Type 0
AreRequests totals en [] = Unit
AreRequests totals en ((dst, count) ∷ requests) =
    (dst < 256)
    × (count ≡ totals dst % 2 ^ 16)
    × IsNear (en.demands dst) (totals dst)
    × AreRequests totals en requests

unfoldable pub asked : ℕ → List (ℕ × ℕ) → Bool
asked d [] = false
asked d ((dst, count) ∷ requests) = d == dst || asked d requests

module _ (totals : ℕ → ℕ) (en : EndNode) (dst : ℕ) (n : IsNear (en.demands dst) (totals dst)) where
  abbrev known : ℕ
  known = en.demands dst

  abbrev total : ℕ
  total = totals dst

  abbrev round : EndNode
  round = areq_round en dst (total % 2 ^ 16)

  at_dst : (d : ℕ) → (d == dst) ≡ true → (en.demands d ≡ known) × (totals d ≡ total)
  at_dst d e = (ap en.demands (ground arith), ap totals (ground arith))

  grew :
      known < total
      → round ≡ record en {
        added = en.added ++ ((dst, total - known) ∷ []);
        demands = set_total en.demands dst total;
      }
  unfolding areq_round
  grew lt =
      let amount : minus32 total known ≡ total - known = omega (arith, n.known_lt, n.total_lt) in
      let pos : is_positive32 (total - known) ≡ true = ground arith in
      rw (new_demand_lem known total n, amount, pos) refl

  stayed : total ≤ known → round ≡ en
  unfolding areq_round
  stayed le =
      let pos : is_positive32 (minus32 total known) ≡ false = ground arith in
      rw (new_demand_lem known total n, pos) refl

  sum_for-one : (d amount : ℕ) → sum_for d ((dst, amount) ∷ []) ≡ (if d == dst then amount else 0)
  unfolding sum_for
  sum_for-one d amount = ground arith

  abbrev Grown : (d : ℕ) → EndNode → Type 0
  Grown d en' =
      (en'.demands d ≡ (if d == dst then max (en.demands d) (totals d) else en.demands d))
      × (sum_for d en'.added + en.demands d ≡ sum_for d en.added + en'.demands d)
      × (en'.triggered ≡ en.triggered)

  round-Grown : (d : ℕ) → Grown d round
  round-Grown d = elim (Bool-cases (ltb known total)) [
    | inl e ↦
        let lt : known < total = ground arith in
        subst (Grown d) (sym (grew lt)) (
          ground (arith, at_dst d),
          ground (
            arith,
            at_dst d,
            sum_for-append d en.added ((dst, total - known) ∷ []),
            sum_for-one d (total - known),
          ),
          refl,
        )
    | inr e ↦ subst (Grown d) (sym (stayed (ground arith))) (ground (arith, at_dst d), refl, refl)
  ]

still_requests :
    (totals : ℕ → ℕ) (en en' : EndNode) (requests : List (ℕ × ℕ))
    → ((d : ℕ) → IsNear (en.demands d) (totals d) → IsNear (en'.demands d) (totals d))
    → AreRequests totals en requests
    → AreRequests totals en' requests
still_requests totals en en' [] f h = tt
still_requests totals en en' ((dst, count) ∷ requests) f h =
    (h.0, h.1, f dst h.2, still_requests totals en en' requests f h.3)

-- Requests that carry the low 16 bits of totals that are each less than 2 ^ 15 from the known demand,
-- for valid destinations: handle_areq raises the demand of each destination that is asked for to its
-- total, and lowers none and changes no other; what is added to the backlog for a destination is the
-- rise of its demand; and trigger_request is called once.
pub handle_areq_lem :
    (totals : ℕ → ℕ) (en : EndNode) (requests : List (ℕ × ℕ))
    → AreRequests totals en requests
    → ((d : ℕ)
        → ((handle_areq en requests).demands d
            ≡ (if asked d requests then max (en.demands d) (totals d) else en.demands d))
          × (sum_for d (handle_areq en requests).added + en.demands d
              ≡ sum_for d en.added + (handle_areq en requests).demands d))
      × ((handle_areq en requests).triggered ≡ en.triggered + 1)
unfolding handle_areq asked
handle_areq_lem totals en [] h = (λ d. (refl, refl), refl)
handle_areq_lem totals en ((dst, count) ∷ requests) h =
    let en_1 = areq_round en dst (totals dst % 2 ^ 16) in
    let grow = round-Grown totals en dst h.2 in
    let rest =
      handle_areq_lem totals en_1 requests (still_requests totals en en_1 requests (near) h.3) in
    let valid : ltb dst 256 ≡ true = ground arith in
    rw (valid, h.1)
      (
        λ d. (ground (arith, rest.0 d, grow d), omega (arith, rest.0 d, grow d)),
        omega (arith, rest.1, grow 0),
      )
  where
    near :
        (d : ℕ)
        → IsNear (en.demands d) (totals d)
        → IsNear ((areq_round en dst (totals dst % 2 ^ 16)).demands d) (totals d)
    near d n =
        let g = round-Grown totals en dst h.2 d in
        record {
          known_lt = ground (arith, g.0, n.known_lt, n.total_lt);
          total_lt = n.total_lt;
          behind = ground (arith, g.0, n.behind);
          ahead = ground (arith, g.0, n.ahead);
        }
