-- ===== src/Arbiter/Reports/Queue.antt =====
-- The queue of reports as a list of nodes without repetitions.
use fastpass.Base.{
  ℕ, zero, suc, ◌+◌, ◌%◌, ◌^◌, ◌≤◌, ◌<◌, List, [], ◌∷◌, ◌++◌, map, take, drop, length, get_or, true,
  false, not, ◌||◌, some, ltb, ◌==◌, if◌then◌else◌, ◌≡◌, refl, ap, ◌∙◌, arith, Bool-cases, inl, inr,
  length-append, length-drop,
}
use fastpass.Base.Count.{card, card_same, card-with, with_elem, card-none, card-le_bound}
use fastpass.Arbiter.Lists.{has, has-append}
use fastpass.Arbiter.Reports.{
  AllocReportQueue, Report, place, set_pending, trigger_report, report_empty, report_pop,
  report_loop, after_reports, fill_packet_report,
}

-- Every node once, and less than 256.
abbrev pub EachOnce : List ℕ → Type 0
EachOnce [] = Unit
EachOnce (x ∷ xs) = (has x xs ≡ false) × (x < 256) × EachOnce xs

-- The places from the head on hold the nodes of the list, and those are the nodes that are pending.
pub record Holds (q : AllocReportQueue) (nodes : List ℕ) : Type 0 where
  pub once : EachOnce nodes
  pub head_lt : q.head < 2 ^ 32
  pub tail_at : q.tail ≡ (q.head + length nodes) % 2 ^ 32
  pub pending : (x : ℕ) → q.is_pending x ≡ has x nodes
  pub queued : (i : ℕ) → i < length nodes → q.q_pending (place (q.head + i)) ≡ get_or nodes i 0

card-has : (xs : List ℕ) → EachOnce xs → card (λ x. has x xs) 256 ≡ length xs
unfolding has
card-has [] e = card-none 256
card-has (x ∷ xs) e =
    card_same (λ y. y == x || has y xs) (with_elem (λ y. has y xs) x) 256 (λ y _. ground arith)
    ∙ card-with (λ y. has y xs) x 256 e.0 e.1
    ∙ ap suc (card-has xs e.2)

pub length-EachOnce : (xs : List ℕ) → EachOnce xs → length xs ≤ 256
length-EachOnce xs e = omega (arith, card-has xs e, card-le_bound (λ x. has x xs) 256)

EachOnce-append :
    (xs : List ℕ) (x : ℕ) → EachOnce xs → has x xs ≡ false → x < 256 → EachOnce (xs ++ (x ∷ []))
unfolding has
EachOnce-append [] x e h lt = (refl, lt, tt)
EachOnce-append (y ∷ ys) x e h lt = (
  has-append y ys (x ∷ []) ∙ ground (arith, e.0),
  e.1,
  EachOnce-append ys x e.2 (ground arith) lt,
)

pub get_or-append :
    (xs : List ℕ) (x i : ℕ)
    → get_or (xs ++ (x ∷ [])) i 0 ≡ (if i == length xs then x else get_or xs i 0)
get_or-append [] x zero = refl
get_or-append [] x (suc i) = ground arith
get_or-append (y ∷ ys) x zero = ground arith
get_or-append (y ∷ ys) x (suc i) = get_or-append ys x i ∙ ground arith

has-one : (x y : ℕ) → has y (x ∷ []) ≡ (y == x)
unfolding has
has-one x y = ground arith

-- trigger_report puts a node that is less than 256 at the end of the queue if it is not in it yet,
-- and calls trigger_request then; if it is, nothing changes.
pub trigger_report_lem :
    (q : AllocReportQueue) (nodes : List ℕ) (node : ℕ)
    → Holds q nodes
    → node < 256
    → Holds (trigger_report q node).0 (if has node nodes then nodes else nodes ++ (node ∷ []))
      × ((trigger_report q node).1 ≡ not (has node nodes))
unfolding trigger_report
trigger_report_lem q nodes node h lt = elim (Bool-cases (has node nodes)) [
  | inl e ↦ rw (h.pending node, e) (h, refl)
  | inr e ↦
      rw (h.pending node, e)
        (
          record {
            once = EachOnce-append nodes node h.once e lt;
            head_lt = h.head_lt;
            tail_at = omega (arith, h.tail_at, length-append nodes (node ∷ []));
            pending =
                λ x. ground (arith, h.pending x, has-append x nodes (node ∷ []), has-one node x);
            queued = λ i p. ground (
              arith,
              h.queued i,
              h.tail_at,
              length-append nodes (node ∷ []),
              length-EachOnce nodes h.once,
              get_or-append nodes node i,
            );
          },
          refl,
        )
]

popped : AllocReportQueue → ℕ → AllocReportQueue
popped q node = record q {
  is_pending = set_pending q.is_pending node false;
  head = (q.head + 1) % 2 ^ 32;
}

report_pop_lem :
    (q : AllocReportQueue) (node : ℕ) (nodes : List ℕ)
    → Holds q (node ∷ nodes)
    → (report_pop q ≡ some (node, popped q node)) × Holds (popped q node) nodes
unfolding report_pop popped has
report_pop_lem q node nodes h =
    let first : q.q_pending (place q.head) ≡ node =
      ap (λ i. q.q_pending (i % 512)) {x = q.head} {y = q.head + 0} (omega arith)
      ∙ h.queued 0 (omega arith) in
    let some_left : report_empty q ≡ false =
      unfold report_empty in ground (arith, h.head_lt, h.tail_at, length-EachOnce nodes h.once.2) in
    let waits : q.is_pending node ≡ true = ground (arith, h.pending node) in
    (
      rw (some_left, first, waits) refl,
      record {
        once = h.once.2;
        head_lt = omega arith;
        tail_at = omega (arith, h.head_lt, h.tail_at);
        pending =
            λ x. ground (arith, h.pending x, h.once.0, ap (λ y. has y nodes) {x = x} {y = node});
        queued = λ i p.
            ap q.q_pending {x = place ((q.head + 1) % 2 ^ 32 + i)} {y = place (q.head + suc i)}
              (omega (arith, h.head_lt))
            ∙ h.queued (suc i) (omega arith);
      },
    )

empty_lem : (q : AllocReportQueue) → Holds q [] → report_empty q ≡ true
unfolding report_empty
empty_lem q h = ground (arith, h.head_lt, h.tail_at)

left_lem :
    (q : AllocReportQueue) (node : ℕ) (nodes : List ℕ)
    → Holds q (node ∷ nodes)
    → report_empty q ≡ false
unfolding report_empty
left_lem q node nodes h = ground (arith, h.head_lt, h.tail_at, length-EachOnce nodes h.once.2)

abbrev pub report_of : (ℕ → ℕ) → ℕ → Report
report_of alloc_to_dst node = record { src_dst_key = node; tslots = alloc_to_dst node }

report_loop_lem :
    (alloc_to_dst : ℕ → ℕ) (k : ℕ) (q : AllocReportQueue) (nodes : List ℕ)
    → Holds q nodes
    → (q' : AllocReportQueue) × (report_loop alloc_to_dst k q
        ≡ some (map (report_of alloc_to_dst) (take k nodes), q'))
      × Holds q' (drop k nodes)
unfolding report_loop
report_loop_lem alloc_to_dst zero q nodes h = (q, refl, h)
report_loop_lem alloc_to_dst (suc k) q [] h = (q, rw (empty_lem q h) refl, h)
report_loop_lem alloc_to_dst (suc k) q (node ∷ nodes) h =
    let (pop, h') = report_pop_lem q node nodes h in
    let (q', run, rest) = report_loop_lem alloc_to_dst k (popped q node) nodes h' in
    (q', rw (left_lem q node nodes h, pop, run) refl, rest)

report_empty-drop :
    (q : AllocReportQueue) (nodes : List ℕ)
    → Holds q (drop 10 nodes)
    → not (report_empty q) ≡ ltb 10 (length nodes)
unfolding report_empty
report_empty-drop q nodes h =
    ground
      (arith, h.head_lt, h.tail_at, length-drop 10 nodes, length-EachOnce (drop 10 nodes) h.once)

-- fill_packet_report takes the first ten nodes from a queue, or all if there are less, reports for
-- each how many timeslots were allocated to it, and calls trigger_request exactly if nodes are left;
-- no assertion fails.
pub fill_packet_report_lem :
    (alloc_to_dst : ℕ → ℕ) (q : AllocReportQueue) (nodes : List ℕ)
    → Holds q nodes
    → (q' : AllocReportQueue) × (fill_packet_report alloc_to_dst q
        ≡ some (map (report_of alloc_to_dst) (take 10 nodes), q', ltb 10 (length nodes)))
      × Holds q' (drop 10 nodes)
unfolding fill_packet_report after_reports
fill_packet_report_lem alloc_to_dst q nodes h =
    let (q', run, rest) = report_loop_lem alloc_to_dst 10 q nodes h in
    (q', rw (run, report_empty-drop q' nodes rest) refl, rest)
