-- ===== src/Alloc/Demands/Spent.antt =====
-- Demands that come back from the cores when they are spent.
use fastpass.Base.{
  ℕ, zero, suc, ◌+◌, ◌*◌, ◌/◌, ◌^◌, ◌≤◌, ◌<◌, List, [], ◌∷◌, ◌==◌, if◌then◌else◌, take, drop, ◌≡◌,
  refl, sym, ◌∙◌, ap, arith, Bool-cases, inl, inr, leb, ltb, ◌&&◌,
}
use fastpass.Alloc.Bins.{BacklogEdge, Bin}
use fastpass.Alloc.Demands.{
  Backlog, Status, backlog_index, backlog_reset_pair, handle_spent_edge, handle_spent_bin,
  handle_spent_bins, seq_handle_spent, reset_sender_from, seq_reset_sender,
}
use fastpass.Alloc.Demands.Flows.{
  Flows, demand, entry_of, in_bin, in_bins, in_bins-take, enqueued-Flows, demand-enqueue,
  enqueue_keeps,
}

-- One entry comes back: its pair has no other.
spent_edge-Flows :
    (held : ℕ → ℕ) (status : Status) (edge : BacklogEdge)
    → Flows (λ k. held k + entry_of k edge) status
    → Flows held (handle_spent_edge status edge)
unfolding handle_spent_edge
spent_edge-Flows held status edge fl =
    let index = backlog_index edge.src edge.dst in
    elim (Bool-cases (status.backlog.n index == 0)) [
      | inl none_left ↦ rw none_left (record {
        once = λ k. ground (arith, fl.once k);
        idle = λ k off. elim (Bool-cases (k == index)) [
          | inl e ↦ ap status.backlog.n {x = k} {y = index} (ground arith) ∙ ground arith
          | inr e ↦ ground (arith, fl.idle k)
        ];
      })
      | inr more ↦ rw more (
          enqueued-Flows held _ edge.src edge.dst (status.backlog.n index)
            (λ k. ground (arith, fl.once k)) (λ k off. ground (arith, fl.idle k)))
    ]

-- Handling a spent entry leaves the demand of every pair as it is, but that of the entry's own pair
-- loses what is above the low 16 bits of the amount that the table holds for it.
pub spent_edge-demand :
    (k : ℕ) (status : Status) (edge : BacklogEdge)
    → let index = backlog_index edge.src edge.dst in
      demand k (handle_spent_edge status edge)
        + (if k == index then status.backlog.n index / 2 ^ 16 * 2 ^ 16 else 0)
      ≡ demand k status
unfolding handle_spent_edge
spent_edge-demand k status edge =
    let index = backlog_index edge.src edge.dst in
    elim (Bool-cases (status.backlog.n index == 0)) [
      | inl none_left ↦ rw none_left (ground arith)
      | inr more ↦
          rw (more, demand-enqueue k _ edge.src edge.dst (status.backlog.n index))
            (elim (Bool-cases (k == index)) [
              | inl e ↦
                  let same : status.backlog.n k ≡ status.backlog.n index =
                    ap status.backlog.n (ground arith) in
                  rw e (omega (arith, same))
              | inr e ↦ rw e (omega arith)
            ])
    ]

-- The table does not grow.
spent_edge_shrinks :
    (k : ℕ) (status : Status) (edge : BacklogEdge)
    → (handle_spent_edge status edge).backlog.n k ≤ status.backlog.n k
unfolding handle_spent_edge
spent_edge_shrinks k status edge =
    let index = backlog_index edge.src edge.dst in
    elim (Bool-cases (status.backlog.n index == 0)) [
      | inl none_left ↦ rw none_left (omega arith)
      | inr more ↦
          rw
            (
              more,
              (enqueue_keeps
                  (record status { backlog = backlog_reset_pair status.backlog edge.src edge.dst })
                  edge.src edge.dst (status.backlog.n index)).0,
            )
            (ground arith)
    ]

abbrev pub Small : Status → Type 0
Small status = (k : ℕ) → status.backlog.n k < 2 ^ 16

-- What handling spent demands should do.
pub record Handled (held : ℕ → ℕ) (status status' : Status) : Type 0 where
  pub flows : Flows held status'
  pub demands : (k : ℕ) → demand k status' ≡ demand k status
  pub small : Small status'

Flows-held :
    (held held' : ℕ → ℕ) (status : Status)
    → ((k : ℕ) → held k ≡ held' k)
    → Flows held status
    → Flows held' status
Flows-held held held' status same fl = record {
  once = λ k. omega (arith, fl.once k, same k);
  idle = fl.idle;
}

spent_bin :
    (held : ℕ → ℕ) (bin : Bin) (status : Status)
    → Flows (λ k. held k + in_bin (entry_of k) bin) status
    → Small status
    → Handled held status (handle_spent_bin status bin)
spent_bin held [] status fl small = record {
  flows = Flows-held (λ k. held k + 0) held status (λ k. omega arith) fl;
  demands = λ k. refl;
  small = small;
}
spent_bin held (edge ∷ bin) status fl small =
    let index = backlog_index edge.src edge.dst in
    let step =
      spent_edge-Flows (λ k. held k + in_bin (entry_of k) bin) status edge
        (Flows-held _ _ status (λ k. omega arith) fl) in
    let rest =
      spent_bin held bin (handle_spent_edge status edge) step
        (λ k. omega (arith, small k, spent_edge_shrinks k status edge)) in
    record {
      flows = rest.flows;
      demands = λ k. rest.demands k ∙ ground (arith, spent_edge-demand k status edge, small index);
      small = rest.small;
    }

spent_bins :
    (held : ℕ → ℕ) (bins : List Bin) (status : Status)
    → Flows (λ k. held k + in_bins (entry_of k) bins) status
    → Small status
    → Handled held status (handle_spent_bins status bins)
spent_bins held [] status fl small = record {
  flows = Flows-held (λ k. held k + 0) held status (λ k. omega arith) fl;
  demands = λ k. refl;
  small = small;
}
spent_bins held (bin ∷ bins) status fl small =
    let step =
      spent_bin (λ k. held k + in_bins (entry_of k) bins) bin status
        (Flows-held _ _ status (λ k. omega arith) fl) small in
    let rest = spent_bins held bins (handle_spent_bin status bin) step.flows step.small in
    record {
      flows = rest.flows;
      demands = λ k. rest.demands k ∙ step.demands k;
      small = rest.small;
    }

-- While every active pair has one entry in all and the table holds less than 2 ^ 16 of each,
-- handling the spent demands leaves the demand of every pair as it is, what was added to the table
-- meanwhile being in the bins then, and every active pair still has one entry in all.
pub seq_handle_spent_lem :
    (held : ℕ → ℕ) (status : Status)
    → Flows held status
    → Small status
    → Handled held status (seq_handle_spent status)
unfolding seq_handle_spent
seq_handle_spent_lem held status fl small =
    let started = record status { q_spent = drop 256 status.q_spent } in
    let done =
      spent_bins held (take 256 status.q_spent) started
        (record {
          once = λ k. omega (arith, fl.once k, in_bins-take (entry_of k) 256 status.q_spent);
          idle = fl.idle;
        })
        small in
    record { flows = done.flows; demands = done.demands; small = done.small }

-- A pair of a sender loses what the table holds for it, and the others keep it.
reset_from :
    (left src dst k : ℕ) (backlog : Backlog)
    → let backlog' = reset_sender_from left src dst backlog in
      (backlog'.n k ≡ (
        if leb (backlog_index src dst) k && ltb k (backlog_index src dst + left)
        then 0
        else backlog.n k))
      × (backlog'.is_active ≡ backlog.is_active)
unfolding reset_sender_from
reset_from zero src dst k backlog = (ground arith, refl)
reset_from (suc left) src dst k backlog =
    let (n, active) = reset_from left src (dst + 1) k (backlog_reset_pair backlog src dst) in
    (n ∙ ground arith, active)

-- Resetting a sender sets the table to 0 for the 256 pairs that it sends to and for no others, and
-- leaves the entries and which pairs are active as they are, so that every active pair still has
-- one entry in all.
pub seq_reset_sender_lem :
    (held : ℕ → ℕ) (status : Status) (src : ℕ)
    → Flows held status
    → Flows held (seq_reset_sender status src)
      × ((k : ℕ)
          → (seq_reset_sender status src).backlog.n k
            ≡ (if k / 2 ^ 8 == src then 0 else status.backlog.n k))
unfolding seq_reset_sender
seq_reset_sender_lem held status src fl = (
  record {
    once = λ k. rw (reset_from 256 src 0 k status.backlog).1 (fl.once k);
    idle = λ k off.
        let (n, active) = reset_from 256 src 0 k status.backlog in
        n ∙ ground (arith, fl.idle k (ap (λ f. f k) (sym active) ∙ off));
  },
  λ k. (reset_from 256 src 0 k status.backlog).0 ∙ ground arith,
)
