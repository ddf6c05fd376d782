-- ===== src/Arbiter/Reports.antt =====
-- src/arbiter/comm_core.c: which nodes' allocations are to be reported to an endpoint.
--
-- q_pending is a function of the place. `none` means that an assertion fails.
mod Tests
pub mod Queue
use fastpass.Base.{
  ℕ, zero, suc, ◌+◌, ◌%◌, ◌^◌, List, [], ◌∷◌, Bool, true, false, not, Option, none, some, ◌==◌,
  if◌then◌else◌,
}

abbrev pub alloc_report_queue_size : ℕ
alloc_report_queue_size = 512

abbrev pub fastpass_pkt_max_areq : ℕ
fastpass_pkt_max_areq = 10

pub record AllocReportQueue : Type 0 where
  pub is_pending : ℕ → Bool
  pub q_pending : ℕ → ℕ
  pub head : ℕ
  pub tail : ℕ

-- `head & ALLOC_REPORT_QUEUE_MASK`
abbrev pub place : ℕ → ℕ
place i = i % alloc_report_queue_size

abbrev pub set_pending : (ℕ → Bool) → ℕ → Bool → ℕ → Bool
set_pending is_pending node b x = if x == node then b else is_pending x

-- With whether trigger_request is called.
unfoldable pub trigger_report : AllocReportQueue → ℕ → AllocReportQueue × Bool
trigger_report q node = if q.is_pending node then (q, false) else (
  record q {
    is_pending = set_pending q.is_pending node true;
    q_pending = λ i. if i == place q.tail then node else q.q_pending i;
    tail = (q.tail + 1) % 2 ^ 32;
  },
  true,
)

unfoldable pub report_empty : AllocReportQueue → Bool
report_empty q = q.head == q.tail

unfoldable pub report_pop : AllocReportQueue → Option (ℕ × AllocReportQueue)
report_pop q =
    let node = q.q_pending (place q.head) in
    if report_empty q
    then none
    else if not (q.is_pending node)
    then none
    else some (
      node,
      record q { is_pending = set_pending q.is_pending node false; head = (q.head + 1) % 2 ^ 32 },
    )

-- An entry of `areq`.
pub record Report : Type 0 where
  pub src_dst_key : ℕ
  pub tslots : ℕ

-- The loop of fill_packet_report, with room for `k` reports: the reports, and the queue after it.
unfoldable pub report_loop :
    (ℕ → ℕ) → ℕ → AllocReportQueue → Option (List Report × AllocReportQueue)
report_loop alloc_to_dst zero q = some ([], q)
report_loop alloc_to_dst (suc k) q = if report_empty q then some ([], q) else elim (report_pop q) [
  | none ↦ none
  | some (node, q') ↦ elim (report_loop alloc_to_dst k q') [
    | none ↦ none
    | some (reports, q'') ↦
        some (record { src_dst_key = node; tslots = alloc_to_dst node } ∷ reports, q'')
  ]
]

-- What follows the loop: whether trigger_request is called.
unfoldable pub after_reports :
    Option (List Report × AllocReportQueue) → Option (List Report × AllocReportQueue × Bool)
after_reports none = none
after_reports (some (reports, q)) = some (reports, q, not (report_empty q))

-- The reports, the queue, and whether trigger_request is called.
unfoldable pub fill_packet_report :
    (ℕ → ℕ) → AllocReportQueue → Option (List Report × AllocReportQueue × Bool)
fill_packet_report alloc_to_dst q = after_reports (report_loop alloc_to_dst fastpass_pkt_max_areq q)

-- The part of handle_reset that is about the queue.
abbrev pub reset_reports : AllocReportQueue → AllocReportQueue
reset_reports q = record q { head = 0; tail = 0; is_pending = λ _. false }
