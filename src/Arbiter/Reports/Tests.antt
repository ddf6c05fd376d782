-- ===== src/Arbiter/Reports/Tests.antt =====
-- The theorems of the queue of reports at concrete queues.
use fastpass.Base.{
  ℕ, zero, suc, ◌+◌, ◌-◌, ◌*◌, ◌^◌, ◌<◌, List, [], ◌∷◌, map, take, drop, length, get_or, ◌||◌, some,
  ltb, ◌==◌, if◌then◌else◌, ◌≡◌, refl, arith,
}
use fastpass.Arbiter.Lists.{has}
use fastpass.Arbiter.Reports.{AllocReportQueue, place, fill_packet_report}
use fastpass.Arbiter.Reports.Queue.{Holds, report_of, fill_packet_report_lem}

-- The nodes 3 and 5 wait, at the last place and at the first.
abbrev queue : AllocReportQueue
queue = record {
  is_pending = λ x. x == 3 || x == 5;
  q_pending = λ i. if i == 511 then 3 else 5;
  head = 2 ^ 32 - 1;
  tail = 1;
}

abbrev waiting : List ℕ
waiting = 3 ∷ 5 ∷ []

queue-Holds : Holds queue waiting
unfolding has
queue-Holds = record {
  once = (refl, omega arith, (refl, omega arith, tt));
  head_lt = omega arith;
  tail_at = refl;
  pending = λ x. ground arith;
  queued = queued;
}
  where
    queued :
        (i : ℕ) → i < 2 → queue.q_pending (place (queue.head + i)) ≡ get_or {A = ℕ} (3 ∷ 5 ∷ []) i 0
    queued zero h = refl
    queued (suc zero) h = refl
    queued (suc (suc i)) h = absurd (omega arith)

fill_packet_report_example :
    (q' : AllocReportQueue) × (fill_packet_report (λ node. 100 * node) queue
      ≡ some (map (report_of (λ node. 100 * node)) (take 10 waiting), q', ltb 10 (length waiting)))
    × Holds q' (drop 10 waiting)
fill_packet_report_example = fill_packet_report_lem (λ node. 100 * node) queue waiting queue-Holds
