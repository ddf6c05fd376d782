-- ===== src/Alloc/Demands.antt =====
-- src/graph-algo/backlog.h, and the functions of admissible_traffic.c that bring demands to the
-- allocation cores and take spent ones back: seq_add_backlog, seq_flush_backlog, seq_handle_spent
-- and seq_reset_sender. The arrays over pairs are functions of the pair's index; the rings have
-- room, since the source waits until they do.
pub mod Flows
pub mod Spent
mod Tests
use fastpass.Base.{
  ℕ, zero, suc, ◌+◌, ◌*◌, ◌%◌, ◌^◌, Bool, true, false, Option, none, some, List, [], ◌∷◌, ◌++◌,
  ◌==◌, if◌then◌else◌, length, take, drop,
}
use fastpass.Alloc.Bins.{BacklogEdge, Bin, init_bin, enqueue_bin, small_bin_size}

pub record Backlog : Type 0 where
  pub n : ℕ → ℕ
  pub is_active : ℕ → Bool

abbrev pub backlog_init : Backlog
backlog_init = record { n = λ _. 0; is_active = λ _. false }

-- FP_NODES_SHIFT is 8.
abbrev pub backlog_index : ℕ → ℕ → ℕ
backlog_index src dst = src * 2 ^ 8 + dst

abbrev pub assign {ℓ} : {A : Type ℓ} → (ℕ → A) → ℕ → A → ℕ → A
assign f i v j = if j == i then v else f j

abbrev pub backlog_get : Backlog → ℕ → ℕ → ℕ
backlog_get backlog src dst = backlog.n (backlog_index src dst)

abbrev pub backlog_non_active : Backlog → ℕ → ℕ → Backlog
backlog_non_active backlog src dst = record backlog {
  is_active = assign backlog.is_active (backlog_index src dst) false;
}

abbrev pub backlog_reset_pair : Backlog → ℕ → ℕ → Backlog
backlog_reset_pair backlog src dst = record backlog {
  n = assign backlog.n (backlog_index src dst) 0;
}

-- `true` if the pair was not active before. An assertion that fails is the result `none`: the
-- amount must not be 0, and the table must hold nothing for a pair that is not active.
unfoldable pub backlog_increase : Backlog → ℕ → ℕ → ℕ → Option (Bool × Backlog)
backlog_increase backlog src dst amount =
    let index = backlog_index src dst in
    if amount == 0
    then none
    else if backlog.is_active index
    then some
        (false, record backlog { n = assign backlog.n index ((backlog.n index + amount) % 2 ^ 32) })
    else if backlog.n index == 0
    then some (true, record backlog { is_active = assign backlog.is_active index true })
    else none

-- The part of `struct seq_admissible_status` that these functions use.
pub record Status : Type 0 where
  pub backlog : Backlog
  pub last_alloc_tslot : ℕ → ℕ
  pub new_demands : Bin
  pub q_head : List Bin
  pub q_spent : List Bin

abbrev pub flush_backlog_now : Status → Status
flush_backlog_now status = record status {
  q_head = status.q_head ++ (status.new_demands ∷ []);
  new_demands = init_bin;
}

unfoldable pub seq_flush_backlog : Status → Status
seq_flush_backlog status =
    if length status.new_demands == 0 then status else flush_backlog_now status

unfoldable pub enqueue_new_demand : Status → ℕ → ℕ → ℕ → Status
enqueue_new_demand status src dst amount =
    let last = status.last_alloc_tslot (backlog_index src dst) in
    let status' = record status {
      new_demands = enqueue_bin status.new_demands src dst amount last;
    } in
    if length status'.new_demands == small_bin_size then flush_backlog_now status' else status'

-- What follows `backlog_increase`.
abbrev pub enqueue_if_idle : Status → ℕ → ℕ → ℕ → Option (Bool × Backlog) → Option Status
enqueue_if_idle status src dst amount none = none
enqueue_if_idle status src dst amount (some (false, backlog)) =
    some (record status { backlog = backlog })
enqueue_if_idle status src dst amount (some (true, backlog)) =
    some (enqueue_new_demand (record status { backlog = backlog }) src dst amount)

-- `none` if an assertion fails.
unfoldable pub seq_add_backlog : Status → ℕ → ℕ → ℕ → Option Status
seq_add_backlog status src dst amount =
    enqueue_if_idle status src dst amount (backlog_increase status.backlog src dst amount)

-- A spent demand: its pair goes idle, or what was added meanwhile is enqueued.
unfoldable pub handle_spent_edge : Status → BacklogEdge → Status
handle_spent_edge status edge =
    let backlog = backlog_get status.backlog edge.src edge.dst in
    let index = backlog_index edge.src edge.dst in
    let idle = record status {
      last_alloc_tslot = assign status.last_alloc_tslot index edge.metric;
      backlog = backlog_non_active status.backlog edge.src edge.dst;
    } in
    let reset = record status { backlog = backlog_reset_pair status.backlog edge.src edge.dst } in
    if backlog == 0 then idle else enqueue_new_demand reset edge.src edge.dst backlog

abbrev pub handle_spent_bin : Status → Bin → Status
handle_spent_bin status [] = status
handle_spent_bin status (edge ∷ bin) = handle_spent_bin (handle_spent_edge status edge) bin

abbrev pub handle_spent_bins : Status → List Bin → Status
handle_spent_bins status [] = status
handle_spent_bins status (bin ∷ bins) = handle_spent_bins (handle_spent_bin status bin) bins

-- SPENT_RING_DEQUEUE_SIZE
abbrev pub spent_ring_dequeue_size : ℕ
spent_ring_dequeue_size = 256

unfoldable pub seq_handle_spent : Status → Status
seq_handle_spent status =
    handle_spent_bins (record status { q_spent = drop spent_ring_dequeue_size status.q_spent })
      (take spent_ring_dequeue_size status.q_spent)

-- `left` pairs are reset from `dst` on.
unfoldable pub reset_sender_from : ℕ → ℕ → ℕ → Backlog → Backlog
reset_sender_from zero src dst backlog = backlog
reset_sender_from (suc left) src dst backlog =
    reset_sender_from left src (dst + 1) (backlog_reset_pair backlog src dst)

unfoldable pub seq_reset_sender : Status → ℕ → Status
seq_reset_sender status src = record status { backlog = reset_sender_from 256 src 0 status.backlog }
