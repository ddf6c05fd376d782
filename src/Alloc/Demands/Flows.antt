-- ===== src/Alloc/Demands/Flows.antt =====
-- Where the demands are.
use fastpass.Base.{
  ℕ, zero, suc, ◌+◌, ◌%◌, ◌^◌, ◌<◌, Bool, false, List, [], ◌∷◌, ◌++◌, ◌==◌, if◌then◌else◌, length,
  take, drop, ◌≡◌, refl, ◌∙◌, ap, arith, Bool-cases, inl, inr, if_both, ◌≢◌, some, true,
}
use fastpass.Alloc.Bins.{BacklogEdge, Bin}
use fastpass.Alloc.Demands.{
  Status, backlog_index, assign, backlog_increase, enqueue_new_demand, seq_add_backlog,
  flush_backlog_now,
}

-- A number for every entry of bins, added up.
abbrev pub in_bin : (BacklogEdge → ℕ) → Bin → ℕ
in_bin f [] = 0
in_bin f (edge ∷ bin) = f edge + in_bin f bin

abbrev pub in_bins : (BacklogEdge → ℕ) → List Bin → ℕ
in_bins f [] = 0
in_bins f (bin ∷ bins) = in_bin f bin + in_bins f bins

-- Over the demands that wait for the first core.
abbrev pub queued : (BacklogEdge → ℕ) → Status → ℕ
queued f status = in_bins f status.q_head + in_bin f status.new_demands

abbrev pub is_of : ℕ → BacklogEdge → Bool
is_of k edge = k == backlog_index edge.src edge.dst

-- Whether an entry is of a pair, as a number, and its amount if it is.
abbrev pub entry_of : ℕ → BacklogEdge → ℕ
entry_of k edge = if is_of k edge then 1 else 0

abbrev pub amount_of : ℕ → BacklogEdge → ℕ
amount_of k edge = if is_of k edge then edge.backlog else 0

-- What is left to allocate for a pair before the first core: in the table and in bins.
abbrev pub demand : ℕ → Status → ℕ
demand k status = status.backlog.n k + queued (amount_of k) status

in_bin-append :
    (f : BacklogEdge → ℕ) (bin bin' : Bin) → in_bin f (bin ++ bin') ≡ in_bin f bin + in_bin f bin'
in_bin-append f [] bin' = omega arith
in_bin-append f (e ∷ bin) bin' = omega (arith, in_bin-append f bin bin')

in_bins-append :
    (f : BacklogEdge → ℕ) (bins bins' : List Bin)
    → in_bins f (bins ++ bins') ≡ in_bins f bins + in_bins f bins'
in_bins-append f [] bins' = omega arith
in_bins-append f (b ∷ bins) bins' = omega (arith, in_bins-append f bins bins')

pub in_bins-take :
    (f : BacklogEdge → ℕ) (n : ℕ) (bins : List Bin)
    → in_bins f (take n bins) + in_bins f (drop n bins) ≡ in_bins f bins
in_bins-take f zero bins = omega arith
in_bins-take f (suc n) [] = refl
in_bins-take f (suc n) (b ∷ bins) = omega (arith, in_bins-take f n bins)

-- The new entry of a demand.
abbrev new_entry : Status → ℕ → ℕ → ℕ → BacklogEdge
new_entry status src dst amount = record {
  src = src;
  dst = dst;
  backlog = amount % 2 ^ 16;
  metric = status.last_alloc_tslot (backlog_index src dst) % 2 ^ 32;
}

queued-flush :
    (f : BacklogEdge → ℕ) (status : Status) → queued f (flush_backlog_now status) ≡ queued f status
queued-flush f status = omega (arith, in_bins-append f status.q_head (status.new_demands ∷ []))

queued-enqueue :
    (f : BacklogEdge → ℕ) (status : Status) (src dst amount : ℕ)
    → queued f (enqueue_new_demand status src dst amount)
      ≡ queued f status + f (new_entry status src dst amount)
unfolding enqueue_new_demand
queued-enqueue f status src dst amount =
    let e = new_entry status src dst amount in
    let bin = status.new_demands ++ (e ∷ []) in
    let more = in_bin-append f status.new_demands (e ∷ []) in
    elim (Bool-cases (length bin == 32)) [
      | inl full ↦ rw full (omega (arith, more, in_bins-append f status.q_head (bin ∷ [])))
      | inr room ↦ rw room (omega (arith, more))
    ]

-- A new demand changes neither the table nor the spent ones.
pub enqueue_keeps :
    (status : Status) (src dst amount : ℕ)
    → let status' = enqueue_new_demand status src dst amount in
      (status'.backlog ≡ status.backlog) × (status'.q_spent ≡ status.q_spent)
unfolding enqueue_new_demand
enqueue_keeps status src dst amount =
    let Kept : Status → Type 0 = λ s. (s.backlog ≡ status.backlog) × (s.q_spent ≡ status.q_spent) in
    let e = new_entry status src dst amount in
    let status' = record status { new_demands = status.new_demands ++ (e ∷ []) } in
    if_both Kept (length status'.new_demands == 32) (flush_backlog_now status') status' (refl, refl)
      (refl, refl)

-- `held` counts the entries of each pair that the cores have. A pair has one entry anywhere while
-- it is active, and else none, and nothing in the table.
pub record Flows (held : ℕ → ℕ) (status : Status) : Type 0 where
  pub once :
      (k : ℕ)
      → queued (entry_of k) status + held k + in_bins (entry_of k) status.q_spent
        ≡ (if status.backlog.is_active k then 1 else 0)
  pub idle : (k : ℕ) → status.backlog.is_active k ≡ false → status.backlog.n k ≡ 0

-- An entry is new where the table says so, and nothing else changes but by `enqueue_new_demand`.
pub enqueued-Flows :
    (held : ℕ → ℕ) (status : Status) (src dst amount : ℕ)
    → ((k : ℕ)
        → queued (entry_of k) status
            + (if k == backlog_index src dst then 1 else 0)
            + held k
            + in_bins (entry_of k) status.q_spent
          ≡ (if status.backlog.is_active k then 1 else 0))
    → ((k : ℕ) → status.backlog.is_active k ≡ false → status.backlog.n k ≡ 0)
    → Flows held (enqueue_new_demand status src dst amount)
enqueued-Flows held status src dst amount once idle =
    let (same_backlog, same_spent) = enqueue_keeps status src dst amount in
    record {
      once = λ k.
          rw (same_backlog, same_spent)
            (omega (arith, once k, queued-enqueue (entry_of k) status src dst amount));
      idle = λ k. rw same_backlog (idle k);
    }

-- The demand of an entry that is enqueued, where the table stays.
pub demand-enqueue :
    (k : ℕ) (status : Status) (src dst amount : ℕ)
    → demand k (enqueue_new_demand status src dst amount)
      ≡ demand k status + (if k == backlog_index src dst then amount % 2 ^ 16 else 0)
demand-enqueue k status src dst amount =
    rw (enqueue_keeps status src dst amount).0
      (omega (arith, queued-enqueue (amount_of k) status src dst amount))

-- What adding a demand should do.
pub record Added (held : ℕ → ℕ) (index amount : ℕ) (status status' : Status) : Type 0 where
  pub flows : Flows held status'
  pub demands : (k : ℕ) → demand k status' ≡ demand k status + (if k == index then amount else 0)

module _ (held : ℕ → ℕ) (status : Status) (src dst amount : ℕ) (fl : Flows held status)
    (some_amount : amount ≢ 0) (small : amount < 2 ^ 16)
    (room : status.backlog.n (backlog_index src dst) + amount < 2 ^ 32) where
  abbrev index : ℕ
  index = backlog_index src dst

  -- What the addition should come to.
  abbrev Adds : Type 0
  Adds =
      (status' : Status) × (seq_add_backlog status src dst amount ≡ some status')
      × Added held index amount status status'

  not_zero : amount == 0 ≡ false
  not_zero = ground arith

  adds_to_table : status.backlog.is_active index ≡ true → Adds
  unfolding seq_add_backlog backlog_increase
  adds_to_table on = (
    record status {
      backlog = record status.backlog {
        n = assign status.backlog.n index ((status.backlog.n index + amount) % 2 ^ 32);
      };
    },
    rw (not_zero, on) refl,
    record {
      flows = record { once = fl.once; idle = λ k off. ground (arith, fl.idle k off) };
      demands = λ k. elim (Bool-cases (k == index)) [
        | inl e ↦
            let same : status.backlog.n k ≡ status.backlog.n index =
              ap status.backlog.n (ground arith) in
            rw e (omega (arith, same))
        | inr e ↦ rw e (omega arith)
      ];
    },
  )

  adds_to_bins : status.backlog.is_active index ≡ false → Adds
  unfolding seq_add_backlog backlog_increase
  adds_to_bins off =
      let nothing_left : status.backlog.n index == 0 ≡ true = ground (arith, fl.idle index off) in
      let active = record status {
        backlog = record status.backlog { is_active = assign status.backlog.is_active index true };
      } in
      (
        enqueue_new_demand active src dst amount,
        rw (not_zero, off, nothing_left) refl,
        record {
          flows =
              enqueued-Flows held active src dst amount (λ k. ground (arith, fl.once k))
                (λ k off'. ground (arith, fl.idle k));
          demands = λ k.
              demand-enqueue k active src dst amount
              ∙ ap (λ x. demand k status + (if k == index then x else 0)) {x = amount % 2 ^ 16}
                  {y = amount} (omega arith);
        },
      )

  -- While every active pair has one entry in all, with the cores, among the spent ones or in bins,
  -- adding an amount from 1 to 2 ^ 16 - 1, which does not take the table to 2 ^ 32, fails no
  -- assertion; the amount is then found in the table or in the bins in full, the demands of the
  -- other pairs stay, and every active pair still has one entry in all.
  pub seq_add_backlog_lem :
      (status' : Status) × (seq_add_backlog status src dst amount ≡ some status')
      × Added held (backlog_index src dst) amount status status'
  seq_add_backlog_lem = elim (Bool-cases (status.backlog.is_active index)) [
    | inl on ↦ adds_to_table on
    | inr off ↦ adds_to_bins off
  ]
