-- ===== src/Protocol/Pacer.antt =====
-- src/protocol/pacer.h: events are paced to a rate, with some credit while there are none.
mod Tests
use fastpass.Base.{
  ℕ, zero, suc, ◌+◌, ◌-◌, ◌*◌, ◌^◌, ◌≤◌, ◌<◌, max, Bool, true, false, not, List, [], ◌∷◌, length,
  ◌==◌, if◌then◌else◌, add64, sub64, ◌≡◌, refl, ap, arith, Bool-cases, inl, inr,
}

-- PACER_NO_NEXT_EVENT
abbrev pub pacer_no_next_event : ℕ
pacer_no_next_event = 2 ^ 64 - 1

pub record Pacer : Type 0 where
  -- `T` of the source
  pub tokens_from : ℕ
  pub next_event : ℕ
  pub cost : ℕ
  pub max_credit : ℕ
  pub min_gap : ℕ

abbrev pub pacer_init_full : ℕ → ℕ → ℕ → ℕ → Pacer
pacer_init_full now cost max_credit min_gap = record {
  tokens_from = sub64 now max_credit;
  next_event = pacer_no_next_event;
  cost = cost;
  max_credit = max_credit;
  min_gap = min_gap;
}

abbrev pub pacer_is_triggered : Pacer → Bool
pacer_is_triggered pa = not (pa.next_event == pacer_no_next_event)

-- `true` if the event was not pending before.
unfoldable pub pacer_trigger : ℕ → Pacer → Bool × Pacer
pacer_trigger now pa =
    let next = max (add64 pa.tokens_from pa.cost) (add64 now pa.min_gap) in
    if pacer_is_triggered pa then (false, pa) else (true, record pa { next_event = next })

abbrev pub pacer_next_event : Pacer → ℕ
pacer_next_event pa = pa.next_event

unfoldable pub pacer_reset : Pacer → Pacer
pacer_reset pa = record pa {
  tokens_from = add64 (max pa.tokens_from (sub64 pa.next_event pa.max_credit)) pa.cost;
  next_event = pacer_no_next_event;
}

-- An event that is triggered, and happens at its time.
abbrev pub event_time : ℕ → Pacer → ℕ
event_time now pa = pacer_next_event (pacer_trigger now pa).1

abbrev pub event : ℕ → Pacer → Pacer
event now pa = pacer_reset (pacer_trigger now pa).1

-- The time of the last of the events that are triggered at the times of the list.
abbrev pub last_event : ℕ → List ℕ → Pacer → ℕ
last_event now [] pa = event_time now pa
last_event now (now' ∷ nows) pa = last_event now' nows (event now pa)

-- Nothing is pending, and no time wraps.
abbrev pub InRange : ℕ → Pacer → Type 0
InRange now pa =
    (pa.next_event ≡ pacer_no_next_event)
    × (pa.tokens_from + 2 * pa.cost < 2 ^ 63)
    × (pa.max_credit ≤ now)
    × (now + pa.min_gap + pa.cost < 2 ^ 63)

abbrev pub StayInRange : ℕ → List ℕ → Pacer → Type 0
StayInRange now [] pa = InRange now pa
StayInRange now (now' ∷ nows) pa = InRange now pa × StayInRange now' nows (event now pa)

record Paced (now : ℕ) (pa : Pacer) : Type 0 where
  soon : pa.tokens_from + pa.cost ≤ event_time now pa
  gap : now + pa.min_gap ≤ event_time now pa
  spent : pa.tokens_from + pa.cost ≤ (event now pa).tokens_from
  credit : event_time now pa + pa.cost ≤ (event now pa).tokens_from + pa.max_credit
  same_cost : (event now pa).cost ≡ pa.cost

paced : (now : ℕ) (pa : Pacer) → InRange now pa → Paced now pa
unfolding pacer_trigger pacer_reset
paced now pa (idle, low, old, high) = record {
  soon = ground (arith, idle);
  gap = ground (arith, idle);
  spent = ground (arith, idle);
  credit = ground (arith, idle);
  same_cost = ground (arith, idle);
}

-- Every event costs.
last_from :
    (now : ℕ) (nows : List ℕ) (pa : Pacer)
    → StayInRange now nows pa
    → pa.tokens_from + suc (length nows) * pa.cost ≤ last_event now nows pa
last_from now [] pa ok = omega (arith, (paced now pa ok).soon)
last_from now (now' ∷ nows) pa (ok, stay) =
    let p = paced now pa ok in
    let rest = last_from now' nows (event now pa) stay in
    let same : suc (length nows) * (event now pa).cost ≡ suc (length nows) * pa.cost =
      ap (λ c. suc (length nows) * c) p.same_cost in
    omega (arith, rest, same, p.spent)

-- Of two or more events that are triggered one after the other, each after the last has happened,
-- the cost of all is at most the time from the first to the last and the credit. No time may wrap
-- at 2 ^ 63, and the clock must be at least the credit.
pub last_event_lem :
    (now now' : ℕ) (nows : List ℕ) (pa : Pacer)
    → StayInRange now (now' ∷ nows) pa
    → suc (suc (length nows)) * pa.cost + event_time now pa
      ≤ last_event now (now' ∷ nows) pa + pa.max_credit
last_event_lem now now' nows pa (ok, stay) =
    let p = paced now pa ok in
    let rest = last_from now' nows (event now pa) stay in
    let same : suc (length nows) * (event now pa).cost ≡ suc (length nows) * pa.cost =
      ap (λ c. suc (length nows) * c) p.same_cost in
    omega (arith, rest, same, p.credit)
