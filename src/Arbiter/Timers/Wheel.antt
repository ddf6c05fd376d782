-- ===== src/Arbiter/Timers/Wheel.antt =====
-- Every timer that is set stands in its slot, and fp_timer_get_expired gives those that are due.
use fastpass.Base.{
  ℕ, ◌+◌, ◌-◌, ◌/◌, ◌%◌, ◌^◌, ◌≤◌, ◌<◌, Bool, true, false, not, ◌&&◌, ◌||◌, some, leb, ◌==◌,
  if◌then◌else◌, ◌≡◌, refl, sym, ◌∙◌, arith, Bool-cases, inl, inr,
}
use fastpass.Arbiter.Lists.{ListApi}
use fastpass.Arbiter.Timers.{FpTimers, slot_for, expire_loop, fp_timer_get_expired}
use fastpass.Arbiter.Timers.Moves.{
  holds, Moved, visited, visited-due, visited_held, expire_loop_lem,
}

module _ (api : ListApi) where
  open api use {items, list_del, list_add_tail, items-list_del, items-list_add_tail}

  abbrev pub is_set : FpTimers api → ℕ → Bool
  is_set s x = not (s.time x == 2 ^ 64 - 1)

  -- A timer is in the slot for its time if it is set, and in no slot if it is not.
  pub record OnWheel (s : FpTimers api) : Type 0 where
    pub in_slot :
        (k x : ℕ)
        → k < 1024
        → holds api s k x ≡ (is_set s x && (k == slot_for api s.head (s.time x)))

  module _ (s : FpTimers api) (w : OnWheel s) (now l : ℕ) (now_lt : now < 2 ^ 64 - 1)
      (le : s.head ≤ now) (far : 1024 ≤ l) where
    abbrev rounds : ℕ
    rounds = now + 1 - s.head

    abbrev after : FpTimers api
    after = record (expire_loop api now l rounds s) { head = now }

    in_reach :
        (j x : ℕ)
        → s.head ≤ j
        → j ≤ now
        → holds api s (j % 1024) x ≡ true
        → leb (s.time x) now ≡ true
        → visited api s now l now_lt s.head rounds x ≡ true
    in_reach j x p q = visited_held api s now l now_lt s.head rounds j x p (omega arith)

    -- The slots that are visited hold exactly the timers that are due.
    all_due : (x : ℕ) → visited api s now l now_lt s.head rounds x ≡ leb (s.time x) now
    all_due x = elim (Bool-cases (leb (s.time x) now)) [
      | inl e ↦ elim (Bool-cases (leb (s.time x) s.head)) [
        | inl early ↦
            in_reach s.head x (omega arith) le
              (w.in_slot (s.head % 1024) x (omega arith) ∙ ground arith) e
            ∙ sym e
        | inr late ↦
            in_reach (s.time x) x (ground arith) (ground arith)
              (w.in_slot (s.time x % 1024) x (omega arith) ∙ ground arith) e
            ∙ sym e
      ]
      | inr e ↦ elim (Bool-cases (visited api s now l now_lt s.head rounds x)) [
        | inl v ↦ cc (visited-due api s now l now_lt s.head rounds x v)
        | inr v ↦ v ∙ sym e
      ]
    ]

    moved :
        Moved api s now l now_lt
          (λ x. false || visited api s now l now_lt s.head rounds x)
          (expire_loop api now l rounds s)
    moved =
        expire_loop_lem api s now l now_lt rounds s.head (λ _. false) s far refl (omega arith)
          (record { times = λ x. refl; slots = λ k x _. ground arith; out = λ x. ground arith })

    times_after : (x : ℕ) → after.time x ≡ (if leb (s.time x) now then 2 ^ 64 - 1 else s.time x)
    times_after x = ground (arith, moved.times x, all_due x)

    out_after : (x : ℕ) → holds api after l x ≡ (holds api s l x || leb (s.time x) now)
    out_after x = ground (arith, moved.out x, all_due x)

    after-OnWheel : OnWheel after
    after-OnWheel = record {
      in_slot = λ k x h.
          ground (arith, moved.slots k x (ground arith), w.in_slot k x h, all_due x, times_after x);
    }

  -- While every timer that is set is in its slot and no other, and the time is not before the
  -- head, nor 102400 slots or more after it, fp_timer_get_expired puts exactly the timers that are
  -- set to this time or an earlier one into the list that it is given, where the timers that were
  -- there stay; these are then not set, the others keep their times, and every timer that is set is
  -- in its slot and no other.
  pub fp_timer_get_expired_lem :
      (s : FpTimers api) (when l : ℕ)
      → OnWheel s
      → when < 2 ^ 64
      → s.head ≤ when / 16384
      → when / 16384 < s.head + 102400
      → 1024 ≤ l
      → (s' : FpTimers api) × (fp_timer_get_expired api s when l ≡ some s')
        × ((x : ℕ) → holds api s' l x ≡ (holds api s l x || leb (s.time x) (when / 16384)))
        × ((x : ℕ) → s'.time x ≡ (if leb (s.time x) (when / 16384) then 2 ^ 64 - 1 else s.time x))
        × OnWheel s'
  unfolding fp_timer_get_expired
  fp_timer_get_expired_lem s when l w fit le near far =
      let now = when / 16384 in
      let now_lt : now < 2 ^ 64 - 1 = omega arith in
      (
        after s w now l now_lt le far,
        ground arith,
        out_after s w now l now_lt le far,
        times_after s w now l now_lt le far,
        after-OnWheel s w now l now_lt le far,
      )
