-- ===== src/Arbiter/Timers/Moves.antt =====
-- What the loops of fp_timer_get_expired move from the wheel to the list of expired timers.
use fastpass.Base.{
  ℕ, zero, suc, ◌+◌, ◌-◌, ◌%◌, ◌^◌, ◌≤◌, ◌<◌, List, [], ◌∷◌, Bool, true, false, not, ◌&&◌, ◌||◌,
  leb, ◌==◌, if◌then◌else◌, ◌≡◌, refl, ap, ◌∙◌, arith, Bool-cases, inl, inr,
}
use fastpass.Arbiter.Lists.{ListApi, has, has-remove, has-append}
use fastpass.Arbiter.Timers.{FpTimers, set_time, expire_slot, expire_loop}

module _ (api : ListApi) where
  open api use {items, list_del, list_add_tail, items-list_del, items-list_add_tail}

  -- Whether a timer is in the list at a head.
  abbrev pub holds : FpTimers api → ℕ → ℕ → Bool
  holds s k x = has x (items s.store k)

  abbrev pub move : FpTimers api → ℕ → ℕ → FpTimers api
  move s l tim = record s {
    store = list_add_tail (list_del s.store tim) l tim;
    time = set_time api s.time tim (2 ^ 64 - 1);
  }

  has_self : (x y : ℕ) → has y (x ∷ []) ≡ (y == x)
  unfolding has
  has_self x y = ground arith

  -- A timer that is moved is in the list `l` and in no other.
  holds-move :
      (s : FpTimers api) (l tim j k x : ℕ)
      → holds s j tim ≡ true
      → holds (move s l tim) k x ≡ (holds s k x && not (x == tim) || (k == l && x == tim))
  holds-move s l tim j k x here =
      ap (has x) (
        items-list_add_tail (list_del s.store tim) l tim k λ i.
          ap (has tim) (items-list_del s.store tim j i here)
          ∙ has-remove tim tim (items s.store i)
          ∙ ground arith)
      ∙ elim (Bool-cases (k == l)) [
        | inl e ↦ rw e (
            has-append x (items (list_del s.store tim) k) (tim ∷ [])
            ∙ ground (
              arith,
              ap (has x) (items-list_del s.store tim j k here),
              has-remove tim x (items s.store k),
              has_self tim x,
            ))
        | inr e ↦ rw e (
            ap (has x) (items-list_del s.store tim j k here)
            ∙ has-remove tim x (items s.store k)
            ∙ ground arith)
      ]

  head-expire_slot :
      (now l : ℕ) (tims : List ℕ) (s : FpTimers api) → (expire_slot api now l tims s).head ≡ s.head
  unfolding expire_slot
  head-expire_slot now l [] s = refl
  head-expire_slot now l (tim ∷ tims) s =
      head-expire_slot now l tims (if leb (s.time tim) now then move s l tim else s) ∙ ground arith

  module _ (start : FpTimers api) (now l : ℕ) (now_lt : now < 2 ^ 64 - 1) where
    -- The timers that `moved` tells were moved from `start`.
    pub record Moved (moved : ℕ → Bool) (s : FpTimers api) : Type 0 where
      pub times : (x : ℕ) → s.time x ≡ (if moved x then 2 ^ 64 - 1 else start.time x)
      pub slots : (k x : ℕ) → (k == l) ≡ false → holds s k x ≡ (holds start k x && not (moved x))
      pub out : (x : ℕ) → holds s l x ≡ (holds start l x || moved x)

    Moved_cong : (f g : ℕ → Bool) (s : FpTimers api) → ((x : ℕ) → f x ≡ g x) → Moved f s → Moved g s
    Moved_cong f g s e h = record {
      times = λ x. ground (arith, h.times x, e x);
      slots = λ k x ne. ground (arith, h.slots k x ne, e x);
      out = λ x. ground (arith, h.out x, e x);
    }

    abbrev due : ℕ → Bool
    due x = leb (start.time x) now

    move-Moved :
        (f : ℕ → Bool) (s : FpTimers api) (tim slot : ℕ)
        → (slot == l) ≡ false
        → Moved f s
        → holds s slot tim ≡ true
        → Moved (λ x. f x || x == tim) (move s l tim)
    move-Moved f s tim slot ne h here = record {
      times = λ x. ground (arith, h.times x);
      slots = λ k x p. ground (arith, holds-move s l tim slot k x here, h.slots k x p);
      out = λ x. ground (arith, holds-move s l tim slot l x here, h.out x);
    }

    at_tim : (x tim : ℕ) → (x == tim) ≡ true → due x ≡ due tim
    at_tim x tim e = ap due (ground arith)

    expire_slot_lem :
        (slot : ℕ) (tims : List ℕ) (f : ℕ → Bool) (s : FpTimers api)
        → (slot == l) ≡ false
        → ((x : ℕ) → has x tims ≡ true → holds start slot x ≡ true)
        → Moved f s
        → Moved (λ x. f x || has x tims && due x) (expire_slot api now l tims s)
    unfolding expire_slot has
    expire_slot_lem slot [] f s ne sub h = Moved_cong f _ s (λ x. ground arith) h
    expire_slot_lem slot (tim ∷ tims) f s ne sub h = elim (Bool-cases (leb (s.time tim) now)) [
      | inl e ↦
          let due_tim : (not (f tim) && due tim) ≡ true = ground (arith, h.times tim) in
          let here : holds s slot tim ≡ true = ground (arith, sub tim, h.slots slot tim ne) in
          rw e (
            Moved_cong _ _ _ (λ x. ground (arith, due_tim, at_tim x tim))
              (expire_slot_lem slot tims (λ x. f x || x == tim) (move s l tim) ne
                (λ x on. ground (arith, sub x)) (move-Moved f s tim slot ne h here)))
      | inr e ↦
          let not_due : (f tim || not (due tim)) ≡ true = ground (arith, h.times tim) in
          rw e (
            Moved_cong _ _ _ (λ x. ground (arith, not_due, at_tim x tim, ap f {x = x} {y = tim}))
              (expire_slot_lem slot tims f s ne (λ x on. ground (arith, sub x)) h))
    ]

    at_slot : (h' h x : ℕ) → h' ≡ h → holds start (h' % 1024) x ≡ holds start (h % 1024) x
    at_slot h' h x e = ap (λ y. holds start (y % 1024) x) e

    -- The timers that are due among those of the slots for the heads from `h` on, `k` of them.
    unfoldable pub visited : ℕ → ℕ → ℕ → Bool
    visited h zero x = false
    visited h (suc k) x = holds start (h % 1024) x && due x || visited (h + 1) k x

    pub expire_loop_lem :
        (k h : ℕ) (f : ℕ → Bool) (s : FpTimers api)
        → 1024 ≤ l
        → s.head ≡ h
        → h + k < 2 ^ 64
        → Moved f s
        → Moved (λ x. f x || visited h k x) (expire_loop api now l k s)
    unfolding expire_loop visited
    expire_loop_lem zero h f s far at fit m = Moved_cong f _ s (λ x. ground arith) m
    expire_loop_lem (suc k) h f s far at fit m =
        let slot = s.head % 1024 in
        let tims = items s.store slot in
        let ne : (slot == l) ≡ false = ground arith in
        let m_1 = expire_slot_lem slot tims f s ne (λ x on. ground (arith, m.slots slot x ne)) m in
        let s_1 = expire_slot api now l tims s in
        let next : FpTimers api = record s_1 { head = (s_1.head + 1) % 2 ^ 64 } in
        Moved_cong _ _ _ (λ x. ground (arith, m.slots slot x ne, at_slot s.head h x at))
          (expire_loop_lem k (h + 1) (λ x. f x || has x tims && due x) next far
            (omega (arith, head-expire_slot now l tims s)) (omega arith)
            (record { times = m_1.times; slots = m_1.slots; out = m_1.out }))

    pub visited-due : (h k x : ℕ) → visited h k x ≡ true → due x ≡ true
    unfolding visited
    visited-due h zero x on = cc
    visited-due h (suc k) x on = ground (arith, visited-due (h + 1) k x)

    pub visited_held :
        (h k j x : ℕ)
        → h ≤ j
        → j < h + k
        → holds start (j % 1024) x ≡ true
        → due x ≡ true
        → visited h k x ≡ true
    unfolding visited
    visited_held h zero j x p q on d = absurd (omega arith)
    visited_held h (suc k) j x p q on d = elim (Bool-cases (h == j)) [
      | inl e ↦ ground (arith, at_slot h j x (ground arith))
      | inr e ↦ ground (arith, visited_held (h + 1) k j x)
    ]
