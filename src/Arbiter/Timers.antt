-- ===== src/Arbiter/Timers.antt =====
-- src/arbiter/fp_timer.h: timers on a wheel of 1024 lists.
--
-- A timer is a number, its node's; the heads 0 to 1023 are the slots of the wheel.
mod Tests
pub mod Moves
pub mod Wheel
use fastpass.Base.{
  ℕ, zero, suc, ◌+◌, ◌-◌, ◌*◌, ◌/◌, ◌%◌, ◌^◌, List, [], ◌∷◌, Bool, true, false, not, Option, none,
  some, ltb, leb, ◌==◌, if◌then◌else◌,
}
use fastpass.Arbiter.Lists.{ListApi}

abbrev pub max_timer_slots : ℕ
max_timer_slots = 1024

abbrev pub timer_granularity : ℕ
timer_granularity = 16 * 1024

abbrev pub timer_not_set_time : ℕ
timer_not_set_time = 2 ^ 64 - 1

module _ (api : ListApi) where
  open api use {Store, items, list_head_init, list_add_tail, list_del}

  -- struct fp_timers, with the lists and the times of all timers.
  pub record FpTimers : Type 0 where
    pub head : ℕ
    pub store : Store
    pub time : ℕ → ℕ

  abbrev pub set_time : (ℕ → ℕ) → ℕ → ℕ → ℕ → ℕ
  set_time time tim t x = if x == tim then t else time x

  -- The slots from `i` on, `k` of them.
  unfoldable pub init_slots : ℕ → ℕ → Store → Store
  init_slots i zero store = store
  init_slots i (suc k) store = init_slots (i + 1) k (list_head_init store i)

  unfoldable pub fp_init_timers : FpTimers → ℕ → FpTimers
  unfolding init_slots
  fp_init_timers timers now = record timers {
    head = now / timer_granularity;
    store = init_slots 0 max_timer_slots timers.store;
  }

  unfoldable pub fp_init_timer : FpTimers → ℕ → FpTimers
  fp_init_timer timers tim = record timers { time = set_time timers.time tim timer_not_set_time }

  -- The slot for a time that is already divided by the granularity.
  abbrev pub slot_for : ℕ → ℕ → ℕ
  slot_for head t = if leb t head then head % max_timer_slots else t % max_timer_slots

  unfoldable pub fp_timer_reset : FpTimers → ℕ → ℕ → FpTimers
  fp_timer_reset timers tim when =
      let t = when / timer_granularity in
      let slot = slot_for timers.head t in
      let store =
        if not (timers.time tim == timer_not_set_time)
        then list_del timers.store tim
        else timers.store in
      record timers { time = set_time timers.time tim t; store = list_add_tail store slot tim }

  unfoldable pub fp_timer_stop : FpTimers → ℕ → FpTimers
  fp_timer_stop timers tim =
      if timers.time tim == timer_not_set_time then timers else record timers {
        time = set_time timers.time tim timer_not_set_time;
        store = list_del timers.store tim;
      }

  -- The loop over the timers of one slot; `l` is the list for the expired ones.
  unfoldable pub expire_slot : ℕ → ℕ → List ℕ → FpTimers → FpTimers
  expire_slot now l [] timers = timers
  expire_slot now l (tim ∷ tims) timers = expire_slot now l tims (
      if leb (timers.time tim) now
      then record timers {
        store = list_add_tail (list_del timers.store tim) l tim;
        time = set_time timers.time tim timer_not_set_time;
      }
      else timers)

  -- The loop over the slots, of which `k` are left.
  unfoldable pub expire_loop : ℕ → ℕ → ℕ → FpTimers → FpTimers
  unfolding expire_slot
  expire_loop now l zero timers = timers
  expire_loop now l (suc k) timers =
      let slot = timers.head % max_timer_slots in
      let visited = expire_slot now l (items timers.store slot) timers in
      expire_loop now l k (record visited { head = (visited.head + 1) % 2 ^ 64 })

  -- The loop runs while `now` is not before the head. `none` means that the assertion fails, which
  -- a time before the head makes too.
  unfoldable pub fp_timer_get_expired : FpTimers → ℕ → ℕ → Option FpTimers
  unfolding expire_loop
  fp_timer_get_expired timers when l =
      let now = when / timer_granularity in
      if ltb ((now + 2 ^ 64 - timers.head) % 2 ^ 64) (100 * max_timer_slots)
      then some (record (expire_loop now l (now + 1 - timers.head) timers) { head = now })
      else none
