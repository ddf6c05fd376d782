-- ===== src/Arbiter/Timers/Tests.antt =====
-- The theorem of the timers at a concrete wheel.
use fastpass.Base.{
  ℕ, ◌*◌, ◌/◌, ◌^◌, ◌-◌, List, [], ◌∷◌, ◌++◌, ◌||◌, some, leb, ◌==◌, if◌then◌else◌, ◌≡◌, refl,
  arith,
}
use fastpass.Arbiter.Lists.{ListApi, has, remove}
use fastpass.Arbiter.Timers.{FpTimers, fp_timer_get_expired}
use fastpass.Arbiter.Timers.Moves.{holds}
use fastpass.Arbiter.Timers.Wheel.{OnWheel, fp_timer_get_expired_lem}

-- Lists as a function of their heads.
abbrev tables : ListApi
tables = record {
  Store = ℕ → List ℕ;
  items = λ s k. s k;
  list_head_init = λ s h k. if k == h then [] else s k;
  list_add_tail = λ s h x k. if k == h then s k ++ (x ∷ []) else s k;
  list_del = λ s x k. remove x (s k);
  items-list_head_init = λ s h k. refl;
  items-list_add_tail = λ s h x k _. refl;
  items-list_del = λ s x j k _. refl;
}

-- The timer 7 is set to 9, the timer 8 to 2000.
abbrev wheel : FpTimers tables
wheel = record {
  head = 5;
  store = λ k. if k == 9 then 7 ∷ [] else if k == 976 then 8 ∷ [] else [];
  time = λ x. if x == 7 then 9 else if x == 8 then 2000 else 2 ^ 64 - 1;
}

wheel-OnWheel : OnWheel tables wheel
unfolding has
wheel-OnWheel = record { in_slot = λ k x h. ground arith }

-- At the time 10 the list 1024 gets the timer 7.
fp_timer_get_expired_example :
    (s' : FpTimers tables) × (fp_timer_get_expired tables wheel (10 * 16384) 1024 ≡ some s')
    × ((x : ℕ)
        → holds tables s' 1024 x
          ≡ (holds tables wheel 1024 x || leb (wheel.time x) (163840 / 16384)))
    × ((x : ℕ)
        → s'.time x ≡ (if leb (wheel.time x) (163840 / 16384) then 2 ^ 64 - 1 else wheel.time x))
    × OnWheel tables s'
fp_timer_get_expired_example =
    fp_timer_get_expired_lem tables wheel (10 * 16384) 1024 wheel-OnWheel (omega arith)
      (omega arith) (omega arith) (omega arith)
