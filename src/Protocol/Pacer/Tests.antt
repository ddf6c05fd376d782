-- ===== src/Protocol/Pacer/Tests.antt =====
-- Three events in a burst, and the theorem at them.
use fastpass.Base.{ℕ, suc, ◌+◌, ◌*◌, ◌≤◌, List, [], ◌∷◌, length, refl, arith}
use fastpass.Protocol.Pacer.{
  InRange, event, Pacer, pacer_init_full, pacer_trigger, pacer_reset, event_time, last_event,
  last_event_lem,
}

abbrev full : Pacer
full = pacer_init_full 1000000 200 600 10

abbrev afterwards : List ℕ
afterwards = 1000030 ∷ []

last_event_example :
    suc (suc (length afterwards)) * 200 + event_time 1000000 full
    ≤ last_event 1000000 (1000020 ∷ afterwards) full + 600
unfolding pacer_trigger pacer_reset
last_event_example =
    let now_ok : InRange 1000000 full = (refl, omega arith, omega arith, omega arith) in
    let then_full = event 1000000 full in
    let next_ok : InRange 1000020 then_full = (refl, omega arith, omega arith, omega arith) in
    let last_ok : InRange 1000030 (event 1000020 then_full) =
      (refl, omega arith, omega arith, omega arith) in
    last_event_lem 1000000 1000020 afterwards full (now_ok, (next_ok, last_ok))
