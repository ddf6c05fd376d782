-- ===== src/Alloc/Loop/Rounds.antt =====
-- Every round of the loop of seq_get_admissible_traffic keeps its invariant.
use fastpass.Base.{ℕ, zero, suc, ◌+◌, ◌-◌, ◌≤◌, List, [], ◌∷◌, length, ◌==◌, arith, if_both}
use fastpass.Base.Bits.{bit}
use fastpass.Alloc.Batch.{disallow_lsb_timeslot}
use fastpass.Alloc.Batch.Avail.{disallow-IsValid, disallow-src}
use fastpass.Alloc.Core.{
  Core, admitted_at, bin_at, move_bin_to_q_out, core_flush_q_out, core_flush_q_spent,
}
use fastpass.Alloc.Core.Runs.{Inv, move_bin_to_q_out-Inv, flush_q_out-Inv, flush_q_spent-Inv}
use fastpass.Alloc.Loop.{
  LoopState, Input, Progress, going, wrapped, send_admitted, allow_bins, update_allowed,
  new_timeslot, round, move_core_to_q_out, wrap_up, run_rounds, retime, send_due, admit_gap_of,
  arrive, then_handle, then_run, flush_out, flush_spent,
}
use fastpass.Alloc.Loop.Inputs.{
  QueueInRange, LoopInv, append-QueueInRange, snoc-AllOnce, burst-LoopInv, handle_inputs-LoopInv,
}

disallow-Inv :
    (core : Core)
    → Inv core
    → Inv (record core { batch_state = disallow_lsb_timeslot core.batch_state })
disallow-Inv core v = record {
  once = record {
    valid = disallow-IsValid core.batch_state v.once.valid;
    slots = v.once.slots;
    once = λ a t h. rw (disallow-src core.batch_state) (v.once.once a t h);
  };
  ranged = v.ranged;
}

send_admitted-LoopInv :
    (left t : ℕ) (st : LoopState) → t + left ≤ 16 → LoopInv st → LoopInv (send_admitted left t st)
unfolding send_admitted
send_admitted-LoopInv zero t st h v = v
send_admitted-LoopInv (suc left) t st h v =
    send_admitted-LoopInv left (t + 1) _ (omega arith) (record {
      core = disallow-Inv st.core v.core;
      ins = v.ins;
      heads = v.heads;
      outs =
          snoc-AllOnce st.q_admitted_out (admitted_at st.core t) v.outs
            (λ a. omega (arith, v.core.once.once a t (omega arith)));
      sent = v.sent;
    })

allow_bins-Inv : (left b : ℕ) (core : Core) → Inv core → Inv (allow_bins left b core)
unfolding allow_bins
allow_bins-Inv zero b core v = v
allow_bins-Inv (suc left) b core v =
    allow_bins-Inv left (b + 1) _ (record { once = v.once; ranged = v.ranged })

update_allowed-LoopInv :
    (first now : ℕ) (st : LoopState) → LoopInv st → LoopInv (update_allowed first now st)
unfolding update_allowed
update_allowed-LoopInv first now st v = if_both LoopInv _ st _ v (record {
  core = allow_bins-Inv _ st.processed_bins st.core v.core;
  ins = v.ins;
  heads = v.heads;
  outs = v.outs;
  sent = v.sent;
})

retime-LoopInv : (first now : ℕ) (st : LoopState) → LoopInv st → LoopInv (retime first now st)
retime-LoopInv first now st v = record {
  core = v.core;
  ins = v.ins;
  heads = v.heads;
  outs = v.outs;
  sent = v.sent;
}

admit_gap-le : (first now : ℕ) → admit_gap_of first now ≤ 16
admit_gap-le first now = ground arith

send_due-LoopInv : (first now : ℕ) (st : LoopState) → LoopInv st → LoopInv (send_due first now st)
send_due-LoopInv first now st v =
    let v' =
      send_admitted-LoopInv (admit_gap_of first now - st.admitted_bins) st.admitted_bins st
        (omega (arith, admit_gap-le first now, v.sent)) v in
    record {
      core = v'.core;
      ins = v'.ins;
      heads = v'.heads;
      outs = v'.outs;
      sent = admit_gap-le first now;
    }

-- The invariant of what a part of a round leaves.
pub data ProgressInv : Progress → Type 0 where
  still : {st : LoopState} → LoopInv st → ProgressInv (going st)
  ended : {st : LoopState} → LoopInv st → ProgressInv (wrapped st)

new_timeslot-Inv :
    (first now : ℕ) (st : LoopState) → LoopInv st → ProgressInv (new_timeslot first now st)
unfolding new_timeslot
new_timeslot-Inv first now st v =
    let timed = retime-LoopInv first now st v in
    let sent = send_due-LoopInv first now (retime first now st) timed in
    if_both ProgressInv _ _ _ (still (update_allowed-LoopInv first now _ timed))
      (if_both ProgressInv _ _ _ (ended sent) (still (update_allowed-LoopInv first now _ sent)))

-- What other cores put in the queues: bins of node ids.
abbrev pub InputsInRange : List Input → Type 0
InputsInRange [] = Unit
InputsInRange (i ∷ is) = QueueInRange i.arrived_head × QueueInRange i.arrived_in × InputsInRange is

arrive-LoopInv :
    (i : Input) (st : LoopState)
    → QueueInRange i.arrived_head
    → QueueInRange i.arrived_in
    → LoopInv st
    → LoopInv (arrive i st)
arrive-LoopInv i st h k v = record {
  core = v.core;
  ins = append-QueueInRange st.queue_in i.arrived_in v.ins k;
  heads = append-QueueInRange st.q_head i.arrived_head v.heads h;
  outs = v.outs;
  sent = v.sent;
}

then_handle-Inv : {p : Progress} → ProgressInv p → ProgressInv (then_handle p)
then_handle-Inv (still {st} v) = still (handle_inputs-LoopInv st v)
then_handle-Inv (ended v) = ended v

round-Inv :
    (first : ℕ) (i : Input) (st : LoopState)
    → QueueInRange i.arrived_head
    → QueueInRange i.arrived_in
    → LoopInv st
    → ProgressInv (round first i st)
unfolding round
round-Inv first i st h k v =
    let v' = arrive-LoopInv i st h k v in
    then_handle-Inv (
      if_both ProgressInv (i.now_timeslot == st.prev_timeslot) (going (arrive i st))
        (new_timeslot first i.now_timeslot (arrive i st)) (still v')
        (new_timeslot-Inv first i.now_timeslot (arrive i st) v'))

move_core-Inv : (left b : ℕ) (core : Core) → Inv core → Inv (move_core_to_q_out left b core)
unfolding move_core_to_q_out
move_core-Inv zero b core v = v
move_core-Inv (suc left) b core v = move_core-Inv left (b + 1) _ (
    if_both Inv (bit core.non_empty_bins b) (move_bin_to_q_out (bin_at core b) core) core
      (move_bin_to_q_out-Inv (bin_at core b) core v) v)

flush_out-Inv : (core : Core) → Inv core → Inv (flush_out core)
flush_out-Inv core v =
    if_both Inv (length core.out_bin == 0) core (core_flush_q_out core) v (flush_q_out-Inv core v)

flush_spent-Inv : (core : Core) → Inv core → Inv (flush_spent core)
flush_spent-Inv core v =
    if_both Inv (length core.spent_bin == 0) core (core_flush_q_spent core) v
      (flush_q_spent-Inv core v)

wrap_up-LoopInv : (st : LoopState) → LoopInv st → LoopInv (wrap_up st)
unfolding wrap_up
wrap_up-LoopInv st v =
    let moved = move_core-Inv 48 0 st.core v.core in
    let flushed = flush_spent-Inv _ (flush_out-Inv _ moved) in
    let v' =
      burst-LoopInv 16 _
        (record { core = flushed; ins = v.ins; heads = v.heads; outs = v.outs; sent = v.sent }) in
    record {
      core = record { once = v'.core.once; ranged = v'.core.ranged };
      ins = v'.ins;
      heads = v'.heads;
      outs = v'.outs;
      sent = v'.sent;
    }

then_run-Inv :
    (rest : LoopState → Progress) {p : Progress}
    → ((st : LoopState) → LoopInv st → ProgressInv (rest st))
    → ProgressInv p
    → ProgressInv (then_run rest p)
then_run-Inv rest h (still {st} v) = h st v
then_run-Inv rest h (ended {st} v) = ended (wrap_up-LoopInv st v)

pub run_rounds-Inv :
    (first : ℕ) (is : List Input) (st : LoopState)
    → InputsInRange is
    → LoopInv st
    → ProgressInv (run_rounds first is st)
unfolding run_rounds
run_rounds-Inv first [] st h v = still v
run_rounds-Inv first (i ∷ is) st (hh, hi, hs) v =
    then_run-Inv (run_rounds first is) (λ st' v'. run_rounds-Inv first is st' hs v')
      (round-Inv first i st hh hi v)
