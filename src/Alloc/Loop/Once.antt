-- ===== src/Alloc/Loop/Once.antt =====
-- No batch that seq_get_admissible_traffic sends out admits a source twice in a timeslot.
use fastpass.Base.{
  ℕ, zero, suc, ◌*◌, List, [], ◌∷◌, replicate, ◌≡◌, refl, ◌∙◌, arith, get_or-replicate_self,
}
use fastpass.Alloc.Batch.{BatchState}
use fastpass.Alloc.Batch.Avail.{init-IsValid}
use fastpass.Alloc.Batch.Avail.{IsValid}
use fastpass.Alloc.Bins.{Bin, AdmittedEdge}
use fastpass.Alloc.Core.{Core, bin_at}
use fastpass.Alloc.Core.Once.{SrcOnce}
use fastpass.Alloc.Core.Runs.{BinInRange, empty-BinInRange, incoming-kept, incoming-ranged}
use fastpass.Alloc.Loop.{
  Config, LoopState, Input, Progress, going, wrapped, alloc_core_reset, take_request,
  process_new_requests, start_batch, fresh_state, init_admitted, seq_get_admissible_traffic,
}
use fastpass.Alloc.Loop.Inputs.{QueueInRange, AllOnce, LoopInv}
use fastpass.Alloc.Loop.Rounds.{ProgressInv, still, ended, InputsInRange, run_rounds-Inv}

-- What holds before the lists of admitted pairs are made empty.
record Started (batch : BatchState) (st : LoopState) : Type 0 where
  same_batch : st.core.batch_state ≡ batch
  ranged : (b : ℕ) → BinInRange (bin_at st.core b)
  ins : QueueInRange st.queue_in
  heads : QueueInRange st.q_head
  outs : st.q_admitted_out ≡ []
  none_sent : st.admitted_bins ≡ 0

take_request-Started :
    {batch : BatchState} (q : List Bin) (st : LoopState)
    → QueueInRange q
    → Started batch st
    → Started batch (take_request q st)
take_request-Started [] st h v = v
take_request-Started (bin ∷ rest) st (h, hs) v = record {
  same_batch = (incoming-kept bin st.core).0 ∙ v.same_batch;
  ranged = incoming-ranged bin st.core h v.ranged;
  ins = v.ins;
  heads = hs;
  outs = v.outs;
  none_sent = v.none_sent;
}

process_new_requests-Started :
    {batch : BatchState} (n : ℕ) (st : LoopState)
    → Started batch st
    → Started batch (process_new_requests n st)
unfolding process_new_requests
process_new_requests-Started zero st v = v
process_new_requests-Started (suc n) st v =
    process_new_requests-Started n (take_request st.q_head st)
      (take_request-Started st.q_head st v.heads v)

pub empty_batch-SrcOnce : (s : BatchState) → IsValid s → SrcOnce s (replicate 16 [])
empty_batch-SrcOnce s v = record {
  valid = v;
  slots = refl;
  once = λ a t h. rw (get_or-replicate_self {A = List AdmittedEdge} 16 t []) (ground arith);
}

fresh_state-Started :
    (status : Config) (clock : ℕ) (core : Core) (queue_in q_head : List Bin)
    → QueueInRange queue_in
    → QueueInRange q_head
    → Started
        (alloc_core_reset status core).batch_state
        (fresh_state status clock core queue_in q_head)
unfolding alloc_core_reset
fresh_state-Started status clock core queue_in q_head hi hh = record {
  same_batch = refl;
  ranged = λ b. rw (get_or-replicate_self {A = Bin} 48 b []) empty-BinInRange;
  ins = hi;
  heads = hh;
  outs = refl;
  none_sent = refl;
}

init_admitted-LoopInv :
    {batch : BatchState} (st : LoopState)
    → IsValid batch
    → Started batch st
    → LoopInv (init_admitted st)
init_admitted-LoopInv st v s = record {
  core = record { once = rw s.same_batch (empty_batch-SrcOnce _ v); ranged = s.ranged };
  ins = s.ins;
  heads = s.heads;
  outs = rw s.outs tt;
  sent = rw s.none_sent (omega arith);
}

reset-IsValid :
    (status : Config) (core : Core)
    → IsValid core.batch_state
    → IsValid (alloc_core_reset status core).batch_state
unfolding alloc_core_reset
reset-IsValid status core v = init-IsValid core.batch_state _ _ _ _ v

start_batch-LoopInv :
    (status : Config) (waits clock : ℕ) (core : Core) (queue_in q_head : List Bin)
    → IsValid core.batch_state
    → QueueInRange queue_in
    → QueueInRange q_head
    → LoopInv (start_batch status waits clock core queue_in q_head)
unfolding start_batch
start_batch-LoopInv status waits clock core queue_in q_head v hi hh =
    init_admitted-LoopInv _ (reset-IsValid status core v) (
      process_new_requests-Started (8 * waits) (fresh_state status clock core queue_in q_head)
        (fresh_state-Started status clock core queue_in q_head hi hh))

-- The timeslots sent out, whether or not the batch has ended.
abbrev pub sent_out : Progress → List (List AdmittedEdge)
sent_out (going st) = st.q_admitted_out
sent_out (wrapped st) = st.q_admitted_out

outs_of : {p : Progress} → ProgressInv p → AllOnce (sent_out p)
outs_of (still v) = v.outs
outs_of (ended v) = v.outs

-- Whatever the clock shows and the other cores send, as long as all flows are between the 256
-- nodes, no timeslot that `seq_get_admissible_traffic` sends out has two pairs with one source.
pub sources_once :
    (status : Config) (waits clock first : ℕ) (inputs : List Input) (core : Core)
    (queue_in q_head : List Bin)
    → IsValid core.batch_state
    → QueueInRange queue_in
    → QueueInRange q_head
    → InputsInRange inputs
    → AllOnce
        (sent_out (seq_get_admissible_traffic status waits clock first inputs core queue_in q_head))
unfolding seq_get_admissible_traffic
sources_once status waits clock first inputs core queue_in q_head v hi hh h = outs_of (
    run_rounds-Inv first inputs _ h
      (start_batch-LoopInv status waits clock core queue_in q_head v hi hh))
