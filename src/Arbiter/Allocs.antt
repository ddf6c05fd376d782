-- ===== src/Arbiter/Allocs.antt =====
-- src/arbiter/comm_core.c: fill_packet_alloc, how the timeslots that an end node was given are
-- written into a packet, and the loop of handle_alloc (src/kernel-mod/sch_fastpass.c) that reads
-- them.
--
-- A byte for a timeslot has the place of its destination in the packet, from 1 on, in its high
-- half, and in its low half one less than the distance from the timeslot before. A byte with a high
-- half of 0 moves on by 16 timeslots and up to 15 times as many more.
pub mod Bytes
pub mod Loop
pub mod Places
pub mod RoundTrip
pub mod Rounds
mod Tests
use fastpass.Base.{
  ℕ, zero, suc, ◌+◌, ◌-◌, ◌*◌, ◌/◌, ◌%◌, ◌^◌, bit_or, List, [], ◌∷◌, ◌++◌, length, get_or, set,
  Bool, true, false, ◌&&◌, not, Option, none, some, leb, ltb, ◌==◌, if◌then◌else◌, add64, sub64,
}
use fastpass.Protocol.Window.{Window, wnd_pos, wnd_empty, wnd_earliest_marked, wnd_clear}

-- The fields of the packet descriptor that the function fills; n_dsts is the length of `dsts`, and
-- n_tslot that of `tslot_desc`.
pub record AllocDesc : Type 0 where
  pub base_tslot : ℕ
  pub dsts : List ℕ
  pub dst_counts : List ℕ
  pub tslot_desc : List ℕ

-- The end node's pending timeslots, the core's alloc_enc_space and the packet descriptor.
pub record Encoder : Type 0 where
  pub pending : Window
  pub enc_space : ℕ → ℕ
  pub pd : AllocDesc

abbrev pub max_alloc_tslots : ℕ
max_alloc_tslots = 64

-- The place of a destination in alloc_enc_space.
abbrev pub enc_index : ℕ → ℕ
enc_index dst = dst % 256 + 256 * (dst / 2 ^ 14)

abbrev pub put_byte : AllocDesc → ℕ → AllocDesc
put_byte pd b = record pd { tslot_desc = pd.tslot_desc ++ (b % 2 ^ 8 ∷ []) }

abbrev pub skips : ℕ → ℕ
skips gap = (gap - 1) / 16

abbrev pub put_skip : ℕ → AllocDesc → AllocDesc
put_skip gap pd = if ltb 16 gap then put_byte pd (skips gap - 1) else pd

abbrev pub gap_left : ℕ → ℕ
gap_left gap = if ltb 16 gap then gap - 16 * skips gap else gap

abbrev pub store : (ℕ → ℕ) → ℕ → ℕ → ℕ → ℕ
store space index v i = if i == index then v else space i

-- The destination gets a place in the packet, if it has none; `none` stands for `goto cleanup`.
unfoldable pub find_dst : ℕ → Encoder → Option Encoder
find_dst dst st =
    if not (st.enc_space (enc_index dst) == 0)
    then some st
    else if length st.pd.dsts == 15
    then none
    else some (record st {
      enc_space = store st.enc_space (enc_index dst) (length st.pd.dsts);
      pd = record st.pd {
        dsts = st.pd.dsts ++ (dst ∷ []);
        dst_counts = st.pd.dst_counts ++ (0 ∷ []);
      };
    })

-- The byte of the timeslot is written, and its mark cleared.
unfoldable pub put_tslot : ℕ → ℕ → ℕ → Encoder → Encoder
put_tslot dst gap cur_tslot st =
    let place = st.enc_space (enc_index dst) in
    let pd = put_byte st.pd (bit_or ((place + 1) * 2 ^ 4) (gap - 1)) in
    record st {
      pending = wnd_clear st.pending cur_tslot;
      pd = record pd {
        dst_counts = set pd.dst_counts place ((get_or pd.dst_counts place 0 + 1) % 2 ^ 16);
      };
    }

abbrev pub with_skip : ℕ → Encoder → Encoder
with_skip gap st = record st { pd = put_skip gap st.pd }

abbrev pub goes_on : Encoder → Bool
goes_on st = not (wnd_empty st.pending) && leb (length st.pd.tslot_desc) (max_alloc_tslots - 2)

-- One round of the loop; `next_alloc` is what `goto next_alloc` does, from the timeslot before.
unfoldable pub alloc_round : (ℕ → ℕ) → ℕ → ℕ → Encoder → (Encoder → Option Encoder) → Option Encoder
alloc_round allocs gap cur_tslot st next_alloc =
    let dst = allocs (wnd_pos cur_tslot) in
    elim (find_dst dst (with_skip gap st)) [
      | none ↦ some (with_skip gap st)
      | some found ↦
          let next = put_tslot dst (gap_left gap) cur_tslot found in
          if goes_on next then next_alloc next else some next
    ]

-- The loop at next_alloc; `none` when the fuel runs out.
unfoldable pub alloc_loop : (ℕ → ℕ) → ℕ → ℕ → ℕ → Encoder → Option Encoder
alloc_loop allocs zero prev_tslot cur_tslot st = none
alloc_loop allocs (suc fuel) prev_tslot cur_tslot st =
    alloc_round allocs (sub64 cur_tslot prev_tslot % 2 ^ 16) cur_tslot st
      λ next. alloc_loop allocs fuel cur_tslot (wnd_earliest_marked next.pending) next

-- The loop at cleanup.
unfoldable pub clean_space : List ℕ → (ℕ → ℕ) → ℕ → ℕ
clean_space [] space i = space i
clean_space (dst ∷ dsts) space i = clean_space dsts (store space (enc_index dst) 0) i

unfoldable pub pad : AllocDesc → AllocDesc
pad pd = if length pd.tslot_desc % 2 == 1 then put_byte pd 0 else pd

unfoldable pub cleanup : Encoder → Encoder
cleanup st = record st { enc_space = clean_space st.pd.dsts st.enc_space; pd = pad st.pd }

-- `(cur_tslot - 1) & (~0ULL << 4)`
abbrev pub first_prev : ℕ → ℕ
first_prev cur_tslot = sub64 cur_tslot 1 / 2 ^ 4 * 2 ^ 4

unfoldable pub first_pd : Window → AllocDesc
first_pd pending = record {
  base_tslot = first_prev (wnd_earliest_marked pending) / 2 ^ 4 % 2 ^ 16;
  dsts = [];
  dst_counts = [];
  tslot_desc = [];
}

-- The base timeslot is not set when nothing is pending.
unfoldable pub fill_packet_alloc : (ℕ → ℕ) → Window → (ℕ → ℕ) → ℕ → Option Encoder
fill_packet_alloc allocs pending enc_space base_tslot =
    let cur_tslot = wnd_earliest_marked pending in
    let start : Encoder = record {
      pending = pending;
      enc_space = enc_space;
      pd = first_pd pending;
    } in
    if wnd_empty pending
    then some (record {
      pending = pending;
      enc_space = enc_space;
      pd = record { base_tslot = base_tslot; dsts = []; dst_counts = []; tslot_desc = [] };
    })
    else elim (alloc_loop allocs max_alloc_tslots (first_prev cur_tslot) cur_tslot start) [
      | none ↦ none
      | some st ↦ some (cleanup st)
    ]

-- The timeslots that handle_alloc reads, with their destinations, before it drops those that are
-- too far in the past or in the future.
unfoldable pub read_tslots : List ℕ → ℕ → List ℕ → List (ℕ × ℕ)
read_tslots dst_ids full_tslot [] = []
read_tslots dst_ids full_tslot (spec ∷ tslots) =
    let low = 1 + spec % 16 in
    let skip = spec / 16 == 0 in
    let next = add64 full_tslot (if skip then 16 * low else low) in
    let rest = read_tslots dst_ids next tslots in
    if skip
    then rest
    else if ltb (length dst_ids) (spec / 16)
    then []
    else (next, get_or dst_ids (spec / 16 - 1) 0) ∷ rest
