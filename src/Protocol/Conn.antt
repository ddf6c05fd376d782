-- ===== src/Protocol/Conn.antt =====
-- A connection of src/protocol/fpproto.c: struct fpproto_conn, the packet descriptors of outwnd.h,
-- acknowledgements, timeouts, and the sending of packets. What the functions of `ops` are called
-- for is kept in the order of the calls, with the frees of descriptors. The statistics are not
-- modelled.
pub mod Holds
pub mod AckHandler
pub mod Acks
pub mod Sends
pub mod Timeouts
pub mod Timer
pub mod Tests
pub mod Frees
use fastpass.Base.{
  ℕ, zero, suc, ◌+◌, ◌-◌, ◌*◌, ◌/◌, ◌%◌, ◌^◌, bit_and, bit_or, Bool, true, false, not, List, [],
  ◌∷◌, ◌++◌, Option, none, some, ltb, leb, ◌==◌, if◌then◌else◌, ◌&&◌, add64, sub64, replicate,
}
use fastpass.Base.Bits.Scan.{lowest}
use fastpass.Protocol.Hash.{base_seqno_from_timestamp}
use fastpass.Protocol.InWindow.{Inbound, time_after64, time_after_eq64}
use fastpass.Protocol.Window.{
  Window, wnd_pos, wnd_edge, wnd_seq_before, wnd_is_marked, wnd_mark, wnd_clear, wnd_at_or_before,
  wnd_at_or_after, wnd_reset, wnd_advance, wnd_get_mask, clear_bit,
}

pub record AreqDesc : Type 0 where
  pub src_dst_key : ℕ
  pub tslots : ℕ

-- `areq` holds the first `n_areq` requests, `dsts` the first `n_dsts` destinations, and
-- `tslot_desc` the first `alloc_tslot` bytes.
pub record Pktdesc : Type 0 where
  pub areq : List AreqDesc
  pub dsts : List ℕ
  pub tslot_desc : List ℕ
  pub base_tslot : ℕ
  pub sent_timestamp : ℕ
  pub seqno : ℕ
  pub ack_seq : ℕ
  pub ack_vec : ℕ
  pub send_reset : Bool
  pub reset_timestamp : ℕ

-- A descriptor is `none` where the pointer is NULL.
pub data Call : Type 0 where
  handle_reset : Call
  handle_ack : Option Pktdesc → Call
  handle_neg_ack : Option Pktdesc → Call
  trigger_request : Call
  handle_alloc : ℕ → List ℕ → List ℕ → Call
  handle_areq : List (ℕ × ℕ) → Call
  set_timer : ℕ → Call
  cancel_timer : Call
  pktdesc_free : Option Pktdesc → Call

-- Which functions of `ops` are not NULL; the timer's never are.
pub record Ops : Type 0 where
  pub has_reset : Bool
  pub has_ack : Bool
  pub has_neg_ack : Bool
  pub has_trigger : Bool
  pub has_alloc : Bool
  pub has_areq : Bool

pub record Conn : Type 0 where
  pub last_reset_time : ℕ
  pub in_sync : Bool
  pub ops : Ops
  pub rst_win_ns : ℕ
  pub send_timeout : ℕ
  pub consecutive_bad_pkts : ℕ
  pub outwnd : Window
  pub unacked_pkts : ℕ → Option Pktdesc
  pub next_timeout_seqno : ℕ
  -- in_max_seqno and inwnd
  pub inbound : Inbound
  pub calls : List Call

abbrev pub called : Call → Conn → Conn
called c conn = record conn { calls = conn.calls ++ (c ∷ []) }

abbrev pub call_if : Bool → Call → Conn → Conn
call_if present c conn = if present then called c conn else conn

abbrev pub update : (ℕ → Option Pktdesc) → ℕ → Option Pktdesc → ℕ → Option Pktdesc
update f i v j = if j == i then v else f j

abbrev pub wnd_head : Conn → ℕ
wnd_head conn = conn.outwnd.head

unfoldable pub outwnd_add : Pktdesc → Conn → Conn
outwnd_add pd conn =
    let advanced = wnd_advance conn.outwnd 1 in
    let wnd = wnd_mark advanced advanced.head in
    record conn {
      outwnd = wnd;
      unacked_pkts = update conn.unacked_pkts (wnd_pos wnd.head) (some pd);
    }

abbrev pub outwnd_peek : Conn → ℕ → Option Pktdesc
outwnd_peek conn seqno = conn.unacked_pkts (wnd_pos seqno)

-- The state after a pop; the popped descriptor is the one that a peek shows before it.
unfoldable pub outwnd_pop : ℕ → Conn → Conn
outwnd_pop seqno conn = record conn {
  outwnd = wnd_clear conn.outwnd seqno;
  unacked_pkts = update conn.unacked_pkts (wnd_pos seqno) none;
}

abbrev pub sent_time : Option Pktdesc → ℕ
sent_time none = 0
sent_time (some pd) = pd.sent_timestamp

-- When the packet with the number times out.
abbrev pub timeout_of : Conn → ℕ → ℕ
timeout_of conn seqno = add64 (sent_time (outwnd_peek conn seqno)) conn.send_timeout

abbrev pub no_timeout : Conn → Conn
no_timeout conn = record conn { next_timeout_seqno = add64 (wnd_head conn) 1 }

abbrev pub restart_timer : Option ℕ → Conn → Conn
restart_timer none conn = called cancel_timer (no_timeout conn)
restart_timer (some seqno) conn =
    called (set_timer (timeout_of conn seqno))
      (called cancel_timer (record conn { next_timeout_seqno = seqno }))

unfoldable pub recompute_and_reset_retrans_timer : Conn → Conn
recompute_and_reset_retrans_timer conn =
    restart_timer (wnd_at_or_after conn.outwnd conn.next_timeout_seqno) conn

unfoldable pub do_ack_seqno : ℕ → Conn → Conn
unfolding outwnd_pop
do_ack_seqno seqno conn =
    let pd = outwnd_peek conn seqno in
    called (pktdesc_free pd) (call_if conn.ops.has_ack (handle_ack pd) (outwnd_pop seqno conn))

unfoldable pub do_neg_ack_seqno : ℕ → Conn → Conn
do_neg_ack_seqno seq conn =
    call_if conn.ops.has_neg_ack (handle_neg_ack (outwnd_peek conn seq)) conn

-- One descriptor is popped and freed.
abbrev pub pop_and_free : ℕ → Conn → Conn
pop_and_free seqno conn = called (pktdesc_free (outwnd_peek conn seqno)) (outwnd_pop seqno conn)

-- The loop `clear_next_unacked` from `tslot` down, on fuel.
unfoldable pub free_unacked_from : ℕ → ℕ → Conn → Conn
free_unacked_from zero tslot conn = conn
free_unacked_from (suc fuel) tslot conn = elim (wnd_at_or_before conn.outwnd tslot) [
  | none ↦ conn
  | some gap ↦
      let tslot' = sub64 tslot gap in free_unacked_from fuel tslot' (pop_and_free tslot' conn)
]

-- A window has at most 192 marks.
abbrev pub free_fuel : ℕ
free_fuel = 193

unfoldable pub free_unacked : Conn → Conn
free_unacked conn = free_unacked_from free_fuel (wnd_head conn) conn

-- FASTPASS_TO_CONTROLLER_SEQNO_OFFSET and FASTPASS_TO_ENDPOINT_SEQNO_OFFSET
abbrev pub egress_offset : Bool → ℕ
egress_offset is_endpoint = if is_endpoint then 0 else 0xDEADBEEF

abbrev pub ingress_offset : Bool → ℕ
ingress_offset is_endpoint = if is_endpoint then 0xDEADBEEF else 0

-- The state of a connection whose packets are all freed, with the numbers of a new reset.
abbrev renumber : Bool → ℕ → Bool → Conn → Conn
renumber is_endpoint reset_time in_sync conn =
    let base_seqno = base_seqno_from_timestamp reset_time in
    let wnd = wnd_reset conn.outwnd (sub64 (add64 base_seqno (egress_offset is_endpoint)) 1) in
    record conn {
      last_reset_time = reset_time;
      outwnd = wnd;
      inbound = record {
        in_max_seqno = sub64 (add64 base_seqno (ingress_offset is_endpoint)) 1;
        inwnd = 2 ^ 64 - 1;
      };
      consecutive_bad_pkts = 0;
      next_timeout_seqno = add64 wnd.head 1;
      in_sync = in_sync;
    }

-- `is_endpoint` is IS_ENDPOINT of the build.
unfoldable pub do_proto_reset : Bool → ℕ → Bool → Conn → Conn
do_proto_reset is_endpoint reset_time in_sync conn =
    renumber is_endpoint reset_time in_sync (free_unacked conn)

-- The loop over the bits of `todo_mask`, on fuel; with the number of packets it acknowledges.
unfoldable pub ack_loop : ℕ → ℕ → ℕ → ℕ → Conn → ℕ × Conn
ack_loop zero ack_seq n_acked todo_mask conn = (n_acked, conn)
ack_loop (suc fuel) ack_seq n_acked todo_mask conn =
    let offset = lowest 64 todo_mask in
    let cur_seqno = add64 (sub64 ack_seq 63) offset in
    let rest =
      ack_loop fuel ack_seq (n_acked + 1) (clear_bit todo_mask offset)
        (do_ack_seqno cur_seqno conn) in
    if todo_mask == 0 then (n_acked, conn) else rest

unfoldable pub ack_payload_handler : ℕ → ℕ → Conn → Conn
ack_payload_handler ack_seq ack_vec conn =
    let todo_mask = bit_and ack_vec (wnd_get_mask conn.outwnd ack_seq) in
    let (n_acked, conn') = ack_loop 65 ack_seq 0 todo_mask conn in
    if wnd_seq_before conn.outwnd ack_seq
    then conn
    else if ltb 0 n_acked
    then recompute_and_reset_retrans_timer conn'
    else conn'

-- The loop over the packets that have timed out, on fuel, and what follows it.
unfoldable pub timeout_loop : ℕ → ℕ → ℕ → Conn → Conn
timeout_loop zero now seqno conn = conn
timeout_loop (suc fuel) now seqno conn = elim (wnd_at_or_after conn.outwnd seqno) [
  | none ↦ no_timeout conn
  | some found ↦
      let timeout = timeout_of conn found in
      let rest = timeout_loop fuel now (add64 found 1) (do_neg_ack_seqno found conn) in
      if time_after64 timeout now
      then called (set_timer timeout) (record conn { next_timeout_seqno = found })
      else rest
]

unfoldable pub fpproto_handle_timeout : ℕ → Conn → Conn
fpproto_handle_timeout now conn = timeout_loop free_fuel now conn.next_timeout_seqno conn

unfoldable pub fpproto_prepare_to_send : Conn → Conn
fpproto_prepare_to_send conn =
    let edge = wnd_edge conn.outwnd in
    let nacked = do_neg_ack_seqno edge conn in
    let told =
      recompute_and_reset_retrans_timer (record nacked { next_timeout_seqno = add64 edge 1 }) in
    if wnd_is_marked conn.outwnd edge
    then pop_and_free edge (if time_after_eq64 edge conn.next_timeout_seqno then told else conn)
    else conn

-- What a packet says of the state when it is sent.
abbrev pub stamp : ℕ → Conn → Pktdesc → Pktdesc
stamp timestamp conn pd =
    let inwnd = conn.inbound.inwnd in
    let low = if bit_and inwnd (2 ^ 48 - 1) == 2 ^ 48 - 1 then 1 else 0 in
    record pd {
      sent_timestamp = timestamp;
      seqno = add64 (wnd_head conn) 1;
      send_reset = not conn.in_sync;
      reset_timestamp = conn.last_reset_time;
      ack_seq = conn.inbound.in_max_seqno;
      ack_vec = bit_or (bit_and (inwnd / 2 ^ 48) 0x7FFF) (low * 2 ^ 15);
    }

unfoldable pub fpproto_commit_packet : Pktdesc → ℕ → Conn → Conn
fpproto_commit_packet pd timestamp conn =
    recompute_and_reset_retrans_timer (outwnd_add (stamp timestamp conn pd) conn)
