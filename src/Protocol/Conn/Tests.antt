-- ===== src/Protocol/Conn/Tests.antt =====
-- A connection with one packet that waits, and the theorems at it.
use fastpass.Base.{ℕ, ◌-◌, ◌^◌, true, false, Option, none, some, [], ◌∷◌, ◌≡◌, arith, replicate}
use fastpass.Protocol.Window.{Window, wnd_reset}
use fastpass.Protocol.Window.Shows.{reset-Shows}
use fastpass.Protocol.Conn.{
  Pktdesc, Ops, Conn, update, outwnd_add, free_unacked, ack_payload_handler, stamp,
  fpproto_handle_timeout, fpproto_prepare_to_send,
}
use fastpass.Protocol.Conn.Holds.{Holds, outwnd_add-Holds}
use fastpass.Protocol.Conn.Frees.{nothing, Freed, free_unacked_lem}
use fastpass.Protocol.Conn.AckHandler.{Acknowledged, ack_payload_handler_lem}
use fastpass.Protocol.Conn.Sends.{send, send_lem}
use fastpass.Protocol.Conn.Timeouts.{TimedOut, fpproto_handle_timeout_lem}

abbrev pub small_packet : Pktdesc
small_packet = record {
  areq = record { src_dst_key = 7; tslots = 3 } ∷ [];
  dsts = 4 ∷ 9 ∷ [];
  tslot_desc = 16 ∷ 32 ∷ [];
  base_tslot = 100;
  sent_timestamp = 500;
  seqno = 1001;
  ack_seq = 2000;
  ack_vec = 0xFFFF;
  send_reset = false;
  reset_timestamp = 5000000000;
}

abbrev pub all_ops : Ops
all_ops = record {
  has_reset = true;
  has_ack = true;
  has_neg_ack = true;
  has_trigger = true;
  has_alloc = true;
  has_areq = true;
}

abbrev zeroed : Window
zeroed = record { marked = replicate 4 0; summary = 0; head = 0; head_word = 0; num_marked = 0 }

abbrev pub idle : Conn
idle = record {
  last_reset_time = 5000000000;
  in_sync = true;
  ops = all_ops;
  rst_win_ns = 1000000000;
  send_timeout = 1000;
  consecutive_bad_pkts = 9;
  outwnd = wnd_reset zeroed 1000;
  unacked_pkts = nothing;
  next_timeout_seqno = 1001;
  inbound = record { in_max_seqno = 2000; inwnd = 2 ^ 64 - 1 };
  calls = [];
}

pub idle-Holds : Holds idle 1000 nothing
idle-Holds = record {
  shows = reset-Shows zeroed 1000 (omega arith) (omega arith);
  stored = λ n on. ground arith;
}

abbrev waiting : Conn
waiting = outwnd_add small_packet idle

abbrev at_1001 : ℕ → Option Pktdesc
at_1001 = update nothing 1001 (some small_packet)

waiting-Holds : Holds waiting 1001 at_1001
waiting-Holds =
    outwnd_add-Holds idle 1000 nothing idle-Holds small_packet (omega arith) λ n on. ground arith

ack_payload_handler_example :
    Acknowledged 1001 (2 ^ 63) 1001 at_1001 waiting (ack_payload_handler 1001 (2 ^ 63) waiting)
ack_payload_handler_example =
    ack_payload_handler_lem waiting 1001 at_1001 waiting-Holds 1001 (2 ^ 63) (omega arith)
      (omega arith) (omega arith) (omega arith)

send_example :
    let sent = stamp 700 (fpproto_prepare_to_send waiting) small_packet in
    Holds
      (send waiting 1001 at_1001 waiting-Holds small_packet 700)
      1002
      (update (update at_1001 810 none) 1002 (some sent))
    × (sent.seqno ≡ 1002)
send_example = send_lem waiting 1001 at_1001 waiting-Holds small_packet 700 (omega arith)

free_unacked_example : Freed 1001 0 192 at_1001 waiting (free_unacked waiting)
free_unacked_example = free_unacked_lem 1001 waiting at_1001 waiting-Holds

fpproto_handle_timeout_example :
    TimedOut 1001 1500 1000 true at_1001 1001 waiting (fpproto_handle_timeout 1500 waiting)
unfolding outwnd_add
fpproto_handle_timeout_example =
    fpproto_handle_timeout_lem 1500 1001 at_1001 waiting waiting-Holds (omega arith) (omega arith)
