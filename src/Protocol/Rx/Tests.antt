-- ===== src/Protocol/Rx/Tests.antt =====
-- Packets that are encoded and received, resets, and the theorems at them.
use fastpass.Base.{
  ℕ, ◌+◌, ◌-◌, ◌^◌, max, Bool, true, false, some, List, [], ◌∷◌, ◌≡◌, refl, arith, length, drop,
  if◌then◌else◌,
}
use fastpass.Protocol.Hash.{base_seqno_from_timestamp, jhash_1word}
use fastpass.Protocol.Window.{wnd_reset}
use fastpass.Protocol.Conn.{Pktdesc, Conn, do_proto_reset}
use fastpass.Protocol.Conn.Frees.{nothing}
use fastpass.Protocol.Conn.Tests.{small_packet, idle, idle-Holds}
use fastpass.Protocol.Codec.{alloc_bytes, areq_bytes, reset_bytes, encoded, fpproto_encode_packet}
use fastpass.Protocol.Reset.{reset_payload_handler}
use fastpass.Protocol.Reset.Payload.{Settled, reset_payload_handler_lem}
use fastpass.Protocol.Reset.Table.{Fresh, do_proto_reset_lem, reset_in_step}
use fastpass.Protocol.Rx.{fpproto_perform_rx_callbacks, fpproto_handle_rx_complete}
use fastpass.Protocol.Rx.Bounds.{ReadsTo, payloads_from_lem}
use fastpass.Protocol.Rx.RoundTrip.{Fits, packet, told, plain_length, fpproto_encode_packet_lem}
use fastpass.Protocol.Rx.Headers.{in_step}
use fastpass.Protocol.Rx.Delivered.{
  received, answer, fpproto_handle_rx_complete_lem, handle_reset_rx_lem,
}

-- The first number of a reset 5 seconds after the clock's start.
base_of_reset : base_seqno_from_timestamp 5000000000 ≡ 15994619791402745843
unfolding base_seqno_from_timestamp jhash_1word
base_of_reset = refl

do_proto_reset_example :
    Fresh true 5000000000 1000 nothing true idle (do_proto_reset true 5000000000 true idle)
do_proto_reset_example =
    do_proto_reset_lem true 5000000000 true idle 1000 nothing idle-Holds
      (omega (arith, base_of_reset)) (omega (arith, base_of_reset))

reset_in_step_example :
    let here = do_proto_reset true 5000000000 true idle in
    let there = do_proto_reset false 5000000000 false idle in
    (here.outwnd.head ≡ there.inbound.in_max_seqno)
    × (there.outwnd.head ≡ here.inbound.in_max_seqno)
reset_in_step_example = reset_in_step true 5000000000 true false idle idle

-- The first number of a reset a tenth of a second later, and of one two tenths later.
base_of_later_reset : base_seqno_from_timestamp 5100000000 ≡ 7110256122617431876
unfolding base_seqno_from_timestamp jhash_1word
base_of_later_reset = refl

base_of_now : base_seqno_from_timestamp 5200000000 ≡ 15937642785505514922
unfolding base_seqno_from_timestamp jhash_1word
base_of_now = refl

reset_payload_handler_example :
    Settled true 5200000000 5100000000 1000 nothing idle
      (reset_payload_handler true 5200000000 5100000000 idle)
reset_payload_handler_example =
    reset_payload_handler_lem true 5200000000 5100000000 1000 nothing idle idle-Holds
      (record {
        low = omega (arith, base_of_later_reset);
        high = omega (arith, base_of_later_reset);
      })
      (record { low = omega (arith, base_of_now); high = omega (arith, base_of_now) }) (omega arith)
      (omega arith) (omega arith) (omega arith) (omega arith)

abbrev from_controller : Pktdesc
from_controller = record small_packet { ack_seq = 990 }

from_controller-Fits : Fits from_controller
from_controller-Fits = record {
  areqs = omega arith;
  dsts = omega arith;
  tslots = omega arith;
  even = refl;
}

abbrev sent_bytes : List ℕ
sent_bytes = packet false from_controller from_controller-Fits 0 60

fpproto_encode_packet_example :
    (fpproto_encode_packet false 0 from_controller 156 60 ≡ encoded sent_bytes)
    × (length sent_bytes ≡ max 60 (plain_length false from_controller from_controller-Fits))
    × (fpproto_perform_rx_callbacks sent_bytes idle
        ≡ some (true, told false from_controller from_controller-Fits idle))
unfolding alloc_bytes areq_bytes reset_bytes
fpproto_encode_packet_example =
    fpproto_encode_packet_lem false from_controller from_controller-Fits 0 156 60 idle (omega arith)
      (omega arith) (omega arith)

abbrev receiver : Conn
receiver = record idle { inbound = record { in_max_seqno = 1000; inwnd = 2 ^ 64 - 1 } }

fpproto_handle_rx_complete_example :
    fpproto_handle_rx_complete true 6000000000 6000000001 0 sent_bytes receiver
    ≡ some (received false from_controller from_controller-Fits 1001 990 (in_step receiver))
unfolding wnd_reset
fpproto_handle_rx_complete_example =
    fpproto_handle_rx_complete_lem false from_controller from_controller-Fits 0 60 6000000000
      6000000001 receiver (omega arith) (omega arith) refl (omega arith) (omega arith)

abbrev with_reset : Pktdesc
with_reset = record from_controller {
  dsts = [];
  tslot_desc = [];
  seqno = 15994619791402745843;
  ack_seq = 15994619791402745843 + 0xDEADBEEF - 1;
  send_reset = true;
}

with_reset-Fits : Fits with_reset
with_reset-Fits = record {
  areqs = omega arith;
  dsts = omega arith;
  tslots = omega arith;
  even = refl;
}

handle_reset_rx_example :
    let kept = answer true with_reset with_reset-Fits 5200000001 idle in
    fpproto_handle_rx_complete false 5200000000 5200000001 0
      (packet true with_reset with_reset-Fits 0 60)
      idle
    ≡ some (
        if kept.0
        then kept.1
        else received true with_reset with_reset-Fits with_reset.seqno with_reset.ack_seq kept.1)
handle_reset_rx_example =
    handle_reset_rx_lem true with_reset with_reset-Fits 0 60 5200000000 5200000001 idle
      (omega arith) (omega arith) refl (omega arith) (omega arith) (omega (arith, base_of_reset))
      (omega (arith, base_of_reset))

-- An ALLOC payload for two destinations that is cut off.
abbrev cut_off : List ℕ
cut_off = 0 ∷ 1 ∷ 0 ∷ 2 ∷ 0 ∷ 3 ∷ 0 ∷ 0 ∷ 50 ∷ 1 ∷ 0 ∷ 100 ∷ 0 ∷ []

payloads_from_example :
    (answer' : Bool × Conn) × (fpproto_perform_rx_callbacks cut_off idle ≡ some answer')
    × ReadsTo (drop 8 cut_off) idle answer'
payloads_from_example = payloads_from_lem cut_off idle (omega arith)
