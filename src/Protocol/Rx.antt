-- ===== src/Protocol/Rx.antt =====
-- src/protocol/fpproto.c: a packet that is received. A pointer into a packet and the packet's end
-- are the list of the bytes between them; every reading of the clock is an argument.
pub mod Bounds
pub mod Delivered
pub mod Fields
pub mod Headers
pub mod Reads
pub mod RoundTrip
mod Tests
use fastpass.Base.{
  ℕ, zero, suc, ◌+◌, ◌-◌, ◌*◌, ◌/◌, ◌%◌, ◌^◌, bit_and, bit_or, Bool, true, false, not, ◌&&◌, List,
  [], ◌∷◌, Option, none, some, ltb, ◌==◌, if◌then◌else◌, length, set, take, drop, add64, sub64,
}
use fastpass.Protocol.Hash.{fastpass_checksum, base_seqno_from_timestamp, byte_at, half_at}
use fastpass.Protocol.InWindow.{at_most_once_may_accept, update_inwnd}
use fastpass.Protocol.Conn.{
  Conn, handle_alloc, handle_areq, trigger_request, call_if, ack_payload_handler, egress_offset,
  ingress_offset,
}
use fastpass.Protocol.Reset.{reset_payload_handler, got_good_packet, got_bad_packet}
use fastpass.Protocol.Codec.{ptype_padding, ptype_reset, ptype_areq, ptype_alloc, ptype_ack}

-- `ntohs(*(u16 *)curp)` and `ntohl(*(u32 *)curp)`
abbrev pub be16 : List ℕ → ℕ
be16 bytes = byte_at bytes 0 * 2 ^ 8 + byte_at bytes 1

abbrev pub be32 : List ℕ → ℕ
be32 bytes = be16 bytes * 2 ^ 16 + be16 (drop 2 bytes)

-- The first fields of 16 bits, and the first pairs of these.
abbrev pub halves : ℕ → List ℕ → List ℕ
halves zero bytes = []
halves (suc n) bytes = be16 bytes ∷ halves n (drop 2 bytes)

abbrev pub half_pairs : ℕ → List ℕ → List (ℕ × ℕ)
half_pairs zero bytes = []
half_pairs (suc n) bytes = (be16 bytes, be16 (drop 2 bytes)) ∷ half_pairs n (drop 4 bytes)

-- The payload's length, or `none` for -1.
unfoldable pub process_alloc : List ℕ → Conn → Option ℕ × Conn
process_alloc bytes conn =
    let payload_type = be16 bytes in
    let n_dst = bit_and (payload_type / 2 ^ 8) 0xF in
    let n_tslots = 2 * bit_and payload_type 0x3F in
    let base_tslot = be16 (drop 2 bytes) * 2 ^ 4 in
    let dsts = halves n_dst (drop 4 bytes) in
    let tslots = take n_tslots (drop (4 + 2 * n_dst) bytes) in
    if ltb (length bytes) 2
    then (none, conn)
    else if ltb (length bytes) (4 + 2 * n_dst + n_tslots)
    then (none, conn)
    else (
      some (4 + 2 * n_dst + n_tslots),
      call_if conn.ops.has_alloc (handle_alloc base_tslot dsts tslots) conn,
    )

-- The requests are passed on as they are in the packet; the fields are shown as the callee reads
-- them.
unfoldable pub process_areq : List ℕ → Conn → Option ℕ × Conn
process_areq bytes conn =
    let n_dst = bit_and (be16 bytes) 0x3F in
    if ltb (length bytes) 2
    then (none, conn)
    else if ltb (length bytes) (2 + 4 * n_dst)
    then (none, conn)
    else (
      some (2 + 4 * n_dst),
      call_if conn.ops.has_areq (handle_areq (half_pairs n_dst (drop 2 bytes))) conn,
    )

-- How far `curp` moves over the payload at it, or `none` if the packet is given up.
unfoldable pub handle_payload : List ℕ → Conn → Option ℕ × Conn
handle_payload bytes conn =
    let payload_type = byte_at bytes 0 / 2 ^ 4 in
    if payload_type == ptype_ack
    then (some 6, conn)
    else if payload_type == ptype_reset
    then (some 8, conn)
    else if payload_type == ptype_alloc
    then process_alloc bytes conn
    else if payload_type == ptype_areq
    then process_areq bytes conn
    else if payload_type == ptype_padding
    then (some (length bytes), conn)
    else (none, conn)

-- What follows a payload, if the loop goes on by `loop`.
abbrev pub after_payload :
    (List ℕ → Conn → Option (Bool × Conn)) → List ℕ → Option ℕ × Conn → Option (Bool × Conn)
after_payload loop bytes (none, conn) = some (false, conn)
after_payload loop bytes (some n, conn) =
    let rest = loop (drop n bytes) conn in if ltb n (length bytes) then rest else some (true, conn)

-- The loop at the label `handle_payload`; `none` when the fuel runs out.
unfoldable pub payloads_from : ℕ → List ℕ → Conn → Option (Bool × Conn)
payloads_from zero bytes conn = none
payloads_from (suc fuel) bytes conn =
    after_payload (payloads_from fuel) bytes (handle_payload bytes conn)

-- `true` if all payloads are read; `none` if the assertion that there is a byte fails.
unfoldable pub fpproto_perform_rx_callbacks : List ℕ → Conn → Option (Bool × Conn)
fpproto_perform_rx_callbacks pkt conn =
    let read = payloads_from (length pkt) (drop 8 pkt) conn in
    if length (drop 8 pkt) == 0 then none else read

unfoldable pub fpproto_successful_rx : ℕ → Conn → Conn
fpproto_successful_rx in_seq conn =
    let (_, inbound) = update_inwnd conn.inbound in_seq in record conn { inbound = inbound }

-- The 64 bits of the time of a reset from the low 56.
abbrev pub full_tstamp : ℕ → ℕ → ℕ
full_tstamp now partial_tstamp =
    let least = sub64 now (2 ^ 55) in add64 least (sub64 partial_tstamp least % 2 ^ 56)

-- The least number not less than `least`, modulo 2 ^ 64, with the 16 bits of a header.
abbrev pub full_seq : ℕ → ℕ → ℕ
full_seq least bits = add64 least (sub64 bits least % 2 ^ 16)

-- The 64 marks that the 16 bits of a header stand for; the lowest 48 are all equal.
abbrev pub header_ack_vec : ℕ → ℕ
header_ack_vec ack_vec16 =
    bit_or (bit_and (2 ^ 48 - ack_vec16 / 2 ^ 15) (2 ^ 64 - 1 - 2 ^ 48))
      (bit_or (bit_and ack_vec16 0x7FFF * 2 ^ 48) (2 ^ 63))

abbrev pub extended_ack_vec : List ℕ → ℕ
extended_ack_vec bytes =
    bit_or (bit_and (be32 bytes) (2 ^ 28 - 1) * 2 ^ 20) (be16 (drop 4 bytes) * 2 ^ 4)

-- A packet after its header and a RESET payload. With the number under which its payloads are to be
-- handled, if they are.
unfoldable pub handle_accepted_rx : ℕ → ℕ → ℕ → List ℕ → Conn → Option ℕ × Conn
handle_accepted_rx in_seq ack_seq ack_vec16 bytes conn =
    let acked = ack_payload_handler ack_seq (header_ack_vec ack_vec16) conn in
    if at_most_once_may_accept conn.inbound in_seq
    then (none, conn)
    else if length bytes == 0
    then (none, fpproto_successful_rx in_seq acked)
    else if not (byte_at bytes 0 / 2 ^ 4 == ptype_ack)
    then (some in_seq, acked)
    else if ltb (length bytes) 6
    then (none, acked)
    else (some in_seq, ack_payload_handler ack_seq (extended_ack_vec bytes) acked)

-- A packet with a RESET payload whose checksum is right.
unfoldable pub handle_reset_rx : Bool → ℕ → ℕ → ℕ → ℕ → ℕ → List ℕ → Conn → Option ℕ × Conn
handle_reset_rx is_endpoint now rst_tstamp in_seq ack_seq ack_vec16 bytes conn =
    let triggered =
      call_if (not is_endpoint && conn.ops.has_trigger) trigger_request
        (record conn { in_sync = false }) in
    let (drops, conn') = reset_payload_handler is_endpoint now rst_tstamp triggered in
    if drops
    then (none, conn')
    else handle_accepted_rx in_seq ack_seq ack_vec16 (drop 8 bytes) conn'

-- `now` and `now'` are the first and the second reading of the clock, `addr` is the packet's
-- address. With the number of the packet if its payloads are to be handled.
unfoldable pub fpproto_handle_rx_packet : Bool → ℕ → ℕ → ℕ → List ℕ → Conn → Option ℕ × Conn
fpproto_handle_rx_packet is_endpoint now now' addr pkt conn =
    let bytes = drop 8 pkt in
    let is_reset = ltb 8 (length pkt) && (byte_at bytes 0 / 2 ^ 4 == ptype_reset) in
    let partial_tstamp = be32 bytes % 2 ^ 24 * 2 ^ 32 + be32 (drop 4 bytes) in
    let rst_tstamp = full_tstamp now partial_tstamp in
    let base_seqno = base_seqno_from_timestamp rst_tstamp in
    let least_in =
      if is_reset
      then add64 base_seqno (ingress_offset is_endpoint)
      else sub64 conn.inbound.in_max_seqno (2 ^ 14) in
    let least_ack =
      if is_reset
      then sub64 (add64 base_seqno (egress_offset is_endpoint)) 1
      else add64 (sub64 conn.outwnd.head (2 ^ 16)) 1 in
    let in_seq = full_seq least_in (be16 pkt) in
    let ack_seq = full_seq least_ack (be16 (drop 2 pkt)) in
    let ack_vec16 = be16 (drop 4 pkt) in
    let checksum = fastpass_checksum addr (set (set pkt 6 0) 7 0) (length pkt) in_seq ack_seq in
    let good = got_good_packet conn in
    if ltb (length pkt) 8
    then (none, conn)
    else if is_reset && ltb (length bytes) 8
    then (none, conn)
    else if not (checksum == half_at pkt 6)
    then (none, got_bad_packet is_endpoint now' conn)
    else if is_reset
    then handle_reset_rx is_endpoint now' rst_tstamp in_seq ack_seq ack_vec16 bytes good
    else handle_accepted_rx in_seq ack_seq ack_vec16 bytes (record good { in_sync = true })

-- An accepted packet is marked as received if its payloads can all be read.
abbrev pub mark_if_read : ℕ → Option (Bool × Conn) → Option Conn
mark_if_read in_seq none = none
mark_if_read in_seq (some (false, conn)) = some conn
mark_if_read in_seq (some (true, conn)) = some (fpproto_successful_rx in_seq conn)

-- The payloads of an accepted packet are handled.
abbrev pub handle_payloads_rx : List ℕ → Option ℕ × Conn → Option Conn
handle_payloads_rx pkt (none, conn) = some conn
handle_payloads_rx pkt (some in_seq, conn) =
    mark_if_read in_seq (fpproto_perform_rx_callbacks pkt conn)

-- `none` if an assertion fails.
unfoldable pub fpproto_handle_rx_complete : Bool → ℕ → ℕ → ℕ → List ℕ → Conn → Option Conn
fpproto_handle_rx_complete is_endpoint now now' addr pkt conn =
    handle_payloads_rx pkt (fpproto_handle_rx_packet is_endpoint now now' addr pkt conn)
