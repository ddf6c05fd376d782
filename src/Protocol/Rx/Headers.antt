-- ===== src/Protocol/Rx/Headers.antt =====
-- The header of a packet whose checksum is right.
use fastpass.Base.{
  ℕ, ◌+◌, ◌*◌, ◌/◌, ◌%◌, ◌^◌, ◌≤◌, ◌<◌, Bool, true, false, List, ltb, ◌==◌, length, drop, ◌≡◌, refl,
  arith, ◌&&◌, add64, sub64, set, length-drop,
}
use fastpass.Protocol.Hash.{
  base_seqno_from_timestamp, fastpass_checksum, csum_tcpudp_magic, byte_at, half_at,
}
use fastpass.Protocol.Conn.{Conn, ingress_offset, egress_offset}
use fastpass.Protocol.Reset.{got_good_packet}
use fastpass.Protocol.Rx.{
  full_seq, full_tstamp, be16, be32, handle_reset_rx, handle_accepted_rx, fpproto_handle_rx_packet,
}

pub checksum-lt :
    (addr : ℕ) (pkt : List ℕ) (len seqno ack_seq : ℕ)
    → fastpass_checksum addr pkt len seqno ack_seq < 2 ^ 16
unfolding fastpass_checksum csum_tcpudp_magic
checksum-lt addr pkt len seqno ack_seq = omega arith

pub half_lem : (c : ℕ) → c < 2 ^ 16 → c % 2 ^ 8 + c / 2 ^ 8 % 2 ^ 8 * 2 ^ 8 ≡ c
half_lem c fits = omega arith

-- A number is found again from its low 16 bits and a bound.
pub full_seq_lem :
    (least n : ℕ) → n < 2 ^ 64 → sub64 n least < 2 ^ 16 → full_seq least (n % 2 ^ 16) ≡ n
full_seq_lem least n fits near = omega arith

pub full_tstamp_lem :
    (now t : ℕ)
    → t < 2 ^ 64
    → sub64 t (sub64 now (2 ^ 55)) < 2 ^ 56
    → full_tstamp now (t % 2 ^ 56) ≡ t
full_tstamp_lem now t fits near = omega arith

-- A connection that takes a packet without a RESET payload.
abbrev pub in_step : Conn → Conn
in_step conn = record (got_good_packet conn) { in_sync = true }

-- A packet without a RESET payload whose checksum is right.
pub rx_no_reset :
    (is_endpoint : Bool) (now now' addr : ℕ) (pkt : List ℕ) (conn : Conn) (n a : ℕ)
    → 8 ≤ length pkt
    → (byte_at (drop 8 pkt) 0 / 2 ^ 4 == 1) ≡ false
    → full_seq (sub64 conn.inbound.in_max_seqno (2 ^ 14)) (be16 pkt) ≡ n
    → full_seq (add64 (sub64 conn.outwnd.head (2 ^ 16)) 1) (be16 (drop 2 pkt)) ≡ a
    → half_at pkt 6 ≡ fastpass_checksum addr (set (set pkt 6 0) 7 0) (length pkt) n a
    → fpproto_handle_rx_packet is_endpoint now now' addr pkt conn
      ≡ handle_accepted_rx n a (be16 (drop 4 pkt)) (drop 8 pkt) (in_step conn)
unfolding fpproto_handle_rx_packet
rx_no_reset is_endpoint now now' addr pkt conn n a long kind en ea sum =
    let no : (ltb 8 (length pkt) && (byte_at (drop 8 pkt) 0 / 2 ^ 4 == 1)) ≡ false = ground arith in
    let short : ltb (length pkt) 8 ≡ false = ground arith in
    let sum_ok = fastpass_checksum addr (set (set pkt 6 0) 7 0) (length pkt) n a in
    let ok : (sum_ok == sum_ok) ≡ true = ground arith in rw (no, short, en, ea, sum, ok) refl

-- A packet with a RESET payload whose checksum is right.
pub rx_reset :
    (is_endpoint : Bool) (now now' addr : ℕ) (pkt : List ℕ) (conn : Conn) (t n a : ℕ)
    → 16 ≤ length pkt
    → byte_at (drop 8 pkt) 0 / 2 ^ 4 ≡ 1
    → full_tstamp now (be32 (drop 8 pkt) % 2 ^ 24 * 2 ^ 32 + be32 (drop 4 (drop 8 pkt))) ≡ t
    → full_seq (add64 (base_seqno_from_timestamp t) (ingress_offset is_endpoint)) (be16 pkt) ≡ n
    → full_seq
        (sub64 (add64 (base_seqno_from_timestamp t) (egress_offset is_endpoint)) 1)
        (be16 (drop 2 pkt))
      ≡ a
    → half_at pkt 6 ≡ fastpass_checksum addr (set (set pkt 6 0) 7 0) (length pkt) n a
    → fpproto_handle_rx_packet is_endpoint now now' addr pkt conn
      ≡ handle_reset_rx is_endpoint now' t n a
          (be16 (drop 4 pkt))
          (drop 8 pkt)
          (got_good_packet conn)
unfolding fpproto_handle_rx_packet
rx_reset is_endpoint now now' addr pkt conn t n a long kind et en ea sum =
    let yes : (ltb 8 (length pkt) && (byte_at (drop 8 pkt) 0 / 2 ^ 4 == 1)) ≡ true = ground arith in
    let short : ltb (length pkt) 8 ≡ false = ground arith in
    let whole : ltb (length (drop 8 pkt)) 8 ≡ false = ground (arith, length-drop 8 pkt) in
    let sum_ok = fastpass_checksum addr (set (set pkt 6 0) 7 0) (length pkt) n a in
    let ok : (sum_ok == sum_ok) ≡ true = ground arith in
    rw (yes, short, whole, et, en, ea, sum, ok) refl
