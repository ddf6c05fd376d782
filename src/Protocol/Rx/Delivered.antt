-- ===== src/Protocol/Rx/Delivered.antt =====
-- A packet that is encoded at one end and received at the other.
use fastpass.Base.{
  ℕ, zero, suc, ◌+◌, ◌-◌, ◌*◌, ◌/◌, ◌%◌, ◌^◌, ◌≤◌, ◌<◌, Bool, true, false, some, List, ◌++◌, ltb,
  ◌==◌, if◌then◌else◌, length, drop, ◌≡◌, refl, sym, ◌∙◌, ap, ap₂, arith, ◌&&◌, not, Bool-cases,
  inl, inr, replicate, add64, sub64, set, length-append,
}
use fastpass.Protocol.Hash.{base_seqno_from_timestamp, fastpass_checksum, byte_at, half_at, u16}
use fastpass.Protocol.Conn.{
  call_if, trigger_request, Pktdesc, Conn, ack_payload_handler, ingress_offset, egress_offset,
}
use fastpass.Protocol.InWindow.{at_most_once_may_accept}
use fastpass.Protocol.Codec.{reset_bytes, alloc_bytes, areq_bytes}
use fastpass.Protocol.Reset.{reset_payload_handler, got_good_packet}
use fastpass.Protocol.Rx.{
  full_seq, full_tstamp, be16, be32, handle_reset_rx, header_ack_vec, handle_accepted_rx,
  fpproto_successful_rx, fpproto_handle_rx_complete, handle_payloads_rx, mark_if_read,
  fpproto_perform_rx_callbacks,
}
use fastpass.Protocol.Rx.Reads.{
  alloc_kind, areq_kind, reset_kind, reset_tstamp, behind_reset, length-reset_bytes_on,
}
use fastpass.Protocol.Rx.RoundTrip.{
  Fits, packet, after_reset, Runs-after_reset, payloads, body, told, after_header, plain_length,
  runs,
}
use fastpass.Protocol.Rx.Headers.{
  in_step, checksum-lt, half_lem, full_seq_lem, full_tstamp_lem, rx_no_reset, rx_reset,
}

module _ (is_endpoint : Bool) (pd : Pktdesc) (fits : Fits pd) where
  abbrev kind : List ℕ → ℕ
  kind bytes = byte_at bytes 0 / 2 ^ 4

  -- Behind a RESET payload, no payload is a RESET or an ACK.
  abbrev Behind : List ℕ → Type 0
  Behind bytes = ((kind bytes == 1) ≡ false) × ((kind bytes == 4) ≡ false)

  padding_kind : (n : ℕ) → Behind (replicate n 0)
  padding_kind zero = (refl, refl)
  padding_kind (suc n) = (refl, refl)

  areqs_kind : (n : ℕ) → Behind (areq_bytes pd ++ replicate n 0)
  unfolding areq_bytes
  areqs_kind n = elim (Bool-cases (ltb 0 (length pd.areq))) [
    | inl e ↦
        let k = areq_kind pd (replicate n 0) (ground arith) (omega (arith, fits.areqs)) in
        (ap (λ x. x == 1) k, ap (λ x. x == 4) k)
    | inr e ↦ rw e (padding_kind n)
  ]

  after_reset_kind : (n : ℕ) → Behind (after_reset is_endpoint pd fits n)
  unfolding after_reset alloc_bytes
  after_reset_kind n = elim (Bool-cases is_endpoint) [
    | inl e ↦ rw e (areqs_kind n)
    | inr e ↦ rw e (elim (Bool-cases (ltb 0 (length pd.tslot_desc))) [
      | inl f ↦
          let k =
            alloc_kind pd (areq_bytes pd ++ replicate n 0) (ground arith) fits.tslots
              (omega (arith, fits.dsts)) in
          (ap (λ x. x == 1) k, ap (λ x. x == 4) k)
      | inr f ↦ rw f (areqs_kind n)
    ])
  ]

  -- What an end becomes by a packet with the number `n`, taken in step.
  abbrev pub received : ℕ → ℕ → Conn → Conn
  received n a conn =
      if at_most_once_may_accept conn.inbound n
      then conn
      else fpproto_successful_rx n
          (told is_endpoint pd fits (ack_payload_handler a (header_ack_vec (u16 pd.ack_vec)) conn))

  accepted_complete :
      (n a pad : ℕ) (pkt : List ℕ) (conn : Conn)
      → 8 ≤ length pkt
      → drop 8 pkt ≡ payloads is_endpoint pd fits pad
      → handle_payloads_rx pkt
          (handle_accepted_rx n a (u16 pd.ack_vec) (after_reset is_endpoint pd fits pad) conn)
        ≡ some (received n a conn)
  unfolding handle_accepted_rx fpproto_perform_rx_callbacks payloads
  accepted_complete n a pad pkt conn long shape =
      let bytes = after_reset is_endpoint pd fits pad in
      let acked = ack_payload_handler a (header_ack_vec (u16 pd.ack_vec)) conn in
      let (_, not_ack) = after_reset_kind pad in
      elim (Bool-cases (at_most_once_may_accept conn.inbound n)) [
        | inl e ↦ rw e refl
        | inr e ↦ rw e (elim (Bool-cases (length bytes == 0)) [
          | inl f ↦ rw f (
              ap (λ c. some (fpproto_successful_rx n c))
                (sym ((Runs-after_reset is_endpoint pd fits pad).empty (ground arith) acked)))
          | inr f ↦
              let whole = length-append (reset_bytes pd) bytes in
              let some_left : length (reset_bytes pd ++ bytes) == 0 ≡ false =
                ground (arith, whole) in
              rw (f, not_ack, shape, some_left)
                (ap (mark_if_read n) (
                  (runs is_endpoint pd fits pad).full (ground (arith, whole)) (length pkt) acked
                    (omega arith)))
        ])
      ]

  -- What a RESET payload does.
  abbrev pub answer : ℕ → Conn → Bool × Conn
  answer now' conn =
      let good = record (got_good_packet conn) { in_sync = false } in
      reset_payload_handler (not is_endpoint) now' pd.reset_timestamp
        (call_if (not (not is_endpoint) && conn.ops.has_trigger) trigger_request good)

  abbrev pad : ℕ → ℕ
  pad min_size = min_size - plain_length is_endpoint pd fits

  -- The fields of the header, as they are read.
  packet_seq :
      (addr min_size : ℕ) → be16 (packet is_endpoint pd fits addr min_size) ≡ pd.seqno % 2 ^ 16
  packet_seq addr min_size = omega arith

  packet_ack_seq :
      (addr min_size : ℕ)
      → be16 (drop 2 (packet is_endpoint pd fits addr min_size)) ≡ pd.ack_seq % 2 ^ 16
  packet_ack_seq addr min_size = omega arith

  packet_ack_vec :
      (addr min_size : ℕ)
      → be16 (drop 4 (packet is_endpoint pd fits addr min_size)) ≡ u16 pd.ack_vec
  packet_ack_vec addr min_size = omega arith

  packet_checksum :
      (addr min_size : ℕ)
      → let pkt = packet is_endpoint pd fits addr min_size in
        half_at pkt 6
        ≡ fastpass_checksum addr (set (set pkt 6 0) 7 0) (length pkt) pd.seqno pd.ack_seq
  packet_checksum addr min_size =
      half_lem _ (checksum-lt addr (body is_endpoint pd fits min_size) _ pd.seqno pd.ack_seq)

  packet-payloads :
      (addr min_size : ℕ)
      → drop 8 (packet is_endpoint pd fits addr min_size)
        ≡ payloads is_endpoint pd fits (pad min_size)
  packet-payloads addr min_size =
      let pkt = body is_endpoint pd fits min_size in
      after_header is_endpoint pd fits min_size
        (fastpass_checksum addr pkt (length pkt) pd.seqno pd.ack_seq)

  plain_payloads :
      (n : ℕ)
      → pd.send_reset ≡ false
      → payloads is_endpoint pd fits n ≡ after_reset is_endpoint pd fits n
  unfolding payloads reset_bytes
  plain_payloads n no_reset = rw no_reset refl

  module _ (addr min_size now now' : ℕ) (conn : Conn) (seqno_fits : pd.seqno < 2 ^ 64)
      (ack_seq_fits : pd.ack_seq < 2 ^ 64) where
    -- A packet without a RESET payload that is received, at the alignment at which it was encoded,
    -- by an end that is less than 2 ^ 14 ahead of its number and has sent its `ack_seq` among the
    -- last 2 ^ 16 packets, leaves the end in step; if its number was taken before, it does nothing
    -- else; and if not, the acknowledgement that it carries is handled, then the payloads that were
    -- encoded, and then its number is marked as taken. The numbers must be less than 2 ^ 64.
    pub fpproto_handle_rx_complete_lem :
        pd.send_reset ≡ false
        → sub64 pd.seqno (sub64 conn.inbound.in_max_seqno (2 ^ 14)) < 2 ^ 16
        → sub64 pd.ack_seq (add64 (sub64 conn.outwnd.head (2 ^ 16)) 1) < 2 ^ 16
        → fpproto_handle_rx_complete
            (not is_endpoint)
            now
            now'
            addr
            (packet is_endpoint pd fits addr min_size)
            conn
          ≡ some (received pd.seqno pd.ack_seq (in_step conn))
    unfolding fpproto_handle_rx_complete
    fpproto_handle_rx_complete_lem no_reset near near_ack =
        let pkt = packet is_endpoint pd fits addr min_size in
        let shape = packet-payloads addr min_size in
        let after = shape ∙ plain_payloads (pad min_size) no_reset in
        ap (handle_payloads_rx pkt) (
          rx_no_reset (not is_endpoint) now now' addr pkt conn pd.seqno pd.ack_seq (omega arith)
            (ap (λ b. kind b == 1) after ∙ (after_reset_kind (pad min_size)).0)
            (ap (full_seq _) (packet_seq addr min_size) ∙ full_seq_lem _ pd.seqno seqno_fits near)
            (ap (full_seq _) (packet_ack_seq addr min_size)
              ∙ full_seq_lem _ pd.ack_seq ack_seq_fits near_ack)
            (packet_checksum addr min_size)
          ∙ ap₂ (λ v b. handle_accepted_rx pd.seqno pd.ack_seq v b (in_step conn))
              (packet_ack_vec addr min_size) after)
        ∙ accepted_complete pd.seqno pd.ack_seq (pad min_size) pkt (in_step conn) (omega arith)
            shape

    reset_complete :
        pd.send_reset ≡ true
        → handle_payloads_rx (packet is_endpoint pd fits addr min_size) (
            handle_reset_rx
              (not is_endpoint)
              now'
              pd.reset_timestamp
              pd.seqno
              pd.ack_seq
              (u16 pd.ack_vec)
              (payloads is_endpoint pd fits (pad min_size))
              (got_good_packet conn))
          ≡ some (
              if (answer now' conn).0
              then (answer now' conn).1
              else received pd.seqno pd.ack_seq (answer now' conn).1)
    unfolding handle_reset_rx payloads
    reset_complete is_reset = elim (Bool-cases (answer now' conn).0) [
      | inl e ↦ rw e refl
      | inr e ↦
          rw (e, behind_reset pd (after_reset is_endpoint pd fits (pad min_size)) is_reset)
            (accepted_complete pd.seqno pd.ack_seq (pad min_size)
              (packet is_endpoint pd fits addr min_size) (answer now' conn).1 (omega arith)
              (packet-payloads addr min_size))
    ]

    -- A packet with a RESET payload, received at the alignment at which it was encoded, whose time
    -- is less than 2 ^ 55 from the clock and whose numbers are among the first 2 ^ 16 of that
    -- reset: the reset is handled as by `reset_payload_handler`, after `trigger_request` if the
    -- receiver is the controller; if that keeps the packet, its number is tested and the rest is
    -- done as for a packet without a RESET payload. The numbers and the time must be less than
    -- 2 ^ 64.
    pub handle_reset_rx_lem :
        pd.send_reset ≡ true
        → pd.reset_timestamp < 2 ^ 64
        → sub64 pd.reset_timestamp (sub64 now (2 ^ 55)) < 2 ^ 56
        → let base = base_seqno_from_timestamp pd.reset_timestamp in
          sub64 pd.seqno (add64 base (ingress_offset (not is_endpoint))) < 2 ^ 16
          → sub64 pd.ack_seq (sub64 (add64 base (egress_offset (not is_endpoint))) 1) < 2 ^ 16
          → fpproto_handle_rx_complete
              (not is_endpoint)
              now
              now'
              addr
              (packet is_endpoint pd fits addr min_size)
              conn
            ≡ some (
                if (answer now' conn).0
                then (answer now' conn).1
                else received pd.seqno pd.ack_seq (answer now' conn).1)
    unfolding fpproto_handle_rx_complete payloads
    handle_reset_rx_lem is_reset time_fits recent near near_ack =
        let pkt = packet is_endpoint pd fits addr min_size in
        let shape = packet-payloads addr min_size in
        let t = pd.reset_timestamp in
        let rest = after_reset is_endpoint pd fits (pad min_size) in
        ap (handle_payloads_rx pkt) (
          rx_reset (not is_endpoint) now now' addr pkt conn t pd.seqno pd.ack_seq
            (omega (
              arith,
              ap length shape,
              length-append (reset_bytes pd) rest,
              length-reset_bytes_on pd is_reset,
            ))
            (ap kind shape ∙ reset_kind pd rest is_reset)
            (ap (λ b. full_tstamp now (be32 b % 2 ^ 24 * 2 ^ 32 + be32 (drop 4 b))) shape
              ∙ ap (full_tstamp now) (reset_tstamp pd rest is_reset)
              ∙ full_tstamp_lem now t time_fits recent)
            (ap (full_seq _) (packet_seq addr min_size) ∙ full_seq_lem _ pd.seqno seqno_fits near)
            (ap (full_seq _) (packet_ack_seq addr min_size)
              ∙ full_seq_lem _ pd.ack_seq ack_seq_fits near_ack)
            (packet_checksum addr min_size)
          ∙ ap₂
              (λ v b.
                handle_reset_rx (not is_endpoint) now' t pd.seqno pd.ack_seq v b
                  (got_good_packet conn))
              (packet_ack_vec addr min_size) shape)
        ∙ reset_complete is_reset
