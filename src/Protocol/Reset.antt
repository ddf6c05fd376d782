-- ===== src/Protocol/Reset.antt =====
-- src/protocol/fpproto.c: when a connection is reset. Every reading of the clock is an argument.
pub mod Payload
pub mod Table
use fastpass.Base.{
  ℕ, ◌+◌, ◌-◌, ◌*◌, ◌/◌, ◌%◌, ◌^◌, Bool, true, false, not, ◌&&◌, none, ltb, leb, ◌==◌,
  if◌then◌else◌, add64, sub64,
}
use fastpass.Protocol.InWindow.{time_after64, time_after_eq64, time_before_eq64}
use fastpass.Protocol.Conn.{
  Conn, Ops, handle_reset, trigger_request, call_if, do_proto_reset, free_unacked,
}

abbrev pub tstamp_in_window : ℕ → ℕ → ℕ → Bool
tstamp_in_window tstamp win_middle win_size =
    leb (sub64 win_middle (win_size / 2)) tstamp
    && ltb tstamp (add64 win_middle (add64 win_size 1 / 2))

abbrev pub fpproto_force_reset : Bool → ℕ → Conn → Conn
fpproto_force_reset is_endpoint now conn = do_proto_reset is_endpoint now false conn

-- A reset, and the call of `handle_reset`.
abbrev pub reset_and_tell : Bool → ℕ → Bool → Conn → Conn
reset_and_tell is_endpoint time in_sync conn =
    let conn' = do_proto_reset is_endpoint time in_sync conn in
    call_if conn'.ops.has_reset handle_reset conn'

-- `true` if the packet should be dropped.
unfoldable pub reset_payload_handler : Bool → ℕ → ℕ → Conn → Bool × Conn
reset_payload_handler is_endpoint now full_tstamp conn =
    let last_is_recent = tstamp_in_window conn.last_reset_time now conn.rst_win_ns in
    let payload_is_recent = tstamp_in_window full_tstamp now conn.rst_win_ns in
    let accept : Bool × Conn = (false, reset_and_tell is_endpoint full_tstamp is_endpoint conn) in
    if full_tstamp == conn.last_reset_time
    then (false, record conn { in_sync = is_endpoint })
    else if last_is_recent
    then (if payload_is_recent
        then (if time_after64 conn.last_reset_time full_tstamp then (true, conn) else accept)
        else (true, conn))
    else if payload_is_recent
    then accept
    else (true, reset_and_tell is_endpoint now is_endpoint conn)

abbrev pub got_good_packet : Conn → Conn
got_good_packet conn = record conn { consecutive_bad_pkts = 0 }

-- FASTPASS_BAD_PKT_RESET_THRESHOLD and FASTPASS_RESET_WINDOW_NS
abbrev pub bad_pkt_reset_threshold : ℕ
bad_pkt_reset_threshold = 10

abbrev pub reset_window_ns : ℕ
reset_window_ns = 1000 * 1000 * 1000

abbrev pub time_in_range64 : ℕ → ℕ → ℕ → Bool
time_in_range64 a b c = time_after_eq64 a b && time_before_eq64 a c

-- Another bad packet is counted, and the connection is taken to be out of step.
abbrev pub count_bad : Conn → Conn
count_bad conn = record conn {
  in_sync = false;
  consecutive_bad_pkts = (conn.consecutive_bad_pkts + 1) % 2 ^ 32;
}

abbrev pub reset_unless_recent : Bool → ℕ → Conn → Conn
reset_unless_recent is_endpoint now conn =
    if time_in_range64 conn.last_reset_time (sub64 now reset_window_ns) (add64 now reset_window_ns)
    then conn
    else reset_and_tell is_endpoint now false conn

unfoldable pub got_bad_packet : Bool → ℕ → Conn → Conn
got_bad_packet is_endpoint now conn =
    let counted = count_bad conn in
    let conn' =
      if ltb counted.consecutive_bad_pkts bad_pkt_reset_threshold
      then counted
      else reset_unless_recent is_endpoint now (record counted { consecutive_bad_pkts = 0 }) in
    call_if conn'.ops.has_trigger trigger_request conn'

-- The connection is reset before its `ops` and times are set.
unfoldable pub fpproto_init_conn : Bool → ℕ → Ops → ℕ → ℕ → Conn → Conn
fpproto_init_conn is_endpoint now ops rst_win_ns send_timeout conn =
    record (do_proto_reset is_endpoint now false conn) {
      ops = ops;
      rst_win_ns = rst_win_ns;
      send_timeout = send_timeout % 2 ^ 32;
    }

abbrev pub fpproto_destroy_conn : Conn → Conn
fpproto_destroy_conn conn = free_unacked conn
