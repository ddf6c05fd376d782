-- ===== src/Protocol/Reset/Table.antt =====
-- What a connection is after a reset, and when bad packets lead to one.
use fastpass.Base.{
  ℕ, ◌+◌, ◌-◌, ◌%◌, ◌^◌, ◌≤◌, ◌<◌, Bool, true, false, not, ◌&&◌, ◌||◌, Option, ltb, leb, ◌==◌,
  if◌then◌else◌, ◌≡◌, refl, arith, subst, add64, sub64, ◌++◌, over,
}
use fastpass.Protocol.InWindow.Tracks.{Tracks}
use fastpass.Protocol.InWindow.Once.{reset-Tracks}
use fastpass.Protocol.Window.{wnd_reset}
use fastpass.Protocol.Window.Shows.{reset-Shows}
use fastpass.Protocol.Hash.{base_seqno_from_timestamp}
use fastpass.Protocol.Conn.{
  Pktdesc, Conn, do_proto_reset, free_unacked, egress_offset, ingress_offset,
}
use fastpass.Protocol.Conn.Holds.{Holds}
use fastpass.Protocol.Conn.Frees.{
  nothing, free_calls, free_unacked_lem, SameSettings, free_unacked-SameSettings,
}
use fastpass.Protocol.Reset.{reset_window_ns, bad_pkt_reset_threshold}

-- The last numbers before the first that is sent and the first that is received.
abbrev pub first_out : Bool → ℕ → ℕ
first_out is_endpoint time =
    sub64 (add64 (base_seqno_from_timestamp time) (egress_offset is_endpoint)) 1

abbrev pub first_in : Bool → ℕ → ℕ
first_in is_endpoint time =
    sub64 (add64 (base_seqno_from_timestamp time) (ingress_offset is_endpoint)) 1

pub record Fresh (is_endpoint : Bool) (time head : ℕ) (pend : ℕ → Option Pktdesc) (in_sync : Bool)
    (conn conn' : Conn) : Type 0 where
  pub none_waits : Holds conn' (first_out is_endpoint time) nothing
  pub tracks :
      Tracks conn'.inbound
        (2 ^ 64 + first_in is_endpoint time)
        (λ n. leb n (2 ^ 64 + first_in is_endpoint time))
  pub reset_at : conn'.last_reset_time ≡ time
  pub synced : conn'.in_sync ≡ in_sync
  pub next : conn'.next_timeout_seqno ≡ first_out is_endpoint time + 1
  pub no_bad : conn'.consecutive_bad_pkts ≡ 0
  pub settings : SameSettings conn conn'
  pub calls : conn'.calls ≡ conn.calls ++ over (free_calls head pend) 0 192

-- A reset frees every packet that waits, the last first, and leaves none; the next packet sent has
-- the number after `first_out`, and of the received numbers those up to `first_in` count as seen
-- and none after it. `first_out` must be at least 256 and less than 2 ^ 64 - 256.
pub do_proto_reset_lem :
    (is_endpoint : Bool) (time : ℕ) (in_sync : Bool) (conn : Conn) (head : ℕ)
    (pend : ℕ → Option Pktdesc)
    → Holds conn head pend
    → 256 ≤ first_out is_endpoint time
    → first_out is_endpoint time + 256 < 2 ^ 64
    → Fresh is_endpoint time head pend in_sync conn (do_proto_reset is_endpoint time in_sync conn)
unfolding do_proto_reset wnd_reset
do_proto_reset_lem is_endpoint time in_sync conn head pend h low high =
    let at = first_in is_endpoint time in
    record {
      none_waits = record {
        shows = reset-Shows (free_unacked conn).outwnd (first_out is_endpoint time) low high;
        stored = λ n on. ground arith;
      };
      tracks =
          subst
            (λ k.
              Tracks (record { in_max_seqno = k; inwnd = 2 ^ 64 - 1 }) (2 ^ 64 + at)
                (λ n. leb n (2 ^ 64 + at)))
            {x = (2 ^ 64 + at) % 2 ^ 64} {y = at} (omega arith)
            (reset-Tracks (2 ^ 64 + at) (omega arith));
      reset_at = refl;
      synced = refl;
      next = omega (arith, high);
      no_bad = refl;
      settings =
          let kept = free_unacked-SameSettings conn in
          record { ops = kept.ops; rst_win_ns = kept.rst_win_ns; send_timeout = kept.send_timeout };
      calls = (free_unacked_lem head conn pend h).calls;
    }

-- After both ends were reset with one time, each sends next the number that the other takes first.
pub reset_in_step :
    (is_endpoint : Bool) (time : ℕ) (in_sync in_sync' : Bool) (conn conn' : Conn)
    → let here = do_proto_reset is_endpoint time in_sync conn in
      let there = do_proto_reset (not is_endpoint) time in_sync' conn' in
      (here.outwnd.head ≡ there.inbound.in_max_seqno)
      × (there.outwnd.head ≡ here.inbound.in_max_seqno)
unfolding do_proto_reset wnd_reset
reset_in_step true time in_sync in_sync' conn conn' = (refl, refl)
reset_in_step false time in_sync in_sync' conn conn' = (refl, refl)

abbrev pub far_from : ℕ → ℕ → Bool
far_from last now = ltb (last + reset_window_ns) now || ltb (now + reset_window_ns) last

pub record Counted (now : ℕ) (conn conn' : Conn) : Type 0 where
  pub count :
      conn'.consecutive_bad_pkts
      ≡ (if conn.consecutive_bad_pkts == 9 then 0 else conn.consecutive_bad_pkts + 1)
  pub reset_at : conn'.last_reset_time ≡ (
      if (conn.consecutive_bad_pkts == 9) && far_from conn.last_reset_time now
      then now
      else conn.last_reset_time)
  pub below : conn'.consecutive_bad_pkts < bad_pkt_reset_threshold
  pub out_of_step : conn'.in_sync ≡ false
