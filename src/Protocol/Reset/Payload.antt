-- ===== src/Protocol/Reset/Payload.antt =====
-- Which of two resets wins, and what a request for a reset does to the connection.
use fastpass.Base.{
  ℕ, ◌+◌, ◌^◌, ◌≤◌, ◌<◌, Bool, true, false, not, ◌&&◌, Option, ltb, ◌==◌, if◌then◌else◌, ◌≡◌, ◌≢◌,
  ◌⊎◌, inl, inr, refl, ap, sym, ◌∙◌, arith, Bool-cases, if_both, subst,
}
use fastpass.Protocol.InWindow.{time_after64}
use fastpass.Protocol.Conn.{handle_reset, call_if, Ops, Pktdesc, Conn, do_proto_reset}
use fastpass.Protocol.Conn.Holds.{Holds}
use fastpass.Protocol.Reset.{tstamp_in_window, reset_and_tell, reset_payload_handler}
use fastpass.Protocol.Reset.Table.{Fresh, first_out, do_proto_reset_lem}

-- The time that an end settles on: of those that are recent the greater, and else the clock's.
abbrev pub settled : ℕ → ℕ → ℕ → ℕ → ℕ
settled now window last payload =
    let last_is_recent = tstamp_in_window last now window in
    let payload_is_recent = tstamp_in_window payload now window in
    if last_is_recent && payload_is_recent
    then (if ltb payload last then last else payload)
    else if payload_is_recent
    then payload
    else if last_is_recent
    then last
    else now

-- What an answer does to a connection with packets that wait: either its time of reset stays, and
-- nothing changes but `in_sync`, or it is reset to another time, and told so.
pub record Kept (is_endpoint : Bool) (conn : Conn) (answer : Bool × Conn) : Type 0 where
  pub same_time : answer.1.last_reset_time ≡ conn.last_reset_time
  pub state : answer.1 ≡ record conn { in_sync = if answer.0 then conn.in_sync else is_endpoint }

pub record Renewed (is_endpoint : Bool) (head : ℕ) (pend : ℕ → Option Pktdesc) (conn : Conn)
    (answer : Bool × Conn) : Type 0 where
  pub reset : Conn
  pub fresh : Fresh is_endpoint answer.1.last_reset_time head pend is_endpoint conn reset
  pub state : answer.1 ≡ call_if conn.ops.has_reset handle_reset reset
  pub other_time : answer.1.last_reset_time ≢ conn.last_reset_time

pub record Settled (is_endpoint : Bool) (now full_tstamp head : ℕ) (pend : ℕ → Option Pktdesc)
    (conn : Conn) (answer : Bool × Conn) : Type 0 where
  pub reset_at : answer.1.last_reset_time ≡ (
      if full_tstamp == conn.last_reset_time
      then full_tstamp
      else settled now conn.rst_win_ns conn.last_reset_time full_tstamp)
  pub drops : answer.0 ≡ not (full_tstamp == answer.1.last_reset_time)
  pub state : Kept is_endpoint conn answer ⊎ Renewed is_endpoint head pend conn answer

-- The numbers that a reset with this time starts from are inside the range of the window's model.
pub record HasRoom (is_endpoint : Bool) (time : ℕ) : Type 0 where
  pub low : 256 ≤ first_out is_endpoint time
  pub high : first_out is_endpoint time + 256 < 2 ^ 64

renewed :
    (is_endpoint : Bool) (time head : ℕ) (pend : ℕ → Option Pktdesc) (conn : Conn) (drop : Bool)
    → Holds conn head pend
    → HasRoom is_endpoint time
    → time ≢ conn.last_reset_time
    → Renewed is_endpoint head pend conn (drop, reset_and_tell is_endpoint time is_endpoint conn)
renewed is_endpoint time head pend conn drop h room ne =
    let reset = do_proto_reset is_endpoint time is_endpoint conn in
    let fresh =
      do_proto_reset_lem is_endpoint time is_endpoint conn head pend h room.low room.high in
    let told = call_if reset.ops.has_reset handle_reset reset in
    let same_time : told.last_reset_time ≡ time =
      if_both (λ (c : Conn). c.last_reset_time ≡ time) reset.ops.has_reset _ _ fresh.reset_at
        fresh.reset_at in
    record {
      reset = reset;
      fresh =
          subst (λ t. Fresh is_endpoint t head pend is_endpoint conn reset) (sym same_time) fresh;
      state = ap (λ (o : Ops). call_if o.has_reset handle_reset reset) fresh.settings.ops;
      other_time = λ e. ne (sym same_time ∙ e);
    }

module _ (is_endpoint : Bool) (now full_tstamp head : ℕ) (pend : ℕ → Option Pktdesc) (conn : Conn)
    (holds : Holds conn head pend) (room : HasRoom is_endpoint full_tstamp)
    (room' : HasRoom is_endpoint now) (soon : now + conn.rst_win_ns < 2 ^ 63)
    (late : conn.rst_win_ns < now) (some_window : 0 < conn.rst_win_ns)
    (last_fits : conn.last_reset_time < 2 ^ 63) (payload_fits : full_tstamp < 2 ^ 63) where
  abbrev Ok : Bool × Conn → Type 0
  Ok answer = Kept is_endpoint conn answer ⊎ Renewed is_endpoint head pend conn answer

  states : Ok (reset_payload_handler is_endpoint now full_tstamp conn)
  unfolding reset_payload_handler
  states =
      let accepts : full_tstamp ≢ conn.last_reset_time
          → Ok (false, reset_and_tell is_endpoint full_tstamp is_endpoint conn) =
        λ ne. inr (renewed is_endpoint full_tstamp head pend conn false holds room ne) in
      let drops : Ok (true, conn) = inl (record { same_time = refl; state = refl }) in
      elim (Bool-cases (full_tstamp == conn.last_reset_time)) [
        | inl e ↦ rw e (inl (record { same_time = refl; state = refl }))
        | inr e ↦
            let ne : full_tstamp ≢ conn.last_reset_time = ground arith in
            rw e (elim (Bool-cases (tstamp_in_window conn.last_reset_time now conn.rst_win_ns)) [
              | inl l ↦ rw l (
                  if_both Ok (tstamp_in_window full_tstamp now conn.rst_win_ns) _ _
                    (if_both Ok (time_after64 conn.last_reset_time full_tstamp) _ _ drops
                      (accepts ne))
                    drops)
              | inr l ↦
                  let ne' : now ≢ conn.last_reset_time = ground arith in
                  rw l (
                    if_both Ok (tstamp_in_window full_tstamp now conn.rst_win_ns) _ _ (accepts ne)
                      (inr (renewed is_endpoint now head pend conn true holds room' ne')))
            ])
      ]

  -- A request for a reset settles on the greater of its time and the last reset's where both are
  -- recent, on the recent one where one is, and on the clock where none is; a request for the time
  -- of the last reset keeps that. The packet is dropped unless the connection is then at the
  -- packet's time. If the time is that of the last reset, nothing changes but that an endpoint is
  -- in step, and the controller is not, if the packet is kept; and if not, the connection is reset
  -- to the time, every packet that waits is freed, an endpoint is in step, and `handle_reset` is
  -- called if there is one. The window must be at least 1 and less than the clock; the times, and
  -- the clock with the window added, must be less than 2 ^ 63; the first numbers of the resets at
  -- the packet's time and at the clock's must be at least 256 and less than 2 ^ 64 - 256.
  pub reset_payload_handler_lem :
      Settled is_endpoint now full_tstamp head pend conn
        (reset_payload_handler is_endpoint now full_tstamp conn)
  unfolding reset_payload_handler do_proto_reset
  reset_payload_handler_lem = record {
    reset_at = ground arith;
    drops = ground arith;
    state = states;
  }
