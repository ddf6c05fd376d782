-- ===== src/Protocol/Conn/Timer.antt =====
-- The retransmission timer is set anew.
use mathlib.Core.List.{append_assoc}
use fastpass.Base.{ℕ, List, [], ◌∷◌, ◌++◌, Option, none, some, ◌≡◌, refl}
use fastpass.Protocol.Window.{wnd_at_or_after}
use fastpass.Protocol.Conn.{
  Pktdesc, Call, cancel_timer, set_timer, Conn, restart_timer, recompute_and_reset_retrans_timer,
}
use fastpass.Protocol.Conn.Holds.{Holds, same-Holds}

-- What is called to set the timer anew.
pub data IsTimer : List Call → Type 0 where
  untouched : IsTimer []
  cancelled : IsTimer (cancel_timer ∷ [])
  restarted : (t : ℕ) → IsTimer (cancel_timer ∷ set_timer t ∷ [])

restart_timer-Holds :
    (o : Option ℕ) (conn : Conn) (head : ℕ) (pend : ℕ → Option Pktdesc)
    → Holds conn head pend
    → Holds (restart_timer o conn) head pend
restart_timer-Holds none conn head pend h = same-Holds conn _ head pend refl refl h
restart_timer-Holds (some n) conn head pend h = same-Holds conn _ head pend refl refl h

restart_timer_calls :
    (o : Option ℕ) (conn : Conn)
    → (timer : List Call) × IsTimer timer × ((restart_timer o conn).calls ≡ conn.calls ++ timer)
restart_timer_calls none conn = (cancel_timer ∷ [], cancelled, refl)
restart_timer_calls (some n) conn = (_, restarted _, append_assoc conn.calls _ _)

pub recompute-Holds :
    (conn : Conn) (head : ℕ) (pend : ℕ → Option Pktdesc)
    → Holds conn head pend
    → Holds (recompute_and_reset_retrans_timer conn) head pend
unfolding recompute_and_reset_retrans_timer
recompute-Holds conn =
    restart_timer-Holds (wnd_at_or_after conn.outwnd conn.next_timeout_seqno) conn

pub recompute_calls :
    (conn : Conn)
    → (timer : List Call) × IsTimer timer
      × ((recompute_and_reset_retrans_timer conn).calls ≡ conn.calls ++ timer)
unfolding recompute_and_reset_retrans_timer
recompute_calls conn =
    restart_timer_calls (wnd_at_or_after conn.outwnd conn.next_timeout_seqno) conn
