-- ===== src/Protocol/Conn/Timeouts.antt =====
-- The packets that have timed out.
use mathlib.Core.List.{append-nil, append_assoc}
use fastpass.Base.{
  ℕ, zero, suc, ◌+◌, ◌-◌, ◌^◌, ◌≤◌, ◌<◌, Bool, true, false, ◌&&◌, Option, some, List, [], ◌∷◌, ◌++◌,
  ltb, leb, ◌==◌, if◌then◌else◌, ◌≡◌, refl, sym, ◌∙◌, ap, ap₂, arith, Bool-cases, Option-cases, inl,
  inr, add64, over, over_quiet, over_from, subst, if_both,
}
use fastpass.Protocol.InWindow.{time_after64}
use fastpass.Protocol.Window.{wnd_at_or_after}
use fastpass.Protocol.Window.After.{IsFirst, wnd_at_or_after_lem}
use fastpass.Protocol.Conn.{
  Pktdesc, Call, handle_neg_ack, set_timer, Conn, sent_time, timeout_of, do_neg_ack_seqno,
  timeout_loop, fpproto_handle_timeout, no_timeout, called,
}
use fastpass.Protocol.Conn.Holds.{Holds, pending, same-Holds}
use fastpass.Protocol.Conn.Sends.{do_neg_ack-Holds}

module _ (head now send_timeout : ℕ) (has_neg_ack : Bool) (pend : ℕ → Option Pktdesc) where
  -- When the packet with the number times out.
  abbrev pub deadline : ℕ → ℕ
  deadline n = add64 (sent_time (pend n)) send_timeout

  abbrev pub nacks : ℕ → List Call
  nacks n = if pending pend n && has_neg_ack then handle_neg_ack (pend n) ∷ [] else []

  abbrev pub timer : ℕ → List Call
  timer n = if leb n head then set_timer (deadline n) ∷ [] else []

  -- What a timeout does to the packets from `seqno` on.
  pub record TimedOut (seqno : ℕ) (conn conn' : Conn) : Type 0 where
    pub stop : ℕ
    pub from : seqno ≤ stop
    pub upto : stop ≤ head + 1
    pub expired :
        (n : ℕ)
        → seqno ≤ n
        → n < stop
        → pending pend n ≡ true
        → time_after64 (deadline n) now ≡ false
    pub waits : stop ≤ head → (pending pend stop ≡ true) × (time_after64 (deadline stop) now ≡ true)
    pub next : conn'.next_timeout_seqno ≡ stop
    pub calls : conn'.calls ≡ conn.calls ++ (over nacks seqno (stop - seqno) ++ timer stop)
    pub holds : Holds conn' head pend

  -- What the loop relies on and keeps.
  record Going (conn : Conn) : Type 0 where
    holds : Holds conn head pend
    same_timeout : conn.send_timeout ≡ send_timeout
    same_ops : conn.ops.has_neg_ack ≡ has_neg_ack

  nack-Going : (n : ℕ) (conn : Conn) → Going conn → Going (do_neg_ack_seqno n conn)
  unfolding do_neg_ack_seqno
  nack-Going n conn g = record {
    holds = do_neg_ack-Holds n conn head pend g.holds;
    same_timeout =
        if_both (λ (c : Conn). c.send_timeout ≡ send_timeout) conn.ops.has_neg_ack _ _
          g.same_timeout g.same_timeout;
    same_ops =
        if_both (λ (c : Conn). c.ops.has_neg_ack ≡ has_neg_ack) conn.ops.has_neg_ack _ _ g.same_ops
          g.same_ops;
  }

  nack_calls :
      (n : ℕ) (conn : Conn)
      → Going conn
      → pending pend n ≡ true
      → (do_neg_ack_seqno n conn).calls ≡ conn.calls ++ nacks n
  unfolding do_neg_ack_seqno
  nack_calls n conn g on = elim (Bool-cases has_neg_ack) [
    | inl e ↦ rw (g.same_ops ∙ e, e, on, g.holds.stored n on) refl
    | inr e ↦ rw (g.same_ops ∙ e, e, on) (sym (append-nil conn.calls))
  ]

  timeout_lem :
      (n : ℕ) (conn : Conn) → Going conn → pending pend n ≡ true → timeout_of conn n ≡ deadline n
  timeout_lem n conn g on =
      ap₂ (λ pd t. add64 (sent_time pd) t) (g.holds.stored n on) g.same_timeout

  quiet : (n : ℕ) → pending pend n ≡ false → nacks n ≡ []
  quiet n off = rw off refl

  -- No packet waits from `seqno` on.
  nothing_left :
      (seqno : ℕ) (conn : Conn)
      → Going conn
      → seqno ≤ head + 1
      → ((n : ℕ) → seqno ≤ n → pending pend n ≡ false)
      → TimedOut seqno conn (no_timeout conn)
  nothing_left seqno conn g le off = record {
    stop = head + 1;
    from = le;
    upto = omega arith;
    expired = λ n p q on. ground (arith, off n);
    waits = λ p. absurd (omega arith);
    next = omega (arith, g.holds.shows.word, g.holds.shows.high);
    calls =
        let past : leb (head + 1) head ≡ false = ground arith in
        rw (past, over_quiet nacks seqno (head + 1 - seqno) λ n p q. quiet n (off n p))
          (sym (append-nil conn.calls));
    holds = same-Holds conn _ head pend refl refl g.holds;
  }

  -- The first packet that waits has time left.
  not_yet :
      (seqno n : ℕ) (conn : Conn)
      → Going conn
      → IsFirst (pending pend) seqno (some n)
      → time_after64 (timeout_of conn n) now ≡ true
      → TimedOut seqno conn
          (called (set_timer (timeout_of conn n)) (record conn { next_timeout_seqno = n }))
  not_yet seqno n conn g (le, on, between) later =
      let (n_le, near) = g.holds.shows.inside n on in
      let same = timeout_lem n conn g on in
      record {
        stop = n;
        from = le;
        upto = omega arith;
        expired = λ m p q on'. ground (arith, between m p q);
        waits = λ p. (on, ap (λ t. time_after64 t now) (sym same) ∙ later);
        next = refl;
        calls =
            let inside : leb n head ≡ true = ground arith in
            rw
              (
                inside,
                over_quiet nacks seqno (n - seqno) λ m p q. quiet m (between m p (omega arith)),
                same,
              )
              refl;
        holds = same-Holds conn _ head pend refl refl g.holds;
      }

  -- The first packet that waits has timed out.
  one_nack :
      (seqno n : ℕ) (conn conn' : Conn)
      → Going conn
      → IsFirst (pending pend) seqno (some n)
      → time_after64 (timeout_of conn n) now ≡ false
      → TimedOut (n + 1) (do_neg_ack_seqno n conn) conn'
      → TimedOut seqno conn conn'
  one_nack seqno n conn conn' g (le, on, between) out d =
      let same = timeout_lem n conn g on in
      record {
        stop = d.stop;
        from = omega (arith, d.from);
        upto = d.upto;
        expired = λ m p q on'. elim (Bool-cases (ltb n m)) [
          | inl e ↦ d.expired m (ground arith) q on'
          | inr e ↦ elim (Bool-cases (m == n)) [
            | inl f ↦
                ap (λ k. time_after64 (deadline k) now) {x = m} {y = n} (ground arith)
                ∙ ap (λ t. time_after64 t now) (sym same)
                ∙ out
            | inr f ↦ ground (arith, between m p)
          ]
        ];
        waits = d.waits;
        next = d.next;
        calls =
            d.calls
            ∙ ap (λ l. l ++ (over nacks (n + 1) (d.stop - (n + 1)) ++ timer d.stop))
                (nack_calls n conn g on)
            ∙ append_assoc conn.calls (nacks n) _
            ∙ ap (λ l. conn.calls ++ l)
                (sym (append_assoc (nacks n) (over nacks (n + 1) (d.stop - (n + 1))) (timer d.stop))
                  ∙ ap (λ l. l ++ timer d.stop)
                      (sym (
                        over_from nacks seqno (d.stop - seqno) n (d.stop - (n + 1)) le
                          (omega (arith, d.from)) λ m p q. quiet m (between m p q))));
        holds = d.holds;
      }

  loop :
      (fuel seqno : ℕ) (conn : Conn)
      → Going conn
      → seqno ≤ head + 1
      → head < seqno + 2 ^ 62
      → 0 < fuel
      → ((n : ℕ) → seqno ≤ n → pending pend n ≡ true → head + 1 < n + fuel)
      → TimedOut seqno conn (timeout_loop fuel now seqno conn)
  unfolding timeout_loop
  loop zero seqno conn g le near some_fuel enough = absurd (omega arith)
  loop (suc fuel) seqno conn g le near some_fuel enough =
      let found =
        wnd_at_or_after_lem conn.outwnd head (pending pend) g.holds.shows seqno (omega arith)
          near in
      elim (Option-cases (wnd_at_or_after conn.outwnd seqno)) [
        | inl e ↦
            rw (e, timeout_loop)
              (nothing_left seqno conn g le (subst (IsFirst (pending pend) seqno) e found))
        | inr (n, e) ↦
            let first = subst (IsFirst (pending pend) seqno) e found in
            let (from, on, between) = first in
            let (n_le, n_near) = g.holds.shows.inside n on in
            let high = g.holds.shows.high in
            let next : add64 n 1 ≡ n + 1 = omega arith in
            let left : head + 1 < n + suc fuel = enough n from on in
            rw (e, timeout_loop)
              (elim (Bool-cases (time_after64 (timeout_of conn n) now)) [
                | inl later ↦ rw later (not_yet seqno n conn g first later)
                | inr out ↦
                    rw (out, next)
                      (one_nack seqno n conn _ g first out (
                        loop fuel (n + 1) (do_neg_ack_seqno n conn) (nack-Going n conn g)
                          (omega arith) (omega arith) (omega arith) λ m p on'. omega (arith, left)))
              ])
      ]

-- The handling of a timeout goes, in the order of their numbers, over the packets that wait with
-- numbers from `next_timeout_seqno` on up to the first that has not timed out: for each before that
-- it calls `handle_neg_ack` if there is one, and nothing else, so that it frees none, and these
-- packets still wait. At the first that has not timed out it sets the timer and the next number to
-- look at; if all have timed out it sets no timer, and the next number is the one after the head.
-- `next_timeout_seqno` must be at most the number after the head, and less than 2 ^ 62 behind the
-- head.
pub fpproto_handle_timeout_lem :
    (now head : ℕ) (pend : ℕ → Option Pktdesc) (conn : Conn)
    → Holds conn head pend
    → conn.next_timeout_seqno ≤ head + 1
    → head < conn.next_timeout_seqno + 2 ^ 62
    → TimedOut head now conn.send_timeout conn.ops.has_neg_ack pend conn.next_timeout_seqno conn
        (fpproto_handle_timeout now conn)
unfolding fpproto_handle_timeout
fpproto_handle_timeout_lem now head pend conn h le near =
    loop head now conn.send_timeout conn.ops.has_neg_ack pend 193 conn.next_timeout_seqno conn
      (record { holds = h; same_timeout = refl; same_ops = refl }) le near (omega arith)
      λ n p on. ground (arith, h.shows.inside n)
