-- ===== src/Protocol/Conn/Sends.antt =====
-- What the sending of a packet does to the packets that wait.
use fastpass.Base.{
  ℕ, ◌+◌, ◌-◌, ◌^◌, ◌<◌, true, false, Option, none, some, ◌==◌, ◌≡◌, refl, ◌∙◌, ap, arith,
  Bool-cases, inl, inr, if_both,
}
use fastpass.Protocol.Window.{wnd_edge}
use fastpass.Protocol.Window.Shows.{wnd_is_marked_lem}
use fastpass.Protocol.Conn.{
  Pktdesc, Conn, update, outwnd_peek, do_neg_ack_seqno, pop_and_free, stamp,
  fpproto_prepare_to_send, fpproto_commit_packet, handle_neg_ack,
}
use fastpass.Protocol.Conn.Holds.{
  Holds, pending, is_some, Holds-ext, same-Holds, call_if-Holds, outwnd_pop-Holds, outwnd_add-Holds,
}
use fastpass.Protocol.Conn.Timer.{recompute-Holds}

pub do_neg_ack-Holds :
    (n : ℕ) (conn : Conn) (head : ℕ) (pend : ℕ → Option Pktdesc)
    → Holds conn head pend
    → Holds (do_neg_ack_seqno n conn) head pend
unfolding do_neg_ack_seqno
do_neg_ack-Holds n conn =
    call_if-Holds conn.ops.has_neg_ack (handle_neg_ack (outwnd_peek conn n)) conn

pub pop_and_free-Holds :
    (conn : Conn) (head : ℕ) (pend : ℕ → Option Pktdesc)
    → Holds conn head pend
    → (n : ℕ) → pending pend n ≡ true
    → Holds (pop_and_free n conn) head (update pend n none)
pop_and_free-Holds conn head pend h n on =
    same-Holds _ _ head (update pend n none) refl refl (outwnd_pop-Holds conn head pend h n on)

-- A number that does not wait is taken away.
update-none :
    (pend : ℕ → Option Pktdesc) (n m : ℕ) → pending pend n ≡ false → pend m ≡ update pend n none m
update-none pend n m off = elim (Bool-cases (m == n)) [
  | inl e ↦ rw e (ap pend {x = m} {y = n} (ground arith) ∙ none_of (pend n) off)
  | inr e ↦ rw e refl
]
  where
    none_of : (o : Option Pktdesc) → is_some o ≡ false → o ≡ none
    none_of none e = refl
    none_of (some pd) e = cc

module _ (conn : Conn) (head : ℕ) (pend : ℕ → Option Pktdesc) (h : Holds conn head pend) where
  edge_lem : wnd_edge conn.outwnd ≡ head - 191
  edge_lem = omega (arith, h.shows.word, h.shows.low, h.shows.high)

  -- The number that falls off the window when the head moves does not wait any more.
  pub prepare-Holds : Holds (fpproto_prepare_to_send conn) head (update pend (head - 191) none)
  unfolding fpproto_prepare_to_send
  prepare-Holds =
      let marked =
        wnd_is_marked_lem conn.outwnd head (pending pend) h.shows (head - 191) (omega arith)
          (omega (arith, h.shows.low)) in
      rw edge_lem (elim (Bool-cases (pending pend (head - 191))) [
        | inl on ↦ rw (marked ∙ on) (
            pop_and_free-Holds _ head pend
              (if_both (λ c. Holds c head pend) _ _ _
                (recompute-Holds _ head pend (
                  same-Holds _ _ head pend refl refl
                    (do_neg_ack-Holds (head - 191) conn head pend h)))
                h)
              (head - 191) on)
        | inr off ↦
            rw (marked ∙ off)
              (Holds-ext conn head pend _ (λ m. update-none pend (head - 191) m off) h)
      ])

  -- A packet is made ready and committed.
  abbrev pub send : Pktdesc → ℕ → Conn
  send pd timestamp = fpproto_commit_packet pd timestamp (fpproto_prepare_to_send conn)

  -- Sending gives the packet the number after the head, under which it waits from then on; of the
  -- packets that waited, only one that falls off the window, 191 before the old head, does not wait
  -- any more. The head must be less than 2 ^ 64 - 257.
  pub send_lem :
      (pd : Pktdesc) (timestamp : ℕ)
      → head + 257 < 2 ^ 64
      → let sent = stamp timestamp (fpproto_prepare_to_send conn) pd in
        Holds
          (send pd timestamp)
          (head + 1)
          (update (update pend (head - 191) none) (head + 1) (some sent))
        × (sent.seqno ≡ head + 1)
  unfolding fpproto_commit_packet
  send_lem pd timestamp room =
      let ready = prepare-Holds in
      (
        recompute-Holds _ (head + 1) _ (
            outwnd_add-Holds (fpproto_prepare_to_send conn) head (update pend (head - 191) none)
              ready (stamp timestamp (fpproto_prepare_to_send conn) pd) room
              (λ n on. ground (arith, h.shows.inside n))),
        omega (arith, ready.shows.word),
      )
