-- ===== src/Protocol/Tests.antt =====
-- Runs of the protocol on small inputs, and the theorems at them.
use fastpass.Base.{
  ℕ, ◌+◌, ◌-◌, ◌%◌, ◌^◌, Bool, true, false, not, List, [], ◌∷◌, leb, ◌≡◌, refl, arith,
}
use fastpass.Protocol.InWindow.{
  Inbound, Packet, update_inwnd, at_most_once_may_accept, full_in_seq, delivered, handle_accepted,
}
use fastpass.Protocol.InWindow.Tracks.{Tracks, takes, may_accept_lem}
use fastpass.Protocol.InWindow.Refines.{next_head, next_seen, update_inwnd_lem}
use fastpass.Protocol.InWindow.Once.{
  InSpan, EachOnce, reset-Tracks, delivered-EachOnce, full_in_seq_lem,
}

-- Just after a reset with 2 ^ 64 + 100 as the largest number: the word has wrapped.
abbrev top : ℕ
top = 2 ^ 64 + 100

abbrev after_reset : Inbound
after_reset = record { in_max_seqno = top % 2 ^ 64; inwnd = 2 ^ 64 - 1 }

abbrev upto_top : ℕ → Bool
upto_top n = leb n top

after_reset-Tracks : Tracks after_reset top upto_top
after_reset-Tracks = reset-Tracks top (omega arith)

abbrev packet : ℕ → Bool → Packet
packet seqno parsed = record { seqno = seqno; parsed = parsed }

-- One that jumps ahead, one that is late, both again, one that fails to parse and is sent again.
abbrev packets : List Packet
packets =
    packet (top + 70) true
    ∷ packet (top + 10) true
    ∷ packet (top + 70) true
    ∷ packet (top + 10) true
    ∷ packet (top + 71) false
    ∷ packet (top + 71) true
    ∷ packet top true
    ∷ []

delivered-packets : delivered after_reset packets ≡ ((top + 70) ∷ (top + 10) ∷ (top + 71) ∷ [])
unfolding delivered handle_accepted at_most_once_may_accept update_inwnd
delivered-packets = refl

in_span : InSpan top packets
in_span = (
  omega arith,
  omega arith,
  (
    omega arith,
    omega arith,
    (
      omega arith,
      omega arith,
      (
        omega arith,
        omega arith,
        (omega arith, omega arith, (omega arith, omega arith, (omega arith, omega arith, tt))),
      ),
    ),
  ),
)

delivered-EachOnce_example : EachOnce upto_top (delivered after_reset packets)
delivered-EachOnce_example =
    delivered-EachOnce top top upto_top packets after_reset after_reset-Tracks (omega arith)
      (omega arith) in_span

update_inwnd_example :
    let (drop, conn') = update_inwnd after_reset ((top + 3) % 2 ^ 64) in
    (drop ≡ not (takes top upto_top (top + 3)))
    × Tracks conn' (next_head top upto_top (top + 3)) (next_seen top upto_top (top + 3))
update_inwnd_example =
    update_inwnd_lem after_reset top upto_top after_reset-Tracks (top + 3)
      (omega arith, omega arith)

may_accept_example :
    at_most_once_may_accept after_reset ((top - 5) % 2 ^ 64) ≡ not (takes top upto_top (top - 5))
may_accept_example =
    may_accept_lem after_reset top upto_top after_reset-Tracks (top - 5) (omega arith, omega arith)

full_in_seq_example : full_in_seq after_reset ((top + 30000) % 2 ^ 16) ≡ (top + 30000) % 2 ^ 64
full_in_seq_example = full_in_seq_lem after_reset top (top + 30000) refl (omega arith) (omega arith)
