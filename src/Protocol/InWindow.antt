-- ===== src/Protocol/InWindow.antt =====
-- src/protocol/fpproto.c: which received sequence numbers are accepted, and the comparisons of
-- src/protocol/platform/generic.h. The record holds the two fields of struct fpproto_conn that
-- these functions read and write; the statistics are not modelled.
pub mod Once
pub mod Refines
pub mod Tracks
use fastpass.Base.{
  ℕ, zero, suc, ◌+◌, ◌-◌, ◌%◌, ◌^◌, bit_and, bit_or, Bool, true, false, not, List, [], ◌∷◌, ◌==◌,
  if◌then◌else◌, add64, sub64, is_negative, shr64,
}

abbrev pub time_after64 : ℕ → ℕ → Bool
time_after64 a b = is_negative (sub64 b a)

abbrev pub time_after_eq64 : ℕ → ℕ → Bool
time_after_eq64 a b = not (is_negative (sub64 a b))

abbrev pub time_before_eq64 : ℕ → ℕ → Bool
time_before_eq64 a b = time_after_eq64 b a

pub record Inbound : Type 0 where
  pub in_max_seqno : ℕ
  pub inwnd : ℕ

-- The bit of `inwnd` for a sequence number that is not after the head.
abbrev pub inwnd_bit : ℕ → ℕ → ℕ
inwnd_bit head seqno = 2 ^ (sub64 63 (sub64 head seqno) % 64)

-- `true` if the caller should drop the packet.
unfoldable pub update_inwnd : Inbound → ℕ → Bool × Inbound
update_inwnd conn seqno =
    let head = conn.in_max_seqno in
    let mask = inwnd_bit head seqno in
    if time_after_eq64 seqno (add64 head 64)
    then (false, record { in_max_seqno = seqno; inwnd = 2 ^ 63 })
    else if time_after64 seqno head
    then (
      false,
      record {
        in_max_seqno = seqno;
        inwnd = bit_or (shr64 conn.inwnd (sub64 seqno head)) (2 ^ 63);
      },
    )
    else if time_before_eq64 seqno (sub64 head 64)
    then (true, conn)
    else if not (bit_and conn.inwnd mask == 0)
    then (true, conn)
    else (false, record conn { inwnd = bit_or conn.inwnd mask })

-- `true` if the caller should drop the packet.
unfoldable pub at_most_once_may_accept : Inbound → ℕ → Bool
at_most_once_may_accept conn seqno =
    let head = conn.in_max_seqno in
    if time_after64 seqno head
    then false
    else if time_before_eq64 seqno (sub64 head 64)
    then true
    else not (bit_and conn.inwnd (inwnd_bit head seqno) == 0)

-- The full sequence number of a packet from the 16 bits in its header.
unfoldable pub full_in_seq : Inbound → ℕ → ℕ
full_in_seq conn hdr_seq =
    let in_seq = sub64 conn.in_max_seqno (2 ^ 14) in add64 in_seq (sub64 hdr_seq in_seq % 2 ^ 16)

-- What `fpproto_handle_rx_complete` does to these fields for a packet with a right checksum:
-- `fpproto_handle_rx_packet` tests whether it is accepted, and after its payloads are handled,
-- `fpproto_successful_rx` updates the window if they could all be read.
unfoldable pub handle_accepted : ℕ → Bool → Inbound → Bool × Inbound
handle_accepted in_seq parsed conn =
    if at_most_once_may_accept conn in_seq
    then (false, conn)
    else if parsed
    then (let (_, conn') = update_inwnd conn in_seq in (true, conn'))
    else (false, conn)

-- A packet with the number that its sender counts, and whether its payloads can all be read.
pub record Packet : Type 0 where
  pub seqno : ℕ
  pub parsed : Bool

-- The numbers of the packets that are handled to the end, in the order of their arrival.
unfoldable pub delivered : Inbound → List Packet → List ℕ
delivered conn [] = []
delivered conn (p ∷ ps) =
    let (done, conn') = handle_accepted (p.seqno % 2 ^ 64) p.parsed conn in
    if done then p.seqno ∷ delivered conn' ps else delivered conn' ps
