-- ===== src/Protocol/Conn/Acks.antt =====
-- What an acknowledgement does to the packets that wait for one.
use mathlib.Core.List.{append-nil, append_assoc}
use fastpass.Base.{
  ℕ, zero, suc, ◌+◌, ◌-◌, ◌^◌, ◌≤◌, ◌<◌, Bool, true, false, not, ◌&&◌, Option, none, List, [], ◌∷◌,
  ◌++◌, ltb, leb, ◌==◌, if◌then◌else◌, ◌≡◌, ◌≢◌, refl, sym, ◌∙◌, ap, arith, Bool-cases, inl, inr,
  add64, sub64, over, over_quiet, over-congr, over_from,
}
use fastpass.Base.Bits.{bit, bit-zero, bit_and-lt}
use fastpass.Base.Bits.Scan.{lowest, lowest-lt, bit-lowest, bit_below-lowest}
use fastpass.Protocol.Window.{clear_bit}
use fastpass.Protocol.Window.Marks.{clear_bit_lem}
use fastpass.Protocol.Conn.{
  Pktdesc, Call, handle_ack, pktdesc_free, Conn, update, outwnd_peek, do_ack_seqno, ack_loop,
  outwnd_pop,
}
use fastpass.Protocol.Conn.Holds.{Holds, pending, Holds-ext, do_ack_seqno-Holds}

-- The numbers from `base` on whose bit is set wait no longer.
abbrev pub acked : ℕ → ℕ → (ℕ → Option Pktdesc) → ℕ → Option Pktdesc
acked base mask pend n =
    if leb base n && (ltb n (base + 64) && bit mask (n - base)) then none else pend n

-- The calls for one packet, and for those of the mask in the order of their numbers.
abbrev pub ack_calls : Bool → Option Pktdesc → List Call
ack_calls has pd = if has then handle_ack pd ∷ pktdesc_free pd ∷ [] else pktdesc_free pd ∷ []

abbrev pub mask_calls : Bool → ℕ → ℕ → (ℕ → Option Pktdesc) → ℕ → List Call
mask_calls has base mask pend i = if bit mask i then ack_calls has (pend (base + i)) else []

do_ack_seqno_calls :
    (n : ℕ) (conn : Conn)
    → (do_ack_seqno n conn).calls ≡ conn.calls ++ ack_calls conn.ops.has_ack (outwnd_peek conn n)
unfolding do_ack_seqno outwnd_pop
do_ack_seqno_calls n conn = elim (Bool-cases conn.ops.has_ack) [
  | inl e ↦ rw e (append_assoc conn.calls _ _)
  | inr e ↦ rw e refl
]

do_ack_seqno_rest :
    (n : ℕ) (conn : Conn)
    → ((do_ack_seqno n conn).ops ≡ conn.ops)
      × ((do_ack_seqno n conn).next_timeout_seqno ≡ conn.next_timeout_seqno)
      × ((do_ack_seqno n conn).send_timeout ≡ conn.send_timeout)
unfolding do_ack_seqno outwnd_pop
do_ack_seqno_rest n conn = ground arith

-- What the loop leaves after `n` acknowledgements.
pub record Done (base mask : ℕ) (pend : ℕ → Option Pktdesc) (head i left : ℕ) (conn : Conn)
    (n n' : ℕ) (conn' : Conn) : Type 0 where
  pub holds : Holds conn' head (acked base mask pend)
  pub calls : conn'.calls ≡ conn.calls ++ over (mask_calls conn.ops.has_ack base mask pend) i left
  pub timeout : conn'.next_timeout_seqno ≡ conn.next_timeout_seqno
  pub none_done : mask ≡ 0 → n' ≡ n
  pub some_done : mask ≢ 0 → n < n'
  pub counts : n ≤ n'

module _ (ack_seq base head : ℕ) (room : base + 64 ≤ 2 ^ 64) (from : ack_seq ≡ base + 63) where
  no_bits :
      (mask i left n : ℕ) (conn : Conn) (pend : ℕ → Option Pktdesc)
      → Holds conn head pend
      → mask ≡ 0
      → Done base mask pend head i left conn n n conn
  no_bits mask i left n conn pend h z = record {
    holds =
        Holds-ext conn head pend (acked base mask pend)
          (λ m. ground (arith, ap (λ x. bit x (m - base)) z, bit-zero (m - base))) h;
    calls =
        sym (append-nil conn.calls)
        ∙ ap (λ l. conn.calls ++ l)
            (sym (over_quiet _ i left λ m p q. ground (arith, ap (λ x. bit x m) z, bit-zero m)));
    timeout = refl;
    none_done = λ _. refl;
    some_done = λ ne. absurd (ne z);
    counts = omega arith;
  }

  cur_seqno : (j : ℕ) → j < 64 → add64 (sub64 ack_seq 63) j ≡ base + j
  cur_seqno j h = omega arith

  -- One packet is acknowledged, and the loop goes on behind its bit.
  module _ (i left n mask : ℕ) (conn : Conn) (pend : ℕ → Option Pktdesc) (h : Holds conn head pend)
      (fits : mask < 2 ^ 64) (whole : i + left ≡ 64) (low : (j : ℕ) → j < i → bit mask j ≡ false)
      (on : (j : ℕ) → j < 64 → bit mask j ≡ true → pending pend (base + j) ≡ true)
      (ne : mask ≢ 0) where
    abbrev l : ℕ
    l = lowest 64 mask

    l-lt : l < 64
    l-lt = lowest-lt 64 mask ne fits

    l_on : bit mask l ≡ true
    l_on = bit-lowest 64 mask ne fits

    l_from : i ≤ l
    l_from = ground (arith, low l, l_on)

    l_waits : pending pend (base + l) ≡ true
    l_waits = on l l-lt l_on

    abbrev next_conn : Conn
    next_conn = do_ack_seqno (base + l) conn

    abbrev next_pend : ℕ → Option Pktdesc
    next_pend = update pend (base + l) none

    cleared : (j : ℕ) → bit (clear_bit mask l) j ≡ (bit mask j && not (j == l))
    cleared j = clear_bit_lem mask l j fits l-lt

    next_holds : Holds next_conn head next_pend
    next_holds = do_ack_seqno-Holds conn head pend h (base + l) l_waits

    next_on :
        (j : ℕ) → j < 64 → bit (clear_bit mask l) j ≡ true → pending next_pend (base + j) ≡ true
    next_on j p b = ground (arith, cleared j, on j p)

    next_low : (j : ℕ) → j < l + 1 → bit (clear_bit mask l) j ≡ false
    next_low j p = ground (arith, cleared j, bit_below-lowest 64 mask j)

    same_acked : (m : ℕ) → acked base (clear_bit mask l) next_pend m ≡ acked base mask pend m
    same_acked m =
        ground (arith, cleared (m - base), ap (bit mask) {x = m - base} {y = l}, l_on, l-lt)

    abbrev has : Bool
    has = conn.ops.has_ack

    rest_calls :
        over (mask_calls next_conn.ops.has_ack base (clear_bit mask l) next_pend) (l + 1) (63 - l)
        ≡ over (mask_calls has base mask pend) (l + 1) (63 - l)
    rest_calls =
        ap (λ o. over (mask_calls o base (clear_bit mask l) next_pend) (l + 1) (63 - l))
          (ap (λ o. o.has_ack) (do_ack_seqno_rest (base + l) conn).0)
        ∙ over-congr _ _ (l + 1) (63 - l) λ m p q. ground (arith, cleared m)

    own_calls : next_conn.calls ≡ conn.calls ++ mask_calls has base mask pend l
    own_calls =
        do_ack_seqno_calls (base + l) conn
        ∙ ap (λ pd. conn.calls ++ ack_calls has pd) (h.stored (base + l) l_waits)
        ∙ ap (λ b. conn.calls ++ (if b then ack_calls has (pend (base + l)) else [])) (sym l_on)

    one_more :
        (n' : ℕ) (conn' : Conn)
        → Done base (clear_bit mask l) next_pend head (l + 1) (63 - l) next_conn (n + 1) n' conn'
        → Done base mask pend head i left conn n n' conn'
    one_more n' conn' d = record {
      holds = Holds-ext conn' head _ _ same_acked d.holds;
      calls =
          d.calls
          ∙ ap (λ c. next_conn.calls ++ c) rest_calls
          ∙ ap (λ c. c ++ over (mask_calls has base mask pend) (l + 1) (63 - l)) own_calls
          ∙ append_assoc conn.calls _ _
          ∙ ap (λ c. conn.calls ++ c)
              (sym (
                over_from (mask_calls has base mask pend) i left l (63 - l) l_from
                  (omega (arith, l-lt)) λ m p q. ground (arith, bit_below-lowest 64 mask m)));
      timeout = d.timeout ∙ (do_ack_seqno_rest (base + l) conn).1;
      none_done = λ z. absurd (ne z);
      some_done = λ _. omega (arith, d.counts);
      counts = omega (arith, d.counts);
    }

  pub ack_loop_lem :
      (fuel i left n mask : ℕ) (conn : Conn) (pend : ℕ → Option Pktdesc)
      → Holds conn head pend
      → mask < 2 ^ 64
      → i + left ≡ 64
      → left < fuel
      → ((j : ℕ) → j < i → bit mask j ≡ false)
      → ((j : ℕ) → j < 64 → bit mask j ≡ true → pending pend (base + j) ≡ true)
      → let (n', conn') = ack_loop fuel ack_seq n mask conn in
        Done base mask pend head i left conn n n' conn'
  unfolding ack_loop
  ack_loop_lem zero i left n mask conn pend h fits e f low on = absurd (omega arith)
  ack_loop_lem (suc fuel) i left n mask conn pend h fits e f low on =
      elim (Bool-cases (mask == 0)) [
        | inl z ↦ rw z (no_bits mask i left n conn pend h (ground arith))
        | inr nz ↦
            let ne : mask ≢ 0 = ground arith in
            let first = lowest-lt 64 mask ne fits in
            rw nz (
              rw (cur_seqno (lowest 64 mask) first) (
                one_more i left n mask conn pend h fits e low on ne _ _ (
                  ack_loop_lem fuel (lowest 64 mask + 1) (63 - lowest 64 mask) (n + 1)
                    (clear_bit mask (lowest 64 mask)) (do_ack_seqno (base + lowest 64 mask) conn)
                    (update pend (base + lowest 64 mask) none)
                    (next_holds i left n mask conn pend h fits e low on ne)
                    (bit_and-lt 64 mask (2 ^ 64 - 1 - 2 ^ lowest 64 mask) fits) (omega arith)
                    (omega (arith, l_from i left n mask conn pend h fits e low on ne))
                    (next_low i left n mask conn pend h fits e low on ne)
                    (next_on i left n mask conn pend h fits e low on ne))))
      ]
