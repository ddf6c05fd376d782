-- ===== src/Protocol/Conn/AckHandler.antt =====
-- What ack_payload_handler does.
use mathlib.Core.List.{append-nil}
use fastpass.Base.{
  ℕ, ◌+◌, ◌-◌, ◌^◌, ◌≤◌, ◌<◌, bit_and, Bool, true, false, ◌&&◌, Option, none, some, List, [], ◌++◌,
  ltb, leb, if◌then◌else◌, ◌≡◌, refl, sym, ◌∙◌, ap, arith, Bool-cases, inl, inr, ltb→lt, over,
  over_quiet, over-congr,
}
use fastpass.Base.Bits.{bit, bit-bit_and, bit_and-lt}
use fastpass.Protocol.Window.{wnd_get_mask, wnd_seq_before}
use fastpass.Protocol.Window.Mask.{wnd_get_mask_lem}
use fastpass.Protocol.Conn.{
  Pktdesc, Call, Conn, ack_payload_handler, recompute_and_reset_retrans_timer,
}
use fastpass.Protocol.Conn.Holds.{Holds, pending, is_some, Holds-ext}
use fastpass.Protocol.Conn.Timer.{IsTimer, untouched, recompute-Holds, recompute_calls}
use fastpass.Protocol.Conn.Acks.{acked, ack_calls, mask_calls, Done, ack_loop_lem}

-- The calls for the packets that wait and are acknowledged, in the order of their numbers.
abbrev pub vec_calls : Bool → ℕ → ℕ → (ℕ → Option Pktdesc) → ℕ → List Call
vec_calls has base vec pend i =
    if bit vec i && pending pend (base + i) then ack_calls has (pend (base + i)) else []

none_of : (o : Option Pktdesc) → is_some o ≡ false → o ≡ none
none_of none e = refl
none_of (some pd) e = cc

-- Exactly the packets of the acknowledgement have been told and freed.
pub record Acknowledged (ack_seq ack_vec head : ℕ) (pend : ℕ → Option Pktdesc) (conn conn' : Conn)
    : Type 0 where
  pub holds : Holds conn' head (acked (ack_seq - 63) ack_vec pend)
  pub timer : List Call
  pub is_timer : IsTimer timer
  pub calls :
      conn'.calls
      ≡ (conn.calls ++ over (vec_calls conn.ops.has_ack (ack_seq - 63) ack_vec pend) 0 64) ++ timer

module _ (conn : Conn) (head : ℕ) (pend : ℕ → Option Pktdesc) (h : Holds conn head pend)
    (ack_seq ack_vec : ℕ) (fits : ack_seq < 2 ^ 64) (vec_fits : ack_vec < 2 ^ 64)
    (near : ack_seq < head + 2 ^ 62) (near' : head < ack_seq + 2 ^ 62) where
  abbrev base : ℕ
  base = ack_seq - 63

  before_lem : wnd_seq_before conn.outwnd ack_seq ≡ leb (ack_seq + 192) head
  before_lem = ground (arith, h.shows.word, h.shows.low, h.shows.high)

  -- Nothing that waits is acknowledged.
  unchanged :
      ((i : ℕ) → i < 64 → bit ack_vec i ≡ true → pending pend (base + i) ≡ false)
      → Acknowledged ack_seq ack_vec head pend conn conn
  unchanged none_waits = record {
    holds =
        Holds-ext conn head pend (acked base ack_vec pend)
          (λ n. elim (Bool-cases (leb base n && (ltb n (base + 64) && bit ack_vec (n - base)))) [
            | inl e ↦ rw e (
                none_of (pend n) (
                  ap (pending pend) {x = n} {y = base + (n - base)} (ground arith)
                  ∙ none_waits (n - base) (ground arith) (ground arith)))
            | inr e ↦ rw e refl
          ])
          h;
    timer = [];
    is_timer = untouched;
    calls =
        sym (append-nil conn.calls)
        ∙ ap (λ l. conn.calls ++ l) (sym (over_quiet _ 0 64 λ i p q. ground (arith, none_waits i)))
        ∙ sym (append-nil _);
  }

  module _ (inside : head < ack_seq + 192) where
    mask : ℕ
    mask = bit_and ack_vec (wnd_get_mask conn.outwnd ack_seq)

    bit-mask : (i : ℕ) → i < 64 → bit mask i ≡ (bit ack_vec i && pending pend (base + i))
    unfolding mask
    bit-mask i p =
        bit-bit_and ack_vec (wnd_get_mask conn.outwnd ack_seq) i
        ∙ ap (λ b. bit ack_vec i && b)
            (wnd_get_mask_lem conn.outwnd head (pending pend) h.shows ack_seq near near' (base + i)
              i (omega (arith, h.shows.low)) p)

    same_calls :
        over (mask_calls conn.ops.has_ack base mask pend) 0 64
        ≡ over (vec_calls conn.ops.has_ack base ack_vec pend) 0 64
    same_calls = over-congr _ _ 0 64 λ i p q. ground (arith, bit-mask i)

    same_acked : (n : ℕ) → acked base mask pend n ≡ acked base ack_vec pend n
    same_acked n = elim (Bool-cases (leb base n && ltb n (base + 64))) [
      | inl e ↦
          let at : bit mask (n - base) ≡ (bit ack_vec (n - base) && pending pend n) =
            bit-mask (n - base) (ground arith)
            ∙ ap (λ m. bit ack_vec (n - base) && pending pend m) {x = base + (n - base)} {y = n}
                (ground arith) in
          ground (arith, at, none_of (pend n))
      | inr e ↦ ground arith
    ]

    finished :
        (n' : ℕ) (conn' : Conn)
        → Done base mask pend head 0 64 conn 0 n' conn'
        → Acknowledged ack_seq ack_vec head pend conn
            (if ltb 0 n' then recompute_and_reset_retrans_timer conn' else conn')
    finished n' conn' d =
        let holds' = Holds-ext conn' head _ _ same_acked d.holds in
        let calls' = d.calls ∙ ap (λ l. conn.calls ++ l) same_calls in
        let (timer, is_timer, told) = recompute_calls conn' in
        elim (Bool-cases (ltb 0 n')) [
          | inl e ↦ rw e (record {
            holds = recompute-Holds conn' head _ holds';
            timer = timer;
            is_timer = is_timer;
            calls = told ∙ ap (λ l. l ++ timer) calls';
          })
          | inr e ↦ rw e (record {
            holds = holds';
            timer = [];
            is_timer = untouched;
            calls = calls' ∙ sym (append-nil _);
          })
        ]

    in_window :
        Acknowledged ack_seq ack_vec head pend conn (ack_payload_handler ack_seq ack_vec conn)
    unfolding ack_payload_handler mask
    in_window =
        let here : wnd_seq_before conn.outwnd ack_seq ≡ false = ground (arith, before_lem) in
        rw here (
          finished _ _ (
            ack_loop_lem ack_seq base head (omega (arith, h.shows.low)) (omega (arith, h.shows.low))
              65 0 64 0 mask conn pend h
              (bit_and-lt 64 ack_vec (wnd_get_mask conn.outwnd ack_seq) vec_fits) refl (omega arith)
              (λ j p. elim p [ ]) (λ j p b. ground (arith, bit-mask j))))

  too_early :
      ack_seq + 192 ≤ head
      → Acknowledged ack_seq ack_vec head pend conn (ack_payload_handler ack_seq ack_vec conn)
  unfolding ack_payload_handler
  too_early far =
      let early : wnd_seq_before conn.outwnd ack_seq ≡ true = ground (arith, before_lem) in
      rw early (unchanged λ i p b. ground (arith, h.shows.inside (base + i), h.shows.low))

  -- An acknowledgement of a number less than 2 ^ 62 from the head takes away exactly the waiting
  -- packets whose bit is set among the 64 numbers that end at it; it calls `handle_ack` for each
  -- of these in the order of their numbers, and frees it; and all it calls after that is the timer.
  pub ack_payload_handler_lem :
      Acknowledged ack_seq ack_vec head pend conn (ack_payload_handler ack_seq ack_vec conn)
  ack_payload_handler_lem = elim (Bool-cases (ltb head (ack_seq + 192))) [
    | inl e ↦ in_window (ltb→lt head (ack_seq + 192) e)
    | inr e ↦ too_early (ground arith)
  ]
