-- ===== src/Protocol/Rx/RoundTrip.antt =====
-- A packet that is encoded, read again.
use mathlib.Core.List.{append_assoc}
use fastpass.Base.{
  ℕ, zero, suc, ◌+◌, ◌-◌, ◌*◌, ◌%◌, ◌≤◌, ◌<◌, max, Bool, true, false, none, some, ◌==◌, List, [],
  ◌++◌, ltb, if◌then◌else◌, length, drop, ◌≡◌, refl, sym, ◌∙◌, ap, subst, ◌⊎◌, arith, drop-append,
  ◌&&◌, length-append, length-replicate, Bool-cases, inl, inr, replicate,
}
use fastpass.Protocol.Hash.{fastpass_checksum}
use fastpass.Protocol.Conn.{Pktdesc, Conn}
use fastpass.Protocol.Codec.{
  reset_bytes, alloc_bytes, areq_bytes, plain_bytes, padded, put_checksum, encoded,
  fpproto_encode_packet,
}
use fastpass.Protocol.Rx.{after_payload, payloads_from, fpproto_perform_rx_callbacks}
use fastpass.Protocol.Rx.Fields.{length-requests_bytes}
use fastpass.Protocol.Rx.Reads.{
  Reads, reset_Reads, alloc_Reads, areq_Reads, padding_Reads, alloc_told, areq_told,
}

-- With `k` rounds or more the receiver reads all of the bytes; none if there are none.
pub record Runs (k : ℕ) (bytes : List ℕ) (told : Conn → Conn) : Type 0 where
  pub full :
      0 < length bytes
      → (fuel : ℕ) (conn : Conn) → k ≤ fuel
      → payloads_from fuel bytes conn ≡ some (true, told conn)
  pub empty : length bytes ≡ 0 → (conn : Conn) → told conn ≡ conn

-- A payload comes first.
Runs-payload :
    (k : ℕ) (p rest : List ℕ) (told told' : Conn → Conn)
    → 0 < length p
    → Reads p told
    → Runs k rest told'
    → Runs (suc k) (p ++ rest) (λ conn. told' (told conn))
unfolding payloads_from
Runs-payload k p rest told told' some_p reads runs = record {
  full = λ whole fuel.
      elim fuel
        as (λ f.
          (conn : Conn)
          → suc k ≤ f
          → payloads_from f (p ++ rest) conn ≡ some (true, told' (told conn))) [
            | zero ↦ λ conn le. absurd (omega arith)
            | suc fuel ↦ λ conn le.
                ap (after_payload (payloads_from fuel) (p ++ rest)) (reads rest conn)
                ∙ (elim (Bool-cases (ltb 0 (length rest))) [
                  | inl e ↦
                      let more : ltb (length p) (length (p ++ rest)) ≡ true =
                        ground (arith, length-append p rest) in
                      rw (more, drop-append p rest)
                        (runs.full (ground arith) fuel (told conn) (omega arith))
                  | inr e ↦
                      let no_more : ltb (length p) (length (p ++ rest)) ≡ false =
                        ground (arith, length-append p rest) in
                      rw no_more
                        (ap (λ c. some (true, c)) (sym (runs.empty (ground arith) (told conn))))
                ])
          ];
  empty = λ e conn. absurd (omega (arith, length-append p rest));
}

-- A payload that may be left out.
abbrev Segment : List ℕ → (Conn → Conn) → Type 0
Segment p told = ((0 < length p) × Reads p told) ⊎ ((p ≡ []) × ((conn : Conn) → told conn ≡ conn))

Runs-Segment :
    (k : ℕ) (p rest : List ℕ) (told told' : Conn → Conn)
    → Segment p told
    → Runs k rest told'
    → Runs (suc k) (p ++ rest) (λ conn. told' (told conn))
Runs-Segment k p rest told told' (inl (some_p, reads)) runs =
    Runs-payload k p rest told told' some_p reads runs
Runs-Segment k p rest told told' (inr (nil, same)) runs =
    subst (λ q. Runs (suc k) (q ++ rest) (λ conn. told' (told conn))) (sym nil)
      (record {
        full = λ whole fuel conn le.
            runs.full whole fuel conn (omega arith)
            ∙ ap (λ c. some (true, told' c)) (sym (same conn));
        empty = λ e conn. ap told' (same conn) ∙ runs.empty e conn;
      })

Runs-padding : (n : ℕ) → Runs 1 (replicate n 0) (λ conn. conn)
unfolding payloads_from
Runs-padding zero = record { full = λ p. elim p [ ]; empty = λ e conn. refl }
Runs-padding (suc n) = record {
  full = λ p fuel.
      elim fuel
        as (λ f.
          (conn : Conn) → 1 ≤ f → payloads_from f (replicate (suc n) 0) conn ≡ some (true, conn)) [
            | zero ↦ λ conn le. absurd (omega arith)
            | suc fuel ↦ λ conn le.
                let whole : ltb (suc (length {A = ℕ} (replicate n 0)))
                      (suc (length {A = ℕ} (replicate n 0)))
                    ≡ false =
                  ground arith in
                ap (after_payload (payloads_from fuel) (replicate (suc n) 0)) (padding_Reads n conn)
                ∙ rw whole refl
          ];
  empty = λ e. absurd (omega arith);
}

-- What the source's arrays have room for, and an even number of time slots.
pub record Fits (pd : Pktdesc) : Type 0 where
  pub areqs : length pd.areq ≤ 10
  pub dsts : length pd.dsts ≤ 15
  pub tslots : length pd.tslot_desc ≤ 64
  pub even : length pd.tslot_desc % 2 ≡ 0

module _ (is_endpoint : Bool) (pd : Pktdesc) (fits : Fits pd) where
  reset-Segment : Segment (reset_bytes pd) (λ conn. conn)
  unfolding reset_bytes
  reset-Segment = elim (Bool-cases pd.send_reset) [
    | inl e ↦ inl (rw e (omega arith), reset_Reads pd e)
    | inr e ↦ inr (rw e refl, λ conn. refl)
  ]

  areq-Segment : Segment (areq_bytes pd) (areq_told pd)
  unfolding areq_bytes
  areq-Segment = elim (Bool-cases (ltb 0 (length pd.areq))) [
    | inl e ↦ inl (rw e (omega arith), areq_Reads pd (ground arith) (omega (arith, fits.areqs)))
    | inr e ↦ inr (rw e refl, λ conn. rw e refl)
  ]

  controller-Segment : Segment (alloc_bytes false pd) (alloc_told false pd)
  unfolding alloc_bytes
  controller-Segment = elim (Bool-cases (ltb 0 (length pd.tslot_desc))) [
    | inl e ↦ inl (
      rw e (omega arith),
      alloc_Reads pd (ground arith) fits.tslots fits.even (omega (arith, fits.dsts)),
    )
    | inr e ↦ inr (rw e refl, λ conn. rw e refl)
  ]

  alloc-Segment : Segment (alloc_bytes is_endpoint pd) (alloc_told is_endpoint pd)
  unfolding alloc_bytes
  alloc-Segment = elim (Bool-cases is_endpoint) [
    | inl e ↦ inr (rw e refl, λ conn. rw e refl)
    | inr e ↦ rw e controller-Segment
  ]

  -- What the receiver is told of a packet.
  abbrev pub told : Conn → Conn
  told conn = areq_told pd (alloc_told is_endpoint pd conn)

  unfoldable pub after_reset : ℕ → List ℕ
  after_reset n = alloc_bytes is_endpoint pd ++ (areq_bytes pd ++ replicate n 0)

  pub Runs-after_reset : (n : ℕ) → Runs 3 (after_reset n) told
  unfolding after_reset
  Runs-after_reset n =
      Runs-Segment 2 _ _ _ _ alloc-Segment (Runs-Segment 1 _ _ _ _ areq-Segment (Runs-padding n))

  unfoldable pub payloads : ℕ → List ℕ
  payloads n = reset_bytes pd ++ after_reset n

  pub runs : (n : ℕ) → Runs 4 (payloads n) told
  unfolding payloads
  runs n = Runs-Segment 3 _ _ _ _ reset-Segment (Runs-after_reset n)

  abbrev pub body : ℕ → List ℕ
  body min_size = padded min_size (plain_bytes is_endpoint pd)

  abbrev pub plain_length : ℕ
  plain_length = length (plain_bytes is_endpoint pd)

  pub after_header :
      (min_size checksum : ℕ)
      → drop 8 (put_checksum checksum (body min_size))
        ≡ payloads (min_size - length (plain_bytes is_endpoint pd))
  unfolding payloads after_reset
  after_header min_size checksum =
      append_assoc (reset_bytes pd) _ _
      ∙ ap (λ l. reset_bytes pd ++ l) (append_assoc (alloc_bytes is_endpoint pd) _ _)

  -- The bytes that are put into the buffer.
  abbrev pub packet : ℕ → ℕ → List ℕ
  packet addr min_size =
      let pkt = body min_size in
      put_checksum (fastpass_checksum addr pkt (length pkt) pd.seqno pd.ack_seq) pkt

  length-reset_bytes : length (reset_bytes pd) ≡ (if pd.send_reset then 8 else 0)
  unfolding reset_bytes
  length-reset_bytes = elim (Bool-cases pd.send_reset) [ inl e ↦ rw e refl | inr e ↦ rw e refl ]

  length-areq_bytes :
      length (areq_bytes pd) ≡ (if ltb 0 (length pd.areq) then 2 + 4 * length pd.areq else 0)
  unfolding areq_bytes
  length-areq_bytes = elim (Bool-cases (ltb 0 (length pd.areq))) [
    | inl e ↦ rw e (omega (arith, length-requests_bytes pd.areq))
    | inr e ↦ rw e refl
  ]

  length-plain_bytes :
      plain_length
      ≡ 8 + length (reset_bytes pd) + length (alloc_bytes is_endpoint pd) + length (areq_bytes pd)
  length-plain_bytes = omega (
    arith,
    length-append (reset_bytes pd) (alloc_bytes is_endpoint pd ++ areq_bytes pd),
    length-append (alloc_bytes is_endpoint pd) (areq_bytes pd),
  )

  length-body : (min_size : ℕ) → length (body min_size) ≡ max min_size plain_length
  length-body min_size = omega (
    arith,
    length-append (plain_bytes is_endpoint pd) (replicate (min_size - plain_length) 0),
    length-replicate {A = ℕ} (min_size - plain_length) 0,
  )

  -- Encoding succeeds where the packet fits.
  pub encode_succeeds :
      (addr max_len min_size : ℕ)
      → plain_length ≤ max_len
      → min_size ≤ max_len
      → fpproto_encode_packet is_endpoint addr pd max_len min_size ≡ encoded (packet addr min_size)
  unfolding fpproto_encode_packet
  encode_succeeds addr max_len min_size room room' =
      let reset_len = length-reset_bytes in
      let areq_len = length-areq_bytes in
      let plain = length-plain_bytes in
      let whole = length-body min_size in
      let after_reset = max_len - 8 - (if pd.send_reset then 8 else 0) in
      let areqs = if ltb 0 (length pd.areq) then 2 + 4 * length pd.areq else 0 in
      let one : ltb max_len 8 ≡ false = ground arith in
      let two : (pd.send_reset && ltb (max_len - 8) 8) ≡ false = ground arith in
      let three : ltb after_reset areqs ≡ false = ground arith in
      let four : ltb (after_reset - areqs) (min_size - plain_length) ≡ false = ground arith in
      let five : ltb max_len (length (body min_size)) ≡ false = ground arith in
      rw (one, two, three, four, five) refl

  -- A packet with the counts that its arrays have room for and an even number of time slots, whose
  -- length and least length are at most `max_len` and one of them more than 8, is encoded in the
  -- greater of the two lengths; reading its payloads then comes to the end of the packet, and
  -- calls `handle_alloc` for its time slots if it has any and the sender is the controller, then
  -- `handle_areq` for its requests if it has any, with 16 bits of each number, and nothing else.
  pub fpproto_encode_packet_lem :
      (addr max_len min_size : ℕ) (conn : Conn)
      → plain_length ≤ max_len
      → min_size ≤ max_len
      → 8 < max min_size plain_length
      → (fpproto_encode_packet is_endpoint addr pd max_len min_size
          ≡ encoded (packet addr min_size))
        × (length (packet addr min_size) ≡ max min_size plain_length)
        × (fpproto_perform_rx_callbacks (packet addr min_size) conn ≡ some (true, told conn))
  unfolding fpproto_perform_rx_callbacks
  fpproto_encode_packet_lem addr max_len min_size conn room room' some_payload =
      let whole = length-body min_size in
      let pad = min_size - plain_length in
      let pkt = body min_size in
      let sum = fastpass_checksum addr pkt (length pkt) pd.seqno pd.ack_seq in
      let some_left : length (payloads pad) == 0 ≡ false =
        ground (arith, whole, ap length (after_header min_size 0), some_payload) in
      (
        encode_succeeds addr max_len min_size room room',
        whole,
        ap (λ l. if length l == 0 then none else payloads_from (length pkt) l conn)
              (after_header min_size sum)
            ∙ rw some_left (
                (runs pad).full
                  (omega (arith, whole, ap length (after_header min_size 0), some_payload))
                  (length pkt) conn (omega (arith, whole))),
      )
