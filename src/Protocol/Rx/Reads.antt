-- ===== src/Protocol/Rx/Reads.antt =====
-- Each payload as it is encoded, read again.
use mathlib.Core.List.{append_assoc}
use fastpass.Base.{
  ℕ, suc, ◌+◌, ◌*◌, ◌/◌, ◌%◌, ◌^◌, ◌≤◌, ◌<◌, bit_and, bit_or, Bool, true, false, List, ◌++◌, Option,
  some, ltb, if◌then◌else◌, length, take, drop, ◌≡◌, refl, ◌∙◌, ap, ap₂, arith, map, take-append,
  length-append, replicate,
}
use fastpass.Base.Bits.Fields.{bit_and-mask, bit_or-field}
use fastpass.Protocol.Hash.{u16, byte_at}
use fastpass.Protocol.Conn.{Pktdesc, Conn, handle_alloc, handle_areq, call_if}
use fastpass.Protocol.Codec.{
  be16_bytes, be32_bytes, dsts_bytes, requests_bytes, reset_bytes, alloc_bytes, areq_bytes,
}
use fastpass.Protocol.Rx.{be16, be32, halves, process_alloc, process_areq, handle_payload}
use fastpass.Protocol.Rx.Fields.{
  request, be16_lem, halves-dsts_bytes, length-dsts_bytes, half_pairs-requests_bytes,
  length-requests_bytes, alloc_type, read_alloc, read_areq, drop_four, behind_dsts,
}

-- What a payload makes the receiver do, whatever follows it.
abbrev pub Reads : List ℕ → (Conn → Conn) → Type 0
Reads p told =
    (rest : List ℕ) (conn : Conn) → handle_payload (p ++ rest) conn ≡ (some (length p), told conn)

-- What the receiver is told of the requests.
abbrev pub areq_told : Pktdesc → Conn → Conn
areq_told pd conn =
    if ltb 0 (length pd.areq)
    then call_if conn.ops.has_areq (handle_areq (map request pd.areq)) conn
    else conn

-- What the receiver is told of the allocations.
abbrev pub alloc_told : Bool → Pktdesc → Conn → Conn
alloc_told is_endpoint pd conn =
    if is_endpoint
    then conn
    else if ltb 0 (length pd.tslot_desc)
    then call_if conn.ops.has_alloc
        (handle_alloc (u16 pd.base_tslot * 2 ^ 4) (map u16 pd.dsts) pd.tslot_desc) conn
    else conn

-- The payload at hand by its type.
is_areq :
    (bytes : List ℕ) (conn : Conn)
    → byte_at bytes 0 / 2 ^ 4 ≡ 2
    → handle_payload bytes conn ≡ process_areq bytes conn
unfolding handle_payload
is_areq bytes conn e = rw e refl

is_alloc :
    (bytes : List ℕ) (conn : Conn)
    → byte_at bytes 0 / 2 ^ 4 ≡ 3
    → handle_payload bytes conn ≡ process_alloc bytes conn
unfolding handle_payload
is_alloc bytes conn e = rw e refl

is_reset :
    (bytes : List ℕ) (conn : Conn)
    → byte_at bytes 0 / 2 ^ 4 ≡ 1
    → handle_payload bytes conn ≡ (some 8, conn)
unfolding handle_payload
is_reset bytes conn e = rw e refl

areq_shape :
    (pd : Pktdesc)
    → 0 < length pd.areq
    → length pd.areq < 64
    → areq_bytes pd ≡ be16_bytes (2 ^ 13 + length pd.areq) ++ requests_bytes pd.areq
unfolding areq_bytes
areq_shape pd low high =
    let n = length pd.areq in
    let some_areq : ltb 0 n ≡ true = ground arith in
    let kind : bit_or (2 * 2 ^ 12) (bit_and n 0x3F) ≡ 2 ^ 13 + n =
      ap (bit_or (2 * 2 ^ 12)) (bit_and-mask 6 n ∙ omega arith)
      ∙ bit_or-field 12 2 n (omega arith) (omega arith)
      ∙ omega arith in
    rw (some_areq, kind) refl

pub areq_Reads :
    (pd : Pktdesc) → 0 < length pd.areq → length pd.areq < 64 → Reads (areq_bytes pd) (areq_told pd)
areq_Reads pd low high rest conn =
    let n = length pd.areq in
    let some_areq : ltb 0 n ≡ true = ground arith in
    let bytes = be16_bytes (2 ^ 13 + n) ++ requests_bytes pd.areq in
    rw (areq_shape pd low high, some_areq)
      (is_areq (bytes ++ rest) conn (omega arith)
        ∙ read_areq (bytes ++ rest) conn n (bit_and-mask 6 (be16 (bytes ++ rest)) ∙ omega arith) (
            omega
              (arith, length-append (requests_bytes pd.areq) rest, length-requests_bytes pd.areq))
        ∙ ap₂ (λ l ds. (some l, call_if conn.ops.has_areq (handle_areq ds) conn))
            (omega (arith, length-requests_bytes pd.areq)) (half_pairs-requests_bytes pd.areq rest))

alloc_shape :
    (pd : Pktdesc)
    → 0 < length pd.tslot_desc
    → length pd.tslot_desc ≤ 64
    → length pd.dsts < 16
    → alloc_bytes false pd
      ≡ be16_bytes ((48 + length pd.dsts) * 2 ^ 8 + (length pd.tslot_desc + 1) / 2)
        ++ (be16_bytes pd.base_tslot ++ (dsts_bytes pd.dsts ++ pd.tslot_desc))
unfolding alloc_bytes
alloc_shape pd low high few =
    let some_alloc : ltb 0 (length pd.tslot_desc) ≡ true = ground arith in
    rw (some_alloc, alloc_type (length pd.dsts) ((length pd.tslot_desc + 1) / 2) few (omega arith))
      refl

-- What a payload of allocations is told to the receiver as.
abbrev told_as : Conn → ℕ → List ℕ → List ℕ → ℕ → Option ℕ × Conn
told_as conn base dsts tslots l =
    (some l, call_if conn.ops.has_alloc (handle_alloc (base * 2 ^ 4) dsts tslots) conn)

pub alloc_Reads :
    (pd : Pktdesc)
    → 0 < length pd.tslot_desc
    → length pd.tslot_desc ≤ 64
    → length pd.tslot_desc % 2 ≡ 0
    → length pd.dsts < 16
    → Reads (alloc_bytes false pd) (alloc_told false pd)
alloc_Reads pd low high even few rest conn =
    let n = length pd.dsts in
    let m = length pd.tslot_desc in
    let some_alloc : ltb 0 m ≡ true = ground arith in
    let kind = (48 + n) * 2 ^ 8 + (m + 1) / 2 in
    let dsts = dsts_bytes pd.dsts in
    let bytes = be16_bytes kind ++ (be16_bytes pd.base_tslot ++ (dsts ++ pd.tslot_desc)) in
    let behind =
      drop_four (2 * n) ((dsts ++ pd.tslot_desc) ++ rest) _ _ _ _
      ∙ behind_dsts pd.dsts pd.tslot_desc rest in
    rw (alloc_shape pd low high few, some_alloc)
      (is_alloc (bytes ++ rest) conn (omega arith)
        ∙ read_alloc (bytes ++ rest) conn n m
            (bit_and-mask 4 (be16 (bytes ++ rest) / 2 ^ 8) ∙ omega arith)
            (ap (λ x. 2 * x) (bit_and-mask 6 (be16 (bytes ++ rest))) ∙ omega arith)
            (omega (
              arith,
              length-append (dsts ++ pd.tslot_desc) rest,
              length-append dsts pd.tslot_desc,
              length-dsts_bytes pd.dsts,
            ))
        ∙ ap₂
            (λ base l.
              told_as conn base (halves n ((dsts ++ pd.tslot_desc) ++ rest))
                (take m (drop (4 + 2 * n) (bytes ++ rest))) l)
            (be16_lem pd.base_tslot ((dsts ++ pd.tslot_desc) ++ rest))
            (omega (arith, length-append dsts pd.tslot_desc, length-dsts_bytes pd.dsts))
        ∙ ap₂ (λ ds ts. told_as conn (u16 pd.base_tslot) ds ts (length bytes))
            (ap (halves n) (append_assoc dsts pd.tslot_desc rest)
              ∙ halves-dsts_bytes pd.dsts (pd.tslot_desc ++ rest))
            (ap (take m) behind ∙ take-append pd.tslot_desc rest))

reset_shape :
    (pd : Pktdesc)
    → pd.send_reset ≡ true
    → reset_bytes pd
      ≡ be32_bytes (2 ^ 28 + pd.reset_timestamp / 2 ^ 32 % 2 ^ 24) ++ be32_bytes pd.reset_timestamp
unfolding reset_bytes
reset_shape pd e =
    let high = bit_and-mask 24 (pd.reset_timestamp / 2 ^ 32) in
    let kind =
      bit_or-field 28 1 (pd.reset_timestamp / 2 ^ 32 % 2 ^ 24) (omega arith) (omega arith) in
    rw (e, high, kind) refl

pub reset_Reads : (pd : Pktdesc) → pd.send_reset ≡ true → Reads (reset_bytes pd) (λ conn. conn)
reset_Reads pd e rest conn = rw (reset_shape pd e) (is_reset _ conn (omega arith))

pub padding_Reads :
    (k : ℕ) (conn : Conn)
    → handle_payload (replicate (suc k) 0) conn
      ≡ (some (length {A = ℕ} (replicate (suc k) 0)), conn)
unfolding handle_payload
padding_Reads k conn = refl

-- The types of the payloads, as they stand in their first bytes.
pub areq_kind :
    (pd : Pktdesc) (rest : List ℕ)
    → 0 < length pd.areq
    → length pd.areq < 64
    → byte_at (areq_bytes pd ++ rest) 0 / 2 ^ 4 ≡ 2
areq_kind pd rest low high = rw (areq_shape pd low high) (omega arith)

pub alloc_kind :
    (pd : Pktdesc) (rest : List ℕ)
    → 0 < length pd.tslot_desc
    → length pd.tslot_desc ≤ 64
    → length pd.dsts < 16
    → byte_at (alloc_bytes false pd ++ rest) 0 / 2 ^ 4 ≡ 3
alloc_kind pd rest low high few = rw (alloc_shape pd low high few) (omega arith)

pub reset_kind :
    (pd : Pktdesc) (rest : List ℕ)
    → pd.send_reset ≡ true
    → byte_at (reset_bytes pd ++ rest) 0 / 2 ^ 4 ≡ 1
reset_kind pd rest e = rw (reset_shape pd e) (omega arith)

-- The 56 bits of a time that a RESET payload holds.
pub reset_tstamp :
    (pd : Pktdesc) (rest : List ℕ)
    → pd.send_reset ≡ true
    → let bytes = reset_bytes pd ++ rest in
      be32 bytes % 2 ^ 24 * 2 ^ 32 + be32 (drop 4 bytes) ≡ pd.reset_timestamp % 2 ^ 56
reset_tstamp pd rest e = rw (reset_shape pd e) (omega arith)

pub behind_reset :
    (pd : Pktdesc) (rest : List ℕ) → pd.send_reset ≡ true → drop 8 (reset_bytes pd ++ rest) ≡ rest
behind_reset pd rest e = rw (reset_shape pd e) refl

pub length-reset_bytes_on : (pd : Pktdesc) → pd.send_reset ≡ true → length (reset_bytes pd) ≡ 8
length-reset_bytes_on pd e = rw (reset_shape pd e) refl
