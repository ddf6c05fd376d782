-- ===== src/Protocol/Rx/Fields.antt =====
-- The numbers in the bytes of payloads, read again.
use mathlib.Core.List.{append_assoc}
use fastpass.Base.{
  ℕ, suc, ◌+◌, ◌*◌, ◌/◌, ◌%◌, ◌^◌, ◌≤◌, ◌<◌, bit_and, bit_or, false, List, [], ◌∷◌, ◌++◌, some, ltb,
  length, take, drop, ◌≡◌, refl, sym, ◌∙◌, ap, ap₂, arith, map, drop-append,
}
use fastpass.Base.Bits.Fields.{bit_or-field}
use fastpass.Protocol.Hash.{u16}
use fastpass.Protocol.Conn.{AreqDesc, Conn, handle_alloc, handle_areq, call_if}
use fastpass.Protocol.Codec.{be16_bytes, dsts_bytes, requests_bytes}
use fastpass.Protocol.Rx.{be16, halves, half_pairs, process_alloc, process_areq}

pub be16_lem : (t : ℕ) (rest : List ℕ) → be16 (be16_bytes t ++ rest) ≡ t % 2 ^ 16
be16_lem t rest = omega arith

pub halves-dsts_bytes :
    (dsts rest : List ℕ) → halves (length dsts) (dsts_bytes dsts ++ rest) ≡ map u16 dsts
halves-dsts_bytes [] rest = refl
halves-dsts_bytes (d ∷ dsts) rest = ap₂ (λ x l. x ∷ l) (omega arith) (halves-dsts_bytes dsts rest)

pub length-dsts_bytes : (dsts : List ℕ) → length (dsts_bytes dsts) ≡ 2 * length dsts
length-dsts_bytes [] = refl
length-dsts_bytes (d ∷ dsts) = omega (arith, length-dsts_bytes dsts)

abbrev pub request : AreqDesc → ℕ × ℕ
request areq = (u16 areq.src_dst_key, u16 areq.tslots)

pub half_pairs-requests_bytes :
    (areqs : List AreqDesc) (rest : List ℕ)
    → half_pairs (length areqs) (requests_bytes areqs ++ rest) ≡ map request areqs
half_pairs-requests_bytes [] rest = refl
half_pairs-requests_bytes (a ∷ areqs) rest =
    ap₂ (λ x l. x ∷ l) (ap₂ (λ x y. (x, y)) (omega arith) (omega arith))
      (half_pairs-requests_bytes areqs rest)

pub length-requests_bytes :
    (areqs : List AreqDesc) → length (requests_bytes areqs) ≡ 4 * length areqs
length-requests_bytes [] = refl
length-requests_bytes (a ∷ areqs) = omega (arith, length-requests_bytes areqs)

pub alloc_type :
    (n m : ℕ) → n < 16 → m < 64 → bit_or (bit_or (3 * 2 ^ 12) (n * 2 ^ 8)) m ≡ (48 + n) * 2 ^ 8 + m
alloc_type n m p q =
    ap (λ x. bit_or x m) {y = (48 + n) * 2 ^ 8}
      (bit_or-field 12 3 (n * 2 ^ 8) (omega arith) (omega arith) ∙ omega arith)
    ∙ bit_or-field 8 (48 + n) m (omega arith) (omega arith)

-- Reading an ALLOC payload of known counts.
pub read_alloc :
    (bytes : List ℕ) (conn : Conn) (n m : ℕ)
    → bit_and (be16 bytes / 2 ^ 8) 0xF ≡ n
    → 2 * bit_and (be16 bytes) 0x3F ≡ m
    → 4 + 2 * n + m ≤ length bytes
    → process_alloc bytes conn ≡ (
      some (4 + 2 * n + m),
      call_if conn.ops.has_alloc
          (handle_alloc
            (be16 (drop 2 bytes) * 2 ^ 4)
            (halves n (drop 4 bytes))
            (take m (drop (4 + 2 * n) bytes)))
          conn,
    )
unfolding process_alloc
read_alloc bytes conn n m en em long =
    let one : ltb (length bytes) 2 ≡ false = ground arith in
    let two : ltb (length bytes) (4 + 2 * n + m) ≡ false = ground arith in
    rw (en, em, one, two) refl

pub read_areq :
    (bytes : List ℕ) (conn : Conn) (n : ℕ)
    → bit_and (be16 bytes) 0x3F ≡ n
    → 2 + 4 * n ≤ length bytes
    → process_areq bytes conn ≡ (
      some (2 + 4 * n),
      call_if conn.ops.has_areq (handle_areq (half_pairs n (drop 2 bytes))) conn,
    )
unfolding process_areq
read_areq bytes conn n en long =
    let one : ltb (length bytes) 2 ≡ false = ground arith in
    let two : ltb (length bytes) (2 + 4 * n) ≡ false = ground arith in rw (en, one, two) refl

pub drop_four : (k : ℕ) (l : List ℕ) (a b c d : ℕ) → drop (4 + k) (a ∷ b ∷ c ∷ d ∷ l) ≡ drop k l
drop_four k l a b c d =
    ap (λ j. drop j (a ∷ b ∷ c ∷ d ∷ l)) {x = 4 + k} {y = suc (suc (suc (suc k)))} (omega arith)

pub behind_dsts :
    (dsts tslots rest : List ℕ)
    → drop (2 * length dsts) ((dsts_bytes dsts ++ tslots) ++ rest) ≡ tslots ++ rest
behind_dsts dsts tslots rest =
    ap₂ drop (sym (length-dsts_bytes dsts)) (append_assoc (dsts_bytes dsts) tslots rest)
    ∙ drop-append (dsts_bytes dsts) (tslots ++ rest)
