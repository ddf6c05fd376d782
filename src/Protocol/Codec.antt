-- ===== src/Protocol/Codec.antt =====
-- The bytes of a packet: fpproto_encode_packet of src/protocol/fpproto.c, with the layout of
-- src/protocol/fpproto.h. A piece of a buffer is the list of its bytes; the 16-bit fields are in
-- network order, except the checksum, which both ends read in the order of a little-endian machine.
use fastpass.Base.{
  ℕ, ◌+◌, ◌-◌, ◌*◌, ◌/◌, ◌%◌, ◌^◌, bit_and, bit_or, Bool, ◌&&◌, List, [], ◌∷◌, ◌++◌, ltb,
  if◌then◌else◌, length, replicate, set,
}
use fastpass.Protocol.Hash.{fastpass_checksum}
use fastpass.Protocol.Conn.{AreqDesc, Pktdesc}

-- `htons` of the low 16 bits, and `htonl` of the low 32.
abbrev pub be16_bytes : ℕ → List ℕ
be16_bytes x = (x / 2 ^ 8 % 2 ^ 8) ∷ (x % 2 ^ 8) ∷ []

abbrev pub be32_bytes : ℕ → List ℕ
be32_bytes x = be16_bytes (x / 2 ^ 16) ++ be16_bytes x

-- With the checksum left 0.
abbrev pub header_bytes : Pktdesc → List ℕ
header_bytes pd =
    be16_bytes pd.seqno ++ (be16_bytes pd.ack_seq ++ (be16_bytes pd.ack_vec ++ (0 ∷ 0 ∷ [])))

-- The types of payloads, FASTPASS_PTYPE_PADDING to FASTPASS_PTYPE_ACK.
abbrev pub ptype_padding : ℕ
ptype_padding = 0

abbrev pub ptype_reset : ℕ
ptype_reset = 1

abbrev pub ptype_areq : ℕ
ptype_areq = 2

abbrev pub ptype_alloc : ℕ
ptype_alloc = 3

abbrev pub ptype_ack : ℕ
ptype_ack = 4

unfoldable pub reset_bytes : Pktdesc → List ℕ
reset_bytes pd =
    let hi_word =
      bit_or (ptype_reset * 2 ^ 28) (bit_and (pd.reset_timestamp / 2 ^ 32) 0x00FFFFFF) in
    if pd.send_reset then be32_bytes hi_word ++ be32_bytes pd.reset_timestamp else []

abbrev pub dsts_bytes : List ℕ → List ℕ
dsts_bytes [] = []
dsts_bytes (dst ∷ dsts) = be16_bytes dst ++ dsts_bytes dsts

-- `is_endpoint` is false where FASTPASS_CONTROLLER is defined.
unfoldable pub alloc_bytes : Bool → Pktdesc → List ℕ
alloc_bytes is_endpoint pd =
    let alloc_tslot = length pd.tslot_desc in
    let payload_type =
      bit_or (bit_or (ptype_alloc * 2 ^ 12) (length pd.dsts * 2 ^ 8)) ((alloc_tslot + 1) / 2) in
    let bytes =
      be16_bytes payload_type
      ++ (be16_bytes pd.base_tslot ++ (dsts_bytes pd.dsts ++ pd.tslot_desc)) in
    if is_endpoint then [] else if ltb 0 alloc_tslot then bytes else []

abbrev pub requests_bytes : List AreqDesc → List ℕ
requests_bytes [] = []
requests_bytes (areq ∷ areqs) =
    be16_bytes areq.src_dst_key ++ (be16_bytes areq.tslots ++ requests_bytes areqs)

unfoldable pub areq_bytes : Pktdesc → List ℕ
areq_bytes pd =
    let n_areq = length pd.areq in
    if ltb 0 n_areq
    then be16_bytes (bit_or (ptype_areq * 2 ^ 12) (bit_and n_areq 0x3F)) ++ requests_bytes pd.areq
    else []

-- What the source returns below 0, and else the packet, whose length it returns.
pub data Encoded : Type 0 where
  failed : ℕ → Encoded
  encoded : List ℕ → Encoded

-- `*(__be16 *)(pkt + 6) = checksum`
abbrev pub put_checksum : ℕ → List ℕ → List ℕ
put_checksum checksum pkt = set (set pkt 6 (checksum % 2 ^ 8)) 7 (checksum / 2 ^ 8 % 2 ^ 8)

-- The packet is padded with zeros up to `min_size`.
abbrev pub padded : ℕ → List ℕ → List ℕ
padded min_size pkt = pkt ++ replicate (min_size - length pkt) 0

-- The packet before the checksum.
abbrev pub plain_bytes : Bool → Pktdesc → List ℕ
plain_bytes is_endpoint pd =
    header_bytes pd ++ (reset_bytes pd ++ (alloc_bytes is_endpoint pd ++ areq_bytes pd))

-- `addr` is the address of the buffer. The ALLOC payload is not taken off `remaining_len`.
unfoldable pub fpproto_encode_packet : Bool → ℕ → Pktdesc → ℕ → ℕ → Encoded
fpproto_encode_packet is_endpoint addr pd max_len min_size =
    let n_areq = length pd.areq in
    let after_reset = max_len - 8 - (if pd.send_reset then 8 else 0) in
    let areq_len = if ltb 0 n_areq then 2 + 4 * n_areq else 0 in
    let remaining_len = after_reset - areq_len in
    let plain = plain_bytes is_endpoint pd in
    let pkt = padded min_size plain in
    if ltb max_len 8
    then failed 1
    else if pd.send_reset && ltb (max_len - 8) 8
    then failed 2
    else if ltb after_reset areq_len
    then failed 3
    else if ltb remaining_len (min_size - length plain)
    then failed 4
    else if ltb max_len (length pkt)
    then failed 5
    else encoded (put_checksum (fastpass_checksum addr pkt (length pkt) pd.seqno pd.ack_seq) pkt)
