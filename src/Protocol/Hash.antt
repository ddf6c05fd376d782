-- ===== src/Protocol/Hash.antt =====
-- The hash and the checksum of src/protocol/platform/generic.h, and the two functions of
-- src/protocol/fpproto.c that call them. The machine is little-endian.
use fastpass.Base.{
  ℕ, zero, suc, ◌+◌, ◌-◌, ◌*◌, ◌/◌, ◌%◌, ◌^◌, bit_or, bit_xor, List, get_or, ltb, ◌==◌,
  if◌then◌else◌, add64,
}

abbrev pub u16 : ℕ → ℕ
u16 x = x % 2 ^ 16

abbrev pub u32 : ℕ → ℕ
u32 x = x % 2 ^ 32

abbrev pub add32 : ℕ → ℕ → ℕ
add32 a b = u32 (a + b)

abbrev pub sub32 : ℕ → ℕ → ℕ
sub32 a b = u32 (u32 a + 2 ^ 32 - u32 b)

rot : ℕ → ℕ → ℕ
rot x k = bit_or (u32 (x * 2 ^ k)) (x / 2 ^ (32 - k))

-- One line of `fp_jhash_final`: `x ^= y; x -= fp_rot(y, k)`.
mix : ℕ → ℕ → ℕ → ℕ
unfolding rot
mix x y k = sub32 (bit_xor x y) (rot y k)

jhash_final : ℕ → ℕ → ℕ → ℕ
unfolding mix
jhash_final a b c =
    let c1 = mix c b 14 in
    let a1 = mix a c1 11 in
    let b1 = mix b a1 25 in
    let c2 = mix c1 b1 16 in let a2 = mix a1 c2 4 in let b2 = mix b1 a2 14 in mix c2 b2 24

jhash_nwords : ℕ → ℕ → ℕ → ℕ → ℕ
unfolding jhash_final
jhash_nwords a b c initval = jhash_final (add32 a initval) (add32 b initval) (add32 c initval)

unfoldable pub jhash_3words : ℕ → ℕ → ℕ → ℕ → ℕ
unfolding jhash_nwords
jhash_3words a b c initval = jhash_nwords a b c (u32 (initval + 0xdeadbeef + 12))

unfoldable pub jhash_1word : ℕ → ℕ → ℕ
unfolding jhash_nwords
jhash_1word a initval = jhash_nwords a 0 0 (u32 (initval + 0xdeadbeef + 4))

abbrev pub byte_at : List ℕ → ℕ → ℕ
byte_at bytes i = get_or bytes i 0

-- `*p16` and `*p32`
abbrev pub half_at : List ℕ → ℕ → ℕ
half_at bytes i = byte_at bytes i + byte_at bytes (i + 1) * 2 ^ 8

abbrev word_at : List ℕ → ℕ → ℕ
word_at bytes i = half_at bytes i + half_at bytes (i + 2) * 2 ^ 16

-- `for (i = 0; i < data_len / 4; i++) sum += *p32++`
csum_words : ℕ → List ℕ → ℕ → ℕ → ℕ
csum_words zero bytes i sum = sum
csum_words (suc left) bytes i sum = csum_words left bytes (i + 4) (add64 sum (word_at bytes i))

-- The `switch` on what is left, with its cases that fall through.
csum_last : List ℕ → ℕ → ℕ → ℕ → ℕ
csum_last bytes i left sum =
    let one = add64 sum (byte_at bytes i) in
    let two = add64 (add64 sum (byte_at bytes (i + 1) * 2 ^ 8)) (byte_at bytes i) in
    let three =
      add64 (add64 (add64 sum (byte_at bytes (i + 2) * 2 ^ 16)) (byte_at bytes (i + 1) * 2 ^ 8))
        (byte_at bytes i) in
    if left % 4 == 3
    then three
    else if left % 4 == 2
    then two
    else if left % 4 == 1
    then one
    else sum

-- The two folds at the end of `fp_csum_partial`.
csum_end : ℕ → ℕ
csum_end sum = let once = add64 (u32 sum) (sum / 2 ^ 32) in add32 (u32 once) (u32 (once / 2 ^ 32))

-- The bytes from offset `i` on, whose address is even: a half word first if it is not a multiple
-- of 4.
csum_even : ℕ → List ℕ → ℕ → ℕ → ℕ → ℕ
unfolding csum_words csum_last
csum_even addr bytes i len sum =
    let odd_half = addr / 2 % 2 == 1 in
    let i' = if odd_half then i + 2 else i in
    let len' = if odd_half then len - 2 else len in
    let sum' = if odd_half then add64 sum (half_at bytes i) else sum in
    csum_last bytes (i' + 4 * (len' / 4)) len' (csum_words (len' / 4) bytes i' sum')

-- `addr` is the address of the data.
unfoldable pub csum_partial : ℕ → List ℕ → ℕ → ℕ → ℕ
unfolding csum_even csum_last csum_end
csum_partial addr bytes len init =
    let flipped = csum_even (addr + 1) bytes 1 (len - 1) (add64 init (byte_at bytes 0 * 2 ^ 8)) in
    if ltb len 4
    then csum_end (csum_last bytes 0 len init)
    else if addr % 2 == 1
    then csum_end (flipped * 2 ^ 8 % 2 ^ 64)
    else csum_end (csum_even addr bytes 0 len init)

fold : ℕ → ℕ
fold sum64 =
    let once = add64 (u32 sum64) (sum64 / 2 ^ 32) in
    let sum32 = u32 (once + once / 2 ^ 32) in
    let half = u32 (u16 sum32 + sum32 / 2 ^ 16) in 2 ^ 16 - 1 - u16 (u16 half + half / 2 ^ 16)

unfoldable pub csum_tcpudp_magic : ℕ → ℕ → ℕ → ℕ → ℕ → ℕ
unfolding fold
csum_tcpudp_magic saddr daddr len proto sum32 =
    fold (add64 sum32 (u32 (saddr + daddr + (u16 len + proto) * 2 ^ 8)))

-- IPPROTO_FASTPASS is 222. The addresses of the hosts are not part of the sum.
unfoldable pub fastpass_checksum : ℕ → List ℕ → ℕ → ℕ → ℕ → ℕ
fastpass_checksum addr pkt len seqno ack_seq =
    let seq_hash = jhash_3words (u32 seqno) (seqno / 2 ^ 32) (u32 ack_seq) (ack_seq / 2 ^ 32) in
    csum_tcpudp_magic 0 0 len 222 (csum_partial addr pkt len seq_hash)

unfoldable pub base_seqno_from_timestamp : ℕ → ℕ
base_seqno_from_timestamp reset_time =
    let time_hash = jhash_1word (u32 reset_time) (reset_time / 2 ^ 32) in
    add64 (add64 reset_time time_hash) (time_hash * 2 ^ 32)
