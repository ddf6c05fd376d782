-- ===== src/Protocol/Window.antt =====
-- src/protocol/window.h: the window of the last 192 sequence numbers with a mark on some, kept as
-- a ring of four 64-bit words, with a summary of the words that are not zero.
-- An assertion (FASTPASS_BUG_ON) that fails stops the source; what it asserts is a hypothesis here.
pub mod Advance
pub mod After
pub mod Earliest
pub mod Marks
pub mod Mask
pub mod Search
pub mod Shows
mod Tests
use fastpass.Base.{
  ℕ, ◌+◌, ◌-◌, ◌*◌, ◌/◌, ◌%◌, ◌^◌, bit_and, bit_or, Bool, not, List, Option, none, some, get_or,
  set, replicate, leb, ◌==◌, if◌then◌else◌, add64, sub64, shl64, shr64,
}
use fastpass.Base.Bits.{bit}
use fastpass.Base.Bits.Scan.{lowest, highest}
use fastpass.Protocol.InWindow.{time_after64, time_before_eq64}

abbrev pub wnd_words : ℕ
wnd_words = 4

-- FASTPASS_WND_LEN, (1 << 8) - 64
abbrev pub wnd_len : ℕ
wnd_len = 2 ^ 8 - 64

pub record Window : Type 0 where
  pub marked : List ℕ
  pub summary : ℕ
  pub head : ℕ
  pub head_word : ℕ
  pub num_marked : ℕ

-- `tslot & ((1 << 8) - 1)`
abbrev pub wnd_pos : ℕ → ℕ
wnd_pos tslot = tslot % 2 ^ 8

abbrev pub bit_word : ℕ → ℕ
bit_word nr = nr / 64

-- `(a - b) % FASTPASS_WND_WORDS` on 32-bit numbers
abbrev pub word_sub : ℕ → ℕ → ℕ
word_sub a b = (a + 2 ^ 32 - b) % 2 ^ 32 % wnd_words

abbrev pub summary_pos : Window → ℕ → ℕ
summary_pos wnd pos = word_sub wnd.head_word (bit_word pos)

abbrev pub wnd_empty : Window → Bool
wnd_empty wnd = wnd.num_marked == 0

abbrev pub wnd_edge : Window → ℕ
wnd_edge wnd = add64 (sub64 wnd.head wnd_len) 1

abbrev pub wnd_seq_before : Window → ℕ → Bool
wnd_seq_before wnd seqno = time_after64 (wnd_edge wnd) seqno

abbrev pub wnd_seq_after : Window → ℕ → Bool
wnd_seq_after wnd seqno = time_after64 seqno wnd.head

abbrev pub word_at : Window → ℕ → ℕ
word_at wnd i = get_or wnd.marked i 0

unfoldable pub wnd_is_marked : Window → ℕ → Bool
wnd_is_marked wnd seqno = bit (word_at wnd (bit_word (wnd_pos seqno))) (wnd_pos seqno % 64)

unfoldable pub wnd_mark : Window → ℕ → Window
wnd_mark wnd seqno =
    let pos = wnd_pos seqno in
    record wnd {
      marked = set wnd.marked (bit_word pos) (bit_or (word_at wnd (bit_word pos)) (2 ^ (pos % 64)));
      summary = bit_or wnd.summary (2 ^ summary_pos wnd pos);
      num_marked = (wnd.num_marked + 1) % 2 ^ 32;
    }

-- `word & ~(1UL << i)`
abbrev pub clear_bit : ℕ → ℕ → ℕ
clear_bit word i = bit_and word (2 ^ 64 - 1 - 2 ^ i)

unfoldable pub wnd_clear : Window → ℕ → Window
wnd_clear wnd seqno =
    let pos = wnd_pos seqno in
    let word = clear_bit (word_at wnd (bit_word pos)) (pos % 64) in
    record wnd {
      marked = set wnd.marked (bit_word pos) word;
      summary = if word == 0 then clear_bit wnd.summary (summary_pos wnd pos) else wnd.summary;
      num_marked = (wnd.num_marked + 2 ^ 32 - 1) % 2 ^ 32;
    }

-- How far the last mark at or before `seqno` is before it; `none` stands for -1.
unfoldable pub wnd_at_or_before : Window → ℕ → Option ℕ
wnd_at_or_before wnd seqno =
    let pos = wnd_pos seqno in
    let offset = pos % 64 in
    let first = shl64 (word_at wnd (bit_word pos)) (63 - offset) in
    let before = bit_and (shr64 wnd.summary (summary_pos wnd pos)) (2 ^ 64 - 1 - 1) in
    let back = lowest 64 before in
    if time_before_eq64 seqno (sub64 wnd.head wnd_len)
    then none
    else if not (first == 0)
    then some (63 - highest 64 first)
    else if before == 0
    then none
    else some (64 * back + offset - highest 64 (word_at wnd (word_sub (bit_word pos) back)))

unfoldable pub wnd_earliest_marked : Window → ℕ
wnd_earliest_marked wnd =
    let back = highest 64 wnd.summary in
    add64 (sub64 (wnd.head / 64 * 64) (back * 64))
      (lowest 64 (word_at wnd (word_sub wnd.head_word back)))

-- The first mark that is not before `seqno`.
unfoldable pub wnd_at_or_after : Window → ℕ → Option ℕ
wnd_at_or_after wnd seqno =
    let pos = wnd_pos seqno in
    let offset = pos % 64 in
    let first = shr64 (word_at wnd (bit_word pos)) offset in
    let after = bit_and (shl64 wnd.summary (63 - summary_pos wnd pos)) (2 ^ 63 - 1) in
    let forth = 63 - highest 64 after in
    if wnd_seq_after wnd seqno
    then none
    else if wnd_seq_before wnd seqno
    then (if wnd_empty wnd then none else some (wnd_earliest_marked wnd))
    else if not (first == 0)
    then some (add64 seqno (lowest 64 first))
    else if after == 0
    then none
    else some (
        add64 (add64 (sub64 seqno offset) (64 * forth))
          (lowest 64 (word_at wnd ((bit_word pos + forth) % wnd_words))))

unfoldable pub wnd_reset : Window → ℕ → Window
wnd_reset wnd head = record {
  marked = replicate wnd_words 0;
  summary = 0;
  head = head;
  head_word = bit_word (wnd_pos head);
  num_marked = 0;
}

unfoldable pub wnd_advance : Window → ℕ → Window
wnd_advance wnd amount =
    let word_shift = sub64 (bit_word (add64 wnd.head amount)) (bit_word wnd.head) in
    let far = leb wnd_words word_shift in
    record wnd {
      marked = if far then replicate wnd_words 0 else wnd.marked;
      summary = if far then 0 else shl64 wnd.summary word_shift;
      head = add64 wnd.head amount;
      head_word = (wnd.head_word + word_shift) % 2 ^ 64 % wnd_words;
    }

-- The 64 marks that end at `pos`, the last in the top bit.
unfoldable pub wnd_get_mask_unsafe : Window → ℕ → ℕ
wnd_get_mask_unsafe wnd pos =
    let word = bit_word (wnd_pos pos) in
    let offset = wnd_pos pos % 64 in
    if offset == 63
    then word_at wnd word
    else bit_or (shl64 (word_at wnd word) (63 - offset))
        (shr64 (word_at wnd (word_sub word 1)) (offset + 1))

unfoldable pub wnd_get_mask : Window → ℕ → ℕ
wnd_get_mask wnd pos =
    if time_before_eq64 pos (sub64 wnd.head wnd_len)
    then 0
    else if time_before_eq64 (add64 wnd.head 64) pos
    then 0
    else wnd_get_mask_unsafe wnd pos
