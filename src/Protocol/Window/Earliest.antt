-- ===== src/Protocol/Window/Earliest.antt =====
-- Looking for the first mark of the window.
use fastpass.Base.{
  ℕ, ◌+◌, ◌-◌, ◌*◌, ◌/◌, ◌%◌, ◌^◌, ◌<◌, Bool, true, false, ◌==◌, ◌≡◌, ◌≢◌, sym, ◌∙◌, ap, arith,
  Bool-cases, inl, inr,
}
use fastpass.Base.Bits.{bit, bit_past}
use fastpass.Base.Bits.Scan.{
  lowest, highest, lowest-lt, bit-lowest, bit_below-lowest, bit-highest, bit_above-highest,
  ne_zero_of_bit,
}
use fastpass.Protocol.Window.{Window, word_at, word_sub, wnd_earliest_marked}
use fastpass.Protocol.Window.Shows.{Shows, InRing, ring_of}
use fastpass.Protocol.Window.Search.{mark_bit, quiet}

module _ (w : Window) (head : ℕ) (marks : ℕ → Bool) (sh : Shows w head marks) where
  ring_of_mark : (n : ℕ) → marks n ≡ true → InRing head (n / 64)
  ring_of_mark n on = let (le, near) = sh.inside n on in ring_of head n sh.low le near

  -- The summary has the bit of the word of every mark.
  summary_of_mark : (n : ℕ) → marks n ≡ true → bit w.summary (head / 64 - n / 64) ≡ true
  summary_of_mark n on =
      let r = ring_of_mark n on in
      ground (
        arith,
        sh.summary (n / 64) r,
        mark_bit w head marks sh n r,
        ne_zero_of_bit (word_at w (n / 64 % 4)) (n % 64),
      )

  -- The word `back` words before the head's, if the summary has its bit.
  module _ (back : ℕ) (on : bit w.summary back ≡ true) where
    back_near : back < 4
    back_near = ground (arith, bit_past 4 w.summary back sh.summary_fits)

    ring_back : InRing head (head / 64 - back)
    ring_back = record { le = omega arith; near = omega (arith, back_near, sh.low) }

    word_back : word_at w ((head / 64 - back) % 4) ≢ 0
    word_back =
        let e : bit w.summary (head / 64 - (head / 64 - back)) ≡ true =
          ap (bit w.summary) {x = head / 64 - (head / 64 - back)} {y = back}
            (omega (arith, back_near, sh.low))
          ∙ on in
        ground (arith, sh.summary (head / 64 - back) ring_back)

  abbrev oldest : ℕ
  oldest = highest 64 w.summary

  abbrev oldest_word : ℕ
  oldest_word = word_at w ((head / 64 - oldest) % 4)

  module _ (n : ℕ) (on : marks n ≡ true) where
    summary_fits : w.summary < 2 ^ 64
    summary_fits = omega (arith, sh.summary_fits)

    oldest_on : bit w.summary oldest ≡ true
    oldest_on =
        bit-highest 64 w.summary
          (ne_zero_of_bit w.summary (head / 64 - n / 64) (summary_of_mark n on)) summary_fits

    oldest_ne : oldest_word ≢ 0
    oldest_ne = word_back oldest oldest_on

    oldest_fits : oldest_word < 2 ^ 64
    oldest_fits = sh.fits ((head / 64 - oldest) % 4)

    abbrev first_mark : ℕ
    first_mark = 64 * (head / 64 - oldest) + lowest 64 oldest_word

    low-lt : lowest 64 oldest_word < 64
    low-lt = lowest-lt 64 oldest_word oldest_ne oldest_fits

    oldest_place : word_sub w.head_word oldest ≡ (head / 64 - oldest) % 4
    oldest_place = omega (arith, sh.head_word, back_near oldest oldest_on, sh.low)

    first_mark_lem : wnd_earliest_marked w ≡ first_mark
    unfolding wnd_earliest_marked
    first_mark_lem =
        rw oldest_place
          (omega (arith, low-lt, back_near oldest oldest_on, sh.low, sh.high, sh.word))

    none_earlier : (m : ℕ) → m < first_mark → marks m ≡ false
    none_earlier m h = elim (Bool-cases (m / 64 == head / 64 - oldest)) [
      | inl e ↦
          let same : m / 64 ≡ head / 64 - oldest = ground arith in
          ap marks {x = m} {y = 64 * (head / 64 - oldest) + m % 64} (omega arith)
          ∙ sym (sh.bits (head / 64 - oldest) (m % 64) (ring_back oldest oldest_on) (omega arith))
          ∙ bit_below-lowest 64 oldest_word (m % 64) (omega arith)
      | inr e ↦
          let before : m / 64 < head / 64 - oldest = ground (arith, low-lt) in
          quiet w head marks sh m (omega arith)
            (bit_above-highest 64 w.summary (head / 64 - m / 64) summary_fits (omega arith))
    ]

    -- If a window shows a set with some number in it, the search for the earliest mark returns the
    -- least number of the set.
    pub wnd_earliest_marked_lem :
        (marks (wnd_earliest_marked w) ≡ true)
        × ((m : ℕ) → m < wnd_earliest_marked w → marks m ≡ false)
    wnd_earliest_marked_lem = rw first_mark_lem (
      sym (sh.bits (head / 64 - oldest) (lowest 64 oldest_word) (ring_back oldest oldest_on) low-lt)
          ∙ bit-lowest 64 oldest_word oldest_ne oldest_fits,
      none_earlier,
    )
