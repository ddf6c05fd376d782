-- ===== src/Protocol/Window/Marks.antt =====
-- Setting and clearing one mark of the window.
use fastpass.Base.{
  ℕ, ◌+◌, ◌-◌, ◌*◌, ◌/◌, ◌%◌, ◌^◌, ◌≤◌, ◌<◌, bit_or, Bool, true, false, not, ◌&&◌, ◌==◌,
  if◌then◌else◌, ◌≡◌, ◌≢◌, ◌∙◌, ap, arith, if_both,
}
use fastpass.Base.Bits.{bit, bit-bit_or, bit-pow, bit_or-lt, bit_and-lt, pow-lt}
use fastpass.Base.Bits.Scan.{ne_zero_of_bit}
use fastpass.Base.Bits.OneBit.{bit-clear}
use fastpass.Base.Count.{without, card-with, card-without, card-le}
use fastpass.Protocol.InWindow.Tracks.{with_seen}
use fastpass.Protocol.Window.{Window, word_at, wnd_mark, wnd_clear, clear_bit}
use fastpass.Protocol.Window.Shows.{
  Shows, InRing, word_lem, offset_lem, ring_of, back_lem, put-Shows,
}

pub clear_bit_lem :
    (x k j : ℕ) → x < 2 ^ 64 → k < 64 → bit (clear_bit x k) j ≡ (bit x j && not (j == k))
clear_bit_lem = bit-clear

abbrev own_word : Window → ℕ → ℕ
own_word w n = word_at w (n / 64 % 4)

abbrev new_word : Window → ℕ → ℕ
new_word w n = bit_or (own_word w n) (2 ^ (n % 64))

abbrev new_summary : Window → ℕ → ℕ → ℕ
new_summary w head n = bit_or w.summary (2 ^ (head / 64 - n / 64))

module _ (w : Window) (head : ℕ) (marks : ℕ → Bool) (sh : Shows w head marks) where
  pub num-le : w.num_marked ≤ 192
  num-le =
      omega
        (arith, sh.num, card-le marks (head - 191) (head + 1) λ m h. ground (arith, sh.inside m))

  module _ (n : ℕ) (le : n ≤ head) (near : head < n + 192) where
    ring : InRing head (n / 64)
    ring = ring_of head n sh.low le near

    own_bits : (i : ℕ) → i < 64 → bit (own_word w n) i ≡ marks (64 * (n / 64) + i)
    own_bits i p = sh.bits (n / 64) i ring p

    others : (m i : ℕ) → m ≢ n / 64 → i < 64 → (64 * m + i == n) ≡ false
    others m i ne p = ground arith

    at_n : bit (own_word w n) (n % 64) ≡ marks n
    at_n = own_bits (n % 64) (omega arith) ∙ ap marks (omega arith)

    summary_place : head / 64 - n / 64 < 4
    summary_place = omega (arith, ring.le, ring.near)

    new_own : bit (new_summary w head n) (head / 64 - n / 64) ≡ not (new_word w n == 0)
    new_own =
        bit-bit_or w.summary (2 ^ (head / 64 - n / 64)) (head / 64 - n / 64)
        ∙ ground (
          arith,
          bit-pow (head / 64 - n / 64) (head / 64 - n / 64),
          ne_zero_of_bit (new_word w n) (n % 64),
          bit-bit_or (own_word w n) (2 ^ (n % 64)) (n % 64),
          bit-pow (n % 64) (n % 64),
        )

    -- In a window that shows a set of numbers, marking one of the last 192 numbers up to the head
    -- that is not in the set gives a window that shows the set with it.
    pub wnd_mark-Shows : marks n ≡ false → Shows (wnd_mark w n) head (with_seen marks n)
    unfolding wnd_mark
    wnd_mark-Shows new = rw (word_lem n) (
        rw (offset_lem n) (
          rw (back_lem w head marks sh (n / 64) ring) (
            put-Shows w head marks (with_seen marks n) sh (n / 64) (new_word w n)
              (new_summary w head n) ((w.num_marked + 1) % 2 ^ 32) ring
              (bit_or-lt 64 (own_word w n) (2 ^ (n % 64)) (sh.fits (n / 64 % 4))
                (pow-lt 64 (n % 64) (omega arith)))
              (λ i p.
                bit-bit_or (own_word w n) (2 ^ (n % 64)) i
                ∙ ground (arith, own_bits i p, bit-pow (n % 64) i))
              (λ m i ne p. ground (arith, others m i ne p))
              (bit_or-lt 4 w.summary (2 ^ (head / 64 - n / 64)) sh.summary_fits
                (pow-lt 4 (head / 64 - n / 64) summary_place))
              new_own
              (λ j ne.
                bit-bit_or w.summary (2 ^ (head / 64 - n / 64)) j
                ∙ ground (arith, bit-pow (head / 64 - n / 64) j))
              (λ m h. ground (arith, sh.inside m))
              (omega (arith, num-le, sh.num, card-with marks n (head + 1) new (omega arith))))))

    left_bits :
        (i : ℕ)
        → i < 64
        → bit (clear_bit (own_word w n) (n % 64)) i ≡ without marks n (64 * (n / 64) + i)
    left_bits i p =
        clear_bit_lem (own_word w n) (n % 64) i (sh.fits (n / 64 % 4)) (omega arith)
        ∙ ground (arith, own_bits i p)

    left_summary : ℕ
    left_summary =
        if clear_bit (own_word w n) (n % 64) == 0
        then clear_bit w.summary (head / 64 - n / 64)
        else w.summary

    summary_cleared :
        (j : ℕ)
        → bit (clear_bit w.summary (head / 64 - n / 64)) j
          ≡ (bit w.summary j && not (j == head / 64 - n / 64))
    summary_cleared j =
        clear_bit_lem w.summary (head / 64 - n / 64) j (omega (arith, sh.summary_fits))
          (omega (arith, summary_place))

    left_own :
        marks n ≡ true
        → bit left_summary (head / 64 - n / 64) ≡ not (clear_bit (own_word w n) (n % 64) == 0)
    unfolding left_summary
    left_own on = ground (
      arith,
      summary_cleared (head / 64 - n / 64),
      sh.summary (n / 64) ring,
      ne_zero_of_bit (own_word w n) (n % 64),
      at_n,
    )

    -- In a window that shows a set of numbers, clearing one of the last 192 numbers up to the head
    -- that is in the set gives a window that shows the set without it.
    pub wnd_clear-Shows : marks n ≡ true → Shows (wnd_clear w n) head (without marks n)
    unfolding wnd_clear left_summary
    wnd_clear-Shows on = rw (word_lem n) (
        rw (offset_lem n) (
          rw (back_lem w head marks sh (n / 64) ring) (
            put-Shows w head marks (without marks n) sh (n / 64) (clear_bit (own_word w n) (n % 64))
              left_summary ((w.num_marked + 2 ^ 32 - 1) % 2 ^ 32) ring
              (bit_and-lt 64 (own_word w n) (2 ^ 64 - 1 - 2 ^ (n % 64)) (sh.fits (n / 64 % 4)))
              left_bits (λ m i ne p. ground (arith, others m i ne p))
              (if_both (λ x. x < 2 ^ 4) (clear_bit (own_word w n) (n % 64) == 0)
                (clear_bit w.summary (head / 64 - n / 64)) w.summary
                (bit_and-lt 4 w.summary (2 ^ 64 - 1 - 2 ^ (head / 64 - n / 64)) sh.summary_fits)
                sh.summary_fits)
              (left_own on) (λ j ne. ground (arith, summary_cleared j))
              (λ m h. ground (arith, sh.inside m))
              (omega (arith, num-le, sh.num, card-without marks n (head + 1) on (omega arith))))))
