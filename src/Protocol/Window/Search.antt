-- ===== src/Protocol/Window/Search.antt =====
-- Looking for the last mark at or before a number.
use fastpass.Base.{
  ℕ, ◌+◌, ◌-◌, ◌*◌, ◌/◌, ◌%◌, ◌^◌, ◌≤◌, ◌<◌, bit_and, Bool, true, false, not, ◌&&◌, Option, none,
  some, ltb, ◌==◌, ◌≡◌, ◌≢◌, refl, sym, ◌∙◌, ap, arith, Bool-cases, inl, inr, sub64,
}
use fastpass.Base.Bits.{
  bit, bit-bit_and, bit-shl, bit-shl_below, bit-shr, bit-mod, bit-zero, bit_past, bit_and-lt_right,
  bit-complement, bit-pow,
}
use fastpass.Base.Bits.Scan.{
  lowest, highest, lowest-lt, bit-lowest, bit_below-lowest, highest-lt, bit-highest,
  bit_above-highest,
}
use fastpass.Protocol.InWindow.{time_before_eq64}
use fastpass.Protocol.Window.{Window, word_at, word_sub, wnd_at_or_before}
use fastpass.Protocol.Window.Shows.{Shows, InRing, word_lem, offset_lem, ring_of, back_lem}

-- What a search for the last mark at or before `n` should return: how far before `n` it is.
abbrev pub IsLast : (ℕ → Bool) → ℕ → Option ℕ → Type 0
IsLast marks n none = (m : ℕ) → m ≤ n → marks m ≡ false
IsLast marks n (some gap) =
    (gap ≤ n) × (marks (n - gap) ≡ true) × ((m : ℕ) → n - gap < m → m ≤ n → marks m ≡ false)

module _ (w : Window) (head : ℕ) (marks : ℕ → Bool) (sh : Shows w head marks) where
  -- A mark is a bit of its word.
  pub mark_bit : (n : ℕ) → InRing head (n / 64) → marks n ≡ bit (word_at w (n / 64 % 4)) (n % 64)
  mark_bit n r = ap marks (omega arith) ∙ sym (sh.bits (n / 64) (n % 64) r (omega arith))

  -- No number is marked whose word the summary leaves out.
  pub quiet :
      (n : ℕ) → n / 64 ≤ head / 64 → bit w.summary (head / 64 - n / 64) ≡ false → marks n ≡ false
  quiet n h e = elim (Bool-cases (ltb (head / 64) (n / 64 + 4))) [
    | inl near ↦
        let r : InRing head (n / 64) = record { le = h; near = ground arith } in
        let zero_word : word_at w (n / 64 % 4) ≡ 0 = ground (arith, sh.summary (n / 64) r) in
        mark_bit n r ∙ ap (λ x. bit x (n % 64)) zero_word ∙ bit-zero (n % 64)
    | inr far ↦ ground (arith, sh.inside n)
  ]

  module _ (n : ℕ) (le : n ≤ head) (near : head < n + 192) where
    ring : InRing head (n / 64)
    ring = ring_of head n sh.low le near

    abbrev own : ℕ
    own = word_at w (n / 64 % 4)

    -- The word of `n` with its bit in the top.
    abbrev first : ℕ
    first = own * 2 ^ (63 - n % 64) % 2 ^ 64

    bit-first : (d : ℕ) → d ≤ n % 64 → bit first (63 - d) ≡ marks (n - d)
    bit-first d h =
        bit-mod 64 (own * 2 ^ (63 - n % 64)) (63 - d) (omega arith)
        ∙ ap (bit (own * 2 ^ (63 - n % 64))) {x = 63 - d} {y = 63 - n % 64 + (n % 64 - d)}
            (omega arith)
        ∙ bit-shl (63 - n % 64) own (n % 64 - d)
        ∙ sh.bits (n / 64) (n % 64 - d) ring (omega arith)
        ∙ ap marks (omega arith)

    bit-first_past : (d : ℕ) → n % 64 < d → d < 64 → bit first (63 - d) ≡ false
    bit-first_past d h p =
        bit-mod 64 (own * 2 ^ (63 - n % 64)) (63 - d) (omega arith)
        ∙ bit-shl_below (63 - n % 64) own (63 - d) (omega arith)

    -- The highest bit of `first` is the last mark in the word of `n`.
    found_at :
        (h : ℕ)
        → h < 64
        → bit first h ≡ true
        → ((i : ℕ) → h < i → bit first i ≡ false)
        → IsLast marks n (some (63 - h))
    found_at h p top above =
        let back : 63 - (63 - h) ≡ h = omega arith in
        let le' : 63 - h ≤ n % 64 = ground (arith, bit-first_past (63 - h), ap (bit first) back) in
        (
          omega arith,
          sym (bit-first (63 - h) le') ∙ ap (bit first) back ∙ top,
          λ m l u.
              ap marks {x = m} {y = n - (n - m)} (omega arith)
              ∙ sym (bit-first (n - m) (omega arith))
              ∙ above (63 - (n - m)) (omega arith),
        )

    found_first : first ≢ 0 → IsLast marks n (some (63 - highest 64 first))
    found_first ne =
        found_at (highest 64 first) (highest-lt 64 first (omega arith) (omega arith))
          (bit-highest 64 first ne (omega arith))
          (λ i h. bit_above-highest 64 first i (omega arith) h)

    none_in_own : first ≡ 0 → (m : ℕ) → m ≤ n → m / 64 ≡ n / 64 → marks m ≡ false
    none_in_own zero_first m h same =
        ap marks {x = m} {y = n - (n - m)} (omega arith)
        ∙ sym (bit-first (n - m) (omega arith))
        ∙ ap (λ x. bit x (63 - (n - m))) zero_first
        ∙ bit-zero (63 - (n - m))

    abbrev place : ℕ
    place = head / 64 - n / 64

    -- The summary of the words before that of `n`, the closest in bit 1.
    abbrev before : ℕ
    before = bit_and (w.summary / 2 ^ place) (2 ^ 64 - 1 - 1)

    bit-before : (k : ℕ) → k < 64 → bit before k ≡ (bit w.summary (place + k) && not (k == 0))
    bit-before k h =
        bit-bit_and (w.summary / 2 ^ place) (2 ^ 64 - 1 - 1) k
        ∙ ground
            (arith, bit-shr place w.summary k, bit-complement 64 1 k (omega arith) h, bit-pow 0 k)

    -- A word before that of `n` holds no mark if its bit is clear.
    quiet_before :
        (m : ℕ) → m / 64 < n / 64 → bit before (n / 64 - m / 64) ≡ false → marks m ≡ false
    quiet_before m h e = elim (Bool-cases (ltb (n / 64) (m / 64 + 4))) [
      | inl close ↦ quiet m (omega (arith, le)) (
          ap (bit w.summary) {x = head / 64 - m / 64} {y = place + (n / 64 - m / 64)}
            (omega (arith, le))
          ∙ ground (arith, bit-before (n / 64 - m / 64)))
      | inr far ↦ ground (arith, sh.inside m)
    ]

    none-before : first ≡ 0 → before ≡ 0 → IsLast marks n none
    none-before zero_first zero_before m h = elim (Bool-cases (m / 64 == n / 64)) [
      | inl e ↦ none_in_own zero_first m h (ground arith)
      | inr e ↦
          quiet_before m (ground arith)
            (ap (λ x. bit x (n / 64 - m / 64)) zero_before ∙ bit-zero (n / 64 - m / 64))
    ]

    -- The closest word with a mark, `back` words before that of `n`.
    module _ (back : ℕ) (bl : back < 64) (bt : bit before back ≡ true) where
      in_summary : bit w.summary (place + back) ≡ true
      in_summary = ground (arith, bit-before back bl)

      back_pos : 0 < back
      back_pos = ground (arith, bit-before back bl)

      back-lt : place + back < 4
      back-lt = ground (arith, bit_past 4 w.summary (place + back) sh.summary_fits, in_summary)

      ring_back : InRing head (n / 64 - back)
      ring_back = record {
        le = omega (arith, ring.le);
        near = omega (arith, back-lt, ring.le, sh.low);
      }

      word_back : word_at w ((n / 64 - back) % 4) ≢ 0
      word_back =
          let e : bit w.summary (head / 64 - (n / 64 - back)) ≡ true =
            ap (bit w.summary) {x = head / 64 - (n / 64 - back)} {y = place + back}
              (omega (arith, back-lt, ring.le, sh.low))
            ∙ in_summary in
          ground (arith, sh.summary (n / 64 - back) ring_back)

      found_back :
          first ≡ 0
          → ((k : ℕ) → k < back → bit before k ≡ false)
          → (h : ℕ) → h < 64
          → bit (word_at w ((n / 64 - back) % 4)) h ≡ true
          → ((i : ℕ) → h < i → bit (word_at w ((n / 64 - back) % 4)) i ≡ false)
          → IsLast marks n (some (64 * back + n % 64 - h))
      found_back zero_first below h hl top above =
          let word_le : back < n / 64 = omega (arith, back-lt, ring.le, sh.low) in
          (
            omega arith,
            ap marks {x = n - (64 * back + n % 64 - h)} {y = 64 * (n / 64 - back) + h}
                  (omega (arith, back_pos))
                ∙ sym (sh.bits (n / 64 - back) h ring_back hl)
                ∙ top,
            λ m l u. elim (Bool-cases (m / 64 == n / 64)) [
              | inl e ↦ none_in_own zero_first m u (ground arith)
              | inr e ↦ elim (Bool-cases (ltb (n / 64 - back) (m / 64))) [
                | inl k ↦ quiet_before m (ground arith) (below (n / 64 - m / 64) (ground arith))
                | inr k ↦
                    let same : m / 64 ≡ n / 64 - back = ground (arith, back_pos) in
                    ap marks {x = m} {y = 64 * (n / 64 - back) + m % 64} (omega arith)
                    ∙ sym (sh.bits (n / 64 - back) (m % 64) ring_back (omega arith))
                    ∙ above (m % 64) (omega (arith, back_pos))
              ]
            ],
          )

    abbrev closest : ℕ
    closest = lowest 64 before

    abbrev closest_word : ℕ
    closest_word = word_at w ((n / 64 - closest) % 4)

    before-lt : before < 2 ^ 64
    before-lt = bit_and-lt_right 64 (w.summary / 2 ^ place) (2 ^ 64 - 1 - 1) (omega arith)

    found_before :
        first ≡ 0
        → before ≢ 0
        → IsLast marks n (some (64 * closest + n % 64 - highest 64 closest_word))
    found_before zero_first ne =
        let bl = lowest-lt 64 before ne before-lt in
        let bt = bit-lowest 64 before ne before-lt in
        let word_fits = sh.fits ((n / 64 - closest) % 4) in
        found_back closest bl bt zero_first (bit_below-lowest 64 before) (highest 64 closest_word)
          (highest-lt 64 closest_word (omega arith) word_fits)
          (bit-highest 64 closest_word (word_back closest bl bt) word_fits)
          (λ i h. bit_above-highest 64 closest_word i word_fits h)

    offset_small : (63 - n % 64) % 64 ≡ 63 - n % 64
    offset_small = omega arith

    place_small : place % 64 ≡ place
    place_small = omega (arith, ring.le, ring.near)

    closest_lem : before ≢ 0 → word_sub (n / 64 % 4) closest ≡ (n / 64 - closest) % 4
    closest_lem ne =
        let bl = lowest-lt 64 before ne before-lt in
        let lt = back-lt closest bl (bit-lowest 64 before ne before-lt) in
        omega (arith, lt, ring.le, sh.low)

    -- The branches of the code that a number of the window can take.
    in_window : IsLast marks n (wnd_at_or_before w n)
    unfolding wnd_at_or_before
    in_window =
        let inside_window : time_before_eq64 n (sub64 w.head 192) ≡ false =
          ground (arith, sh.word) in
        rw inside_window (
          rw (word_lem n) (
            rw (offset_lem n) (
              rw (back_lem w head marks sh (n / 64) ring) (
                rw offset_small (
                  rw place_small (elim (Bool-cases (first == 0)) [
                    | inr e ↦ rw e (found_first (ground arith))
                    | inl e ↦ elim (Bool-cases (before == 0)) [
                      | inl e' ↦ rw e (rw e' (none-before (ground arith) (ground arith)))
                      | inr e' ↦ rw e (
                          rw e' (
                            rw (closest_lem (ground arith))
                              (found_before (ground arith) (ground arith))))
                    ]
                  ]))))))

  out : (n : ℕ) → n ≤ head → head < n + 2 ^ 62 → n + 192 ≤ head → wnd_at_or_before w n ≡ none
  unfolding wnd_at_or_before
  out n le near far =
      let outside : time_before_eq64 n (sub64 w.head 192) ≡ true = ground (arith, sh.word) in
      rw outside refl

  -- In a window that shows a set of numbers, the search for the last mark at or before a number
  -- that is not after the head, nor 2 ^ 62 or more before it, says how far back the last mark is,
  -- or that there is none.
  pub wnd_at_or_before_lem :
      (n : ℕ) → n ≤ head → head < n + 2 ^ 62 → IsLast marks n (wnd_at_or_before w n)
  wnd_at_or_before_lem n le near = elim (Bool-cases (ltb head (n + 192))) [
    | inl e ↦ in_window n le (ground arith)
    | inr e ↦ rw (out n le near (ground arith)) (λ m h. ground (arith, sh.inside m))
  ]
