-- ===== src/Protocol/Window/After.antt =====
-- Looking for the first mark at or after a number.
use fastpass.Base.{
  ℕ, ◌+◌, ◌-◌, ◌*◌, ◌/◌, ◌%◌, ◌^◌, ◌≤◌, ◌<◌, bit_and, Bool, true, false, Option, none, some, ltb,
  leb, ◌==◌, ◌≡◌, ◌≢◌, sym, ◌∙◌, ap, arith, Bool-cases, inl, inr, leb→le, ltb→lt, sub64, add64,
}
use fastpass.Base.Bits.{
  bit, bit-bit_and, bit-shl, bit-shl_below, bit-shr, bit-mod, bit-zero, bit_past, bit_and-lt_right,
  bit-mask,
}
use fastpass.Base.Bits.Scan.{
  lowest, highest, lowest-lt, bit-lowest, bit_below-lowest, bit-highest, bit_above-highest,
}
use native.Mathlib.Nat.{div-le_self}
use fastpass.Protocol.Window.{
  Window, word_at, wnd_earliest_marked, wnd_at_or_after, wnd_empty, wnd_seq_after, wnd_seq_before,
}
use fastpass.Base.Count.{counted, uncounted}
use fastpass.Protocol.Window.Shows.{Shows, InRing, word_lem, offset_lem, ring_of, back_lem}
use fastpass.Protocol.Window.Search.{quiet}
use fastpass.Protocol.Window.Earliest.{wnd_earliest_marked_lem}

-- What a search for the first mark at or after `n` should return.
abbrev pub IsFirst : (ℕ → Bool) → ℕ → Option ℕ → Type 0
IsFirst marks n none = (m : ℕ) → n ≤ m → marks m ≡ false
IsFirst marks n (some r) = (n ≤ r) × (marks r ≡ true) × ((m : ℕ) → n ≤ m → m < r → marks m ≡ false)

module _ (w : Window) (head : ℕ) (marks : ℕ → Bool) (sh : Shows w head marks) where
  module _ (n : ℕ) (le : n ≤ head) (near : head < n + 192) where
    ring : InRing head (n / 64)
    ring = ring_of head n sh.low le near

    abbrev own : ℕ
    own = word_at w (n / 64 % 4)

    -- The word of `n` with its bit at the bottom.
    abbrev first : ℕ
    first = own / 2 ^ (n % 64)

    bit-first : (d : ℕ) → n % 64 + d < 64 → bit first d ≡ marks (n + d)
    bit-first d h =
        bit-shr (n % 64) own d ∙ sh.bits (n / 64) (n % 64 + d) ring h ∙ ap marks (omega arith)

    bit-first_past : (d : ℕ) → 64 ≤ n % 64 + d → bit first d ≡ false
    bit-first_past d h =
        bit-shr (n % 64) own d ∙ bit_past 64 own (n % 64 + d) (sh.fits (n / 64 % 4)) h

    found_at :
        (d : ℕ)
        → bit first d ≡ true
        → ((i : ℕ) → i < d → bit first i ≡ false)
        → IsFirst marks n (some (n + d))
    found_at d on below =
        let h : n % 64 + d < 64 = ground (arith, bit-first_past d) in
        (
          omega arith,
          sym (bit-first d h) ∙ on,
          λ m l u.
              ap marks {x = m} {y = n + (m - n)} (omega arith)
              ∙ sym (bit-first (m - n) (omega arith))
              ∙ below (m - n) (omega arith),
        )

    first-lt : first < 2 ^ 64
    first-lt = omega (arith, div-le_self own (2 ^ (n % 64)), sh.fits (n / 64 % 4))

    found_first : first ≢ 0 → IsFirst marks n (some (n + lowest 64 first))
    found_first ne =
        found_at (lowest 64 first) (bit-lowest 64 first ne first-lt) (bit_below-lowest 64 first)

    none_in_own : first ≡ 0 → (m : ℕ) → n ≤ m → m / 64 ≡ n / 64 → marks m ≡ false
    none_in_own zero_first m h same =
        ap marks {x = m} {y = n + (m - n)} (omega arith)
        ∙ sym (bit-first (m - n) (omega arith))
        ∙ ap (λ x. bit x (m - n)) zero_first
        ∙ bit-zero (m - n)

    abbrev place : ℕ
    place = head / 64 - n / 64

    -- The summary of the words after that of `n`, the closest in bit 62.
    abbrev after : ℕ
    after = bit_and (w.summary * 2 ^ (63 - place) % 2 ^ 64) (2 ^ 63 - 1)

    place-lt : place < 4
    place-lt = omega (arith, ring.le, ring.near)

    bit-after : (f : ℕ) → 0 < f → f ≤ place → bit after (63 - f) ≡ bit w.summary (place - f)
    bit-after f p h =
        bit-bit_and (w.summary * 2 ^ (63 - place) % 2 ^ 64) (2 ^ 63 - 1) (63 - f)
        ∙ ground (
          arith,
          bit-mask 63 (63 - f),
          bit-mod 64 (w.summary * 2 ^ (63 - place)) (63 - f) (omega arith),
          ap (bit (w.summary * 2 ^ (63 - place))) {x = 63 - f} {y = 63 - place + (place - f)}
              (omega (arith, place-lt)),
          bit-shl (63 - place) w.summary (place - f),
        )

    -- A number in a later word is not marked if the bit of the word is clear.
    quiet_after :
        (m : ℕ)
        → n / 64 < m / 64
        → (m ≤ head → bit after (63 - (m / 64 - n / 64)) ≡ false)
        → marks m ≡ false
    quiet_after m h e = elim (Bool-cases (leb m head)) [
      | inl l ↦
          let le' : m ≤ head = leb→le m head l in
          quiet w head marks sh m (omega arith) (
            ap (bit w.summary) {x = head / 64 - m / 64} {y = place - (m / 64 - n / 64)}
              (omega arith)
            ∙ sym (bit-after (m / 64 - n / 64) (omega arith) (omega arith))
            ∙ e le')
      | inr l ↦ ground (arith, sh.inside m)
    ]

    none-after : first ≡ 0 → after ≡ 0 → IsFirst marks n none
    none-after zero_first zero_after m h = elim (Bool-cases (m / 64 == n / 64)) [
      | inl e ↦ none_in_own zero_first m h (ground arith)
      | inr e ↦ quiet_after m (ground arith) (λ _.
          ap (λ x. bit x (63 - (m / 64 - n / 64))) zero_after ∙ bit-zero (63 - (m / 64 - n / 64)))
    ]

    -- The closest later word with a mark, `forth` words after that of `n`.
    module _ (forth : ℕ) (pos : 0 < forth) (fl : forth ≤ place)
        (on : bit after (63 - forth) ≡ true) where
      ring_forth : InRing head (n / 64 + forth)
      ring_forth = record { le = omega (arith, ring.le); near = omega (arith, ring.near) }

      word_forth : word_at w ((n / 64 + forth) % 4) ≢ 0
      word_forth =
          let e : bit w.summary (head / 64 - (n / 64 + forth)) ≡ true =
            ap (bit w.summary) {x = head / 64 - (n / 64 + forth)} {y = place - forth} (omega arith)
            ∙ sym (bit-after forth pos fl)
            ∙ on in
          ground (arith, sh.summary (n / 64 + forth) ring_forth)

      abbrev later : ℕ
      later = word_at w ((n / 64 + forth) % 4)

      abbrev low : ℕ
      low = lowest 64 later

      low-lt : low < 64
      low-lt = lowest-lt 64 later word_forth (sh.fits ((n / 64 + forth) % 4))

      found_forth :
          first ≡ 0
          → ((f : ℕ) → 0 < f → f < forth → bit after (63 - f) ≡ false)
          → IsFirst marks n (some (64 * (n / 64 + forth) + low))
      found_forth zero_first between = (
        omega arith,
        sym (sh.bits (n / 64 + forth) low ring_forth low-lt)
            ∙ bit-lowest 64 later word_forth (sh.fits ((n / 64 + forth) % 4)),
        λ m l u. elim (Bool-cases (m / 64 == n / 64)) [
          | inl e ↦ none_in_own zero_first m l (ground arith)
          | inr e ↦ elim (Bool-cases (ltb (m / 64) (n / 64 + forth))) [
            | inl k ↦
                quiet_after m (ground arith)
                  (λ _. between (m / 64 - n / 64) (ground arith) (ground arith))
            | inr k ↦
                let same : m / 64 ≡ n / 64 + forth = ground (arith, low-lt) in
                ap marks {x = m} {y = 64 * (n / 64 + forth) + m % 64} (omega arith)
                ∙ sym (sh.bits (n / 64 + forth) (m % 64) ring_forth (omega arith))
                ∙ bit_below-lowest 64 later (m % 64) (omega arith)
          ]
        ],
      )

    after-lt : after < 2 ^ 64
    after-lt = omega (
      arith,
      bit_and-lt_right 63 (w.summary * 2 ^ (63 - place) % 2 ^ 64) (2 ^ 63 - 1) (omega arith),
    )

    abbrev closest : ℕ
    closest = 63 - highest 64 after

    module _ (ne : after ≢ 0) where
      top : bit after (highest 64 after) ≡ true
      top = bit-highest 64 after ne after-lt

      top-lt : highest 64 after < 63
      top-lt = ground (
        arith,
        bit-bit_and (w.summary * 2 ^ (63 - place) % 2 ^ 64) (2 ^ 63 - 1) (highest 64 after),
        bit-mask 63 (highest 64 after),
        top,
      )

      top-le : 63 - place ≤ highest 64 after
      top-le = ground (
        arith,
        bit-bit_and (w.summary * 2 ^ (63 - place) % 2 ^ 64) (2 ^ 63 - 1) (highest 64 after),
        bit-mod 64 (w.summary * 2 ^ (63 - place)) (highest 64 after),
        bit-shl_below (63 - place) w.summary (highest 64 after),
        top,
        top-lt,
      )

      found-after :
          first ≡ 0
          → IsFirst marks n
              (some (64 * (n / 64 + closest) + lowest 64 (word_at w ((n / 64 + closest) % 4))))
      found-after zero_first =
          found_forth closest (omega (arith, top-lt)) (omega (arith, top-le, place-lt))
            (ap (bit after) {x = 63 - closest} {y = highest 64 after} (omega (arith, top-lt)) ∙ top)
            zero_first
            (λ f p h. bit_above-highest 64 after (63 - f) after-lt (omega (arith, top-lt)))

    place_small : (63 - place) % 64 ≡ 63 - place
    place_small = omega arith

    offset_small : n % 64 % 64 ≡ n % 64
    offset_small = omega arith

    found_seqno : first ≢ 0 → add64 n (lowest 64 first) ≡ n + lowest 64 first
    found_seqno ne = omega (arith, lowest-lt 64 first ne first-lt, sh.high, le)

    later_word : after ≢ 0 → (n / 64 % 4 + closest) % 4 ≡ (n / 64 + closest) % 4
    later_word ne = omega arith

    later_seqno :
        (low : ℕ)
        → low < 64
        → after ≢ 0
        → add64 (add64 (sub64 n (n % 64)) (64 * closest)) low ≡ 64 * (n / 64 + closest) + low
    later_seqno low h ne = omega (arith, top-le ne, place-lt, sh.high, le)

    closest_low : after ≢ 0 → lowest 64 (word_at w ((n / 64 + closest) % 4)) < 64
    closest_low ne =
        low-lt closest (omega (arith, top-lt ne)) (omega (arith, top-le ne, place-lt)) (
          ap (bit after) {x = 63 - closest} {y = highest 64 after} (omega (arith, top-lt ne))
          ∙ top ne)

    in_window : IsFirst marks n (wnd_at_or_after w n)
    unfolding wnd_at_or_after
    in_window =
        let not_after : wnd_seq_after w n ≡ false = ground (arith, sh.word, sh.high) in
        let not_before : wnd_seq_before w n ≡ false = ground (arith, sh.word, sh.high, sh.low) in
        rw not_after (
          rw not_before (
            rw (word_lem n) (
              rw (offset_lem n) (
                rw (back_lem w head marks sh (n / 64) ring) (
                  rw offset_small (
                    rw place_small (elim (Bool-cases (first == 0)) [
                      | inr e ↦
                          let ne : first ≢ 0 = ground arith in
                          rw e (rw (found_seqno ne) (found_first ne))
                      | inl e ↦ elim (Bool-cases (after == 0)) [
                        | inl e' ↦ rw e (rw e' (none-after (ground arith) (ground arith)))
                        | inr e' ↦
                            let ne : after ≢ 0 = ground arith in
                            rw e (
                              rw e' (
                                rw (later_word ne) (
                                  rw (later_seqno _ (closest_low ne) ne)
                                    (found-after ne (ground arith)))))
                      ]
                    ])))))))

  past_window : (n : ℕ) → head < n → n < head + 2 ^ 62 → IsFirst marks n (wnd_at_or_after w n)
  unfolding wnd_at_or_after
  past_window n h near =
      let is_after : wnd_seq_after w n ≡ true = ground (arith, sh.word, sh.high) in
      rw is_after (λ m l. ground (arith, sh.inside m))

  before_window :
      (n : ℕ) → n + 192 ≤ head → head < n + 2 ^ 62 → IsFirst marks n (wnd_at_or_after w n)
  unfolding wnd_at_or_after
  before_window n h near =
      let not_after : wnd_seq_after w n ≡ false = ground (arith, sh.word, sh.high) in
      let is_before : wnd_seq_before w n ≡ true = ground (arith, sh.word, sh.high, sh.low) in
      rw not_after (
        rw is_before (elim (Bool-cases (wnd_empty w)) [
          | inl e ↦ rw e (λ m l. elim (Bool-cases (leb m head)) [
            | inl k ↦
                uncounted marks (head + 1) m (ground (arith, sh.num))
                  (omega (arith, leb→le m head k))
            | inr k ↦ ground (arith, sh.inside m)
          ])
          | inr e ↦
              let (m, on) = counted marks (head + 1) (ground (arith, sh.num)) in
              let (is, least) = wnd_earliest_marked_lem w head marks sh m on in
              rw e (omega (arith, sh.inside (wnd_earliest_marked w) is), is, λ k l u. least k u)
        ]))

  -- In a window that shows a set of numbers, the search for the first mark at or after a number
  -- less than 2 ^ 62 from the head returns the least number of the set from there on, or that
  -- there is none.
  pub wnd_at_or_after_lem :
      (n : ℕ) → n < head + 2 ^ 62 → head < n + 2 ^ 62 → IsFirst marks n (wnd_at_or_after w n)
  wnd_at_or_after_lem n near near' = elim (Bool-cases (ltb head n)) [
    | inl e ↦ past_window n (ltb→lt head n e) near
    | inr e ↦ elim (Bool-cases (ltb head (n + 192))) [
      | inl e' ↦ in_window n (ground arith) (ltb→lt head (n + 192) e')
      | inr e' ↦ before_window n (ground arith) near'
    ]
  ]
