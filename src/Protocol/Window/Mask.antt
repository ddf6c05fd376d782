-- ===== src/Protocol/Window/Mask.antt =====
-- Reading 64 marks of the window at once.
use fastpass.Base.{
  ℕ, ◌+◌, ◌-◌, ◌*◌, ◌/◌, ◌%◌, ◌^◌, ◌≤◌, ◌<◌, bit_or, Bool, ◌||◌, ltb, leb, ◌==◌, ◌≡◌, sym, ◌∙◌, ap,
  arith, Bool-cases, inl, inr, ltb→lt, sub64, add64,
}
use fastpass.Base.Bits.{
  bit, bit-bit_or, bit-shl, bit-shl_below, bit-shr, bit-mod, bit-zero, bit_past,
}
use fastpass.Protocol.InWindow.{time_before_eq64}
use fastpass.Protocol.Window.{Window, word_at, word_sub, wnd_get_mask, wnd_get_mask_unsafe}
use fastpass.Protocol.Window.Shows.{Shows, InRing, word_lem, offset_lem}
use fastpass.Protocol.Window.Search.{mark_bit}

module _ (w : Window) (head : ℕ) (marks : ℕ → Bool) (sh : Shows w head marks) where
  -- A slot of the ring that stands for another word than asked for has no mark there: the 64
  -- numbers after the head and those before the window are all zero.
  wide_bit :
      (n : ℕ) → head < n + 256 → n < head + 64 → bit (word_at w (n / 64 % 4)) (n % 64) ≡ marks n
  wide_bit n l u = elim (Bool-cases (ltb (head / 64) (n / 64))) [
    | inl e ↦
        let r : InRing head (n / 64 - 4) = record {
          le = omega arith;
          near = ground (arith, sh.low);
        } in
        let past : n ≤ head + 63 = omega arith in
        ap (λ j. bit (word_at w j) (n % 64)) {x = n / 64 % 4} {y = (n / 64 - 4) % 4}
          (ground (arith, sh.low))
        ∙ sh.bits (n / 64 - 4) (n % 64) r (omega arith)
        ∙ ground (arith, sh.low, sh.inside n, sh.inside (64 * (n / 64 - 4) + n % 64))
    | inr e ↦ elim (Bool-cases (ltb (head / 64) (n / 64 + 4))) [
      | inl e' ↦
          let r : InRing head (n / 64) = record { le = ground arith; near = ground arith } in
          sym (mark_bit w head marks sh n r)
      | inr e' ↦
          let same : head / 64 ≡ n / 64 + 4 = ground arith in
          let r : InRing head (n / 64 + 4) = record { le = omega arith; near = omega arith } in
          ap (λ j. bit (word_at w j) (n % 64)) {x = n / 64 % 4} {y = (n / 64 + 4) % 4} (omega arith)
          ∙ sh.bits (n / 64 + 4) (n % 64) r (omega arith)
          ∙ ground (arith, sh.inside n, sh.inside (64 * (n / 64 + 4) + n % 64))
    ]
  ]

  module _ (pos : ℕ) (near : head < pos + 192) (le : pos < head + 64) where
    abbrev own : ℕ
    own = word_at w (pos / 64 % 4)

    abbrev previous : ℕ
    previous = word_at w ((pos / 64 - 1) % 4)

    -- The number that bit `i` stands for is in the word of `pos`, or in the one before.
    own-bit :
        (n i : ℕ)
        → n + 63 ≡ pos + i
        → i < 64
        → 63 ≤ i + pos % 64
        → bit own (i + pos % 64 - 63) ≡ marks n
    own-bit n i e p h =
        ap (λ j. bit (word_at w (j % 4)) (i + pos % 64 - 63)) {x = pos / 64} {y = n / 64}
          (omega arith)
        ∙ ap (bit (word_at w (n / 64 % 4))) {x = i + pos % 64 - 63} {y = n % 64} (omega arith)
        ∙ wide_bit n (omega (arith, sh.low)) (omega arith)

    previous-bit :
        (n i : ℕ) → n + 63 ≡ pos + i → i + pos % 64 < 63 → bit previous (pos % 64 + 1 + i) ≡ marks n
    previous-bit n i e h =
        ap (λ j. bit (word_at w (j % 4)) (pos % 64 + 1 + i)) {x = pos / 64 - 1} {y = n / 64}
          (omega (arith, sh.low))
        ∙ ap (bit (word_at w (n / 64 % 4))) {x = pos % 64 + 1 + i} {y = n % 64}
            (omega (arith, sh.low))
        ∙ wide_bit n (omega (arith, sh.low)) (omega arith)

    joined : ℕ
    joined = bit_or (own * 2 ^ (63 - pos % 64) % 2 ^ 64) (previous / 2 ^ (pos % 64 + 1))

    bit-joined : (n i : ℕ) → n + 63 ≡ pos + i → i < 64 → bit joined i ≡ marks n
    unfolding joined
    bit-joined n i e p =
        bit-bit_or (own * 2 ^ (63 - pos % 64) % 2 ^ 64) (previous / 2 ^ (pos % 64 + 1)) i
        ∙ ap (λ b. b || bit (previous / 2 ^ (pos % 64 + 1)) i)
            (bit-mod 64 (own * 2 ^ (63 - pos % 64)) i p)
        ∙ elim (Bool-cases (ltb (i + pos % 64) 63)) [
          | inl k ↦
              let k' = ltb→lt (i + pos % 64) 63 k in
              ground (
                arith,
                bit-shl_below (63 - pos % 64) own i,
                bit-shr (pos % 64 + 1) previous i,
                previous-bit n i e k',
              )
          | inr k ↦
              let k' : 63 ≤ i + pos % 64 = ground arith in
              ground (
                arith,
                ap (bit (own * 2 ^ (63 - pos % 64))) {x = i}
                    {y = 63 - pos % 64 + (i + pos % 64 - 63)} (omega arith),
                bit-shl (63 - pos % 64) own (i + pos % 64 - 63),
                own-bit n i e p k',
                bit-shr (pos % 64 + 1) previous i,
                bit_past 64 previous (pos % 64 + 1 + i) (sh.fits ((pos / 64 - 1) % 4)),
              )
        ]

    before_small : (63 - pos % 64) % 64 ≡ 63 - pos % 64
    before_small = omega arith

    previous_slot : word_sub (pos / 64 % 4) 1 ≡ (pos / 64 - 1) % 4
    previous_slot = omega (arith, sh.low)

    unsafe_bit : (n i : ℕ) → n + 63 ≡ pos + i → i < 64 → bit (wnd_get_mask_unsafe w pos) i ≡ marks n
    unfolding wnd_get_mask_unsafe joined
    unsafe_bit n i e p = rw (word_lem pos) (
        rw (offset_lem pos) (elim (Bool-cases ((pos % 64) == 63)) [
          | inl k ↦ rw k (
              ap (bit own) {x = i} {y = i + pos % 64 - 63} (ground arith)
              ∙ own-bit n i e p (ground arith))
          | inr k ↦
              let small : (pos % 64 + 1) % 64 ≡ pos % 64 + 1 = ground arith in
              rw k (rw before_small (rw small (rw previous_slot (bit-joined n i e p))))
        ]))

  -- Bit `i` of the mask at a number less than 2 ^ 62 from the head says whether the number 63 - i
  -- before it is marked, in a window that shows a set of numbers; outside the window it is 0.
  pub wnd_get_mask_lem :
      (pos : ℕ)
      → pos < head + 2 ^ 62
      → head < pos + 2 ^ 62
      → (n i : ℕ) → n + 63 ≡ pos + i
      → i < 64
      → bit (wnd_get_mask w pos) i ≡ marks n
  unfolding wnd_get_mask
  wnd_get_mask_lem pos u l n i e p =
      let before : time_before_eq64 pos (sub64 w.head 192) ≡ leb (pos + 192) head =
        ground (arith, sh.word, sh.low, sh.high) in
      let past : time_before_eq64 (add64 w.head 64) pos ≡ leb (head + 64) pos =
        ground (arith, sh.word, sh.low, sh.high) in
      rw before (
        rw past (elim (Bool-cases (leb (pos + 192) head)) [
          | inl k ↦ rw k (bit-zero i ∙ ground (arith, sh.inside n))
          | inr k ↦ elim (Bool-cases (leb (head + 64) pos)) [
            | inl k' ↦ rw k (rw k' (bit-zero i ∙ ground (arith, sh.inside n)))
            | inr k' ↦ rw k (rw k' (unsafe_bit pos (ground arith) (ground arith) n i e p))
          ]
        ]))
