-- ===== src/Protocol/Window/Advance.antt =====
-- Moving the head of the window.
use fastpass.Base.{
  ℕ, List, ◌+◌, ◌-◌, ◌*◌, ◌/◌, ◌%◌, ◌^◌, ◌≤◌, ◌<◌, Bool, true, false, not, replicate, leb, ◌==◌,
  ◌≡◌, refl, sym, ◌∙◌, ap, arith, Bool-cases, inl, inr, leb→le, add64, sub64, shl64,
}
use fastpass.Base.Bits.{
  bit, bit-shl, bit-shl_below, bit-mod, bit-zero, bit_ext, lt_of_bits, bit_past,
}
use fastpass.Protocol.Window.{Window, word_at, bit_word, wnd_advance}
use fastpass.Base.Count.{card, card-extend}
use fastpass.Protocol.Window.Shows.{Shows, InRing, zero_word}

module _ (w : Window) (head amount : ℕ) (marks : ℕ → Bool) (sh : Shows w head marks)
    (room : head + amount + 256 < 2 ^ 64)
    (kept : (n : ℕ) → marks n ≡ true → head + amount < n + 192) where
  abbrev shift : ℕ
  shift = sub64 (bit_word (add64 w.head amount)) (bit_word w.head)

  shift_lem : shift ≡ (head + amount) / 64 - head / 64
  shift_lem = omega (arith, sh.word)

  -- A word of old marks that leaves the window, or has not been in it, is zero.
  word_zero :
      (m : ℕ)
      → InRing head m
      → ((i : ℕ) → i < 64 → marks (64 * m + i) ≡ false)
      → word_at w (m % 4) ≡ 0
  word_zero m r none =
      bit_ext 64 (word_at w (m % 4)) 0 (sh.fits (m % 4)) (omega arith)
        λ i p. sh.bits m i r p ∙ none i p ∙ sym (bit-zero i)

  past_head : (n : ℕ) → head < n → marks n ≡ false
  past_head n h = ground (arith, sh.inside n)

  left : (n : ℕ) → n + 192 ≤ head + amount → marks n ≡ false
  left n h = ground (arith, kept n)

  count : w.num_marked ≡ card marks (head + amount + 1)
  count =
      sh.num
      ∙ card-extend marks (head + 1) (head + amount + 1) (omega arith)
          λ m h. past_head m (omega arith)

  old_ring : (m : ℕ) → InRing (head + amount) m → m ≤ head / 64 → InRing head m
  old_ring m r h = record { le = h; near = omega (arith, r.near) }

  -- A word that is used anew held the marks of four words before, which have left the window.
  module _ (m : ℕ) (r : InRing (head + amount) m) (new : head / 64 < m) (close : shift < 4) where
    ring_before : InRing head (m - 4)
    ring_before = record { le = omega (arith, r.le, shift_lem); near = omega (arith, sh.low) }

    reused : word_at w (m % 4) ≡ 0
    reused =
        ap (word_at w) {x = m % 4} {y = (m - 4) % 4} (omega (arith, sh.low))
        ∙ word_zero (m - 4) ring_before
            (λ i p. left (64 * (m - 4) + i) (omega (arith, r.le, sh.low)))

  near_bits :
      shift < 4
      → (m i : ℕ) → InRing (head + amount) m
      → i < 64
      → bit (word_at w (m % 4)) i ≡ marks (64 * m + i)
  near_bits close m i r p = elim (Bool-cases (leb m (head / 64))) [
    | inl e ↦ sh.bits m i (old_ring m r (leb→le m (head / 64) e)) p
    | inr e ↦
        let new : head / 64 < m = ground arith in
        ap (λ x. bit x i) (reused m r new close)
        ∙ bit-zero i
        ∙ sym (past_head (64 * m + i) (omega arith))
  ]

  near_summary :
      shift < 4
      → (m : ℕ) → InRing (head + amount) m
      → bit (shl64 w.summary shift) ((head + amount) / 64 - m) ≡ not (word_at w (m % 4) == 0)
  near_summary close m r =
      ap (λ s. bit (w.summary * 2 ^ s % 2 ^ 64) ((head + amount) / 64 - m)) {x = shift % 64}
        {y = shift} (omega arith)
      ∙ bit-mod 64 (w.summary * 2 ^ shift) ((head + amount) / 64 - m) (omega (arith, r.near))
      ∙ elim (Bool-cases (leb m (head / 64))) [
        | inl e ↦
            let old = leb→le m (head / 64) e in
            ap (bit (w.summary * 2 ^ shift)) {x = (head + amount) / 64 - m}
              {y = shift + (head / 64 - m)} (omega (arith, shift_lem))
            ∙ bit-shl shift w.summary (head / 64 - m)
            ∙ sh.summary m (old_ring m r old)
        | inr e ↦
            let new : head / 64 < m = ground arith in
            bit-shl_below shift w.summary ((head + amount) / 64 - m) (omega (arith, shift_lem))
            ∙ ap (λ x. not (x == 0)) (sym (reused m r new close))
      ]

  -- The bits that leave the summary are those of words that have become zero.
  fallen : (k : ℕ) → k < 4 → 4 ≤ shift + k → bit w.summary k ≡ false
  fallen k h out =
      let r : InRing head (head / 64 - k) = record {
        le = omega arith;
        near = omega (arith, sh.low);
      } in
      ap (bit w.summary) {x = k} {y = head / 64 - (head / 64 - k)} (omega (arith, sh.low))
      ∙ sh.summary (head / 64 - k) r
      ∙ ap (λ x. not (x == 0))
          (word_zero (head / 64 - k) r
            λ i p. left (64 * (head / 64 - k) + i) (omega (arith, shift_lem, sh.low)))

  summary_past : (k : ℕ) → 4 ≤ shift + k → bit w.summary k ≡ false
  summary_past k out = elim (Bool-cases (leb 4 k)) [
    | inl e ↦ bit_past 4 w.summary k sh.summary_fits (leb→le 4 k e)
    | inr e ↦ fallen k (ground arith) out
  ]

  near_fits : shift < 4 → shl64 w.summary shift < 2 ^ 4
  near_fits close = lt_of_bits 64 4 (shl64 w.summary shift) (omega arith) λ i h p.
      ap (λ s. bit (w.summary * 2 ^ s % 2 ^ 64) i) {x = shift % 64} {y = shift} (omega arith)
      ∙ bit-mod 64 (w.summary * 2 ^ shift) i p
      ∙ ap (bit (w.summary * 2 ^ shift)) {x = i} {y = shift + (i - shift)} (omega arith)
      ∙ bit-shl shift w.summary (i - shift)
      ∙ summary_past (i - shift) (omega arith)

  far_none : 4 ≤ shift → (n : ℕ) → marks n ≡ false
  far_none far n = ground (arith, shift_lem, sh.inside n, kept n)

  abbrev moved : List ℕ → ℕ → Window
  moved words summary = record {
    marked = words;
    summary = summary;
    head = add64 w.head amount;
    head_word = (w.head_word + shift) % 2 ^ 64 % 4;
    num_marked = w.num_marked;
  }

  new_head_word : (w.head_word + shift) % 2 ^ 64 % 4 ≡ (head + amount) / 64 % 4
  new_head_word = omega (arith, sh.head_word, shift_lem)

  near_window : shift < 4 → Shows (moved w.marked (shl64 w.summary shift)) (head + amount) marks
  near_window close = record {
    low = omega (arith, sh.low);
    high = room;
    word = omega (arith, sh.word);
    head_word = new_head_word;
    words = sh.words;
    fits = sh.fits;
    bits = near_bits close;
    summary_fits = near_fits close;
    summary = near_summary close;
    inside = λ n e. (omega (arith, sh.inside n e), kept n e);
    num = count;
  }

  far_window : 4 ≤ shift → Shows (moved (replicate 4 0) 0) (head + amount) marks
  far_window far = record {
    low = omega (arith, sh.low);
    high = room;
    word = omega (arith, sh.word);
    head_word = new_head_word;
    words = refl;
    fits = λ i. rw (zero_word i) (omega arith);
    bits = λ m i r p.
        ap (λ x. bit x i) (zero_word (m % 4)) ∙ bit-zero i ∙ sym (far_none far (64 * m + i));
    summary_fits = omega arith;
    summary = λ m r.
        bit-zero ((head + amount) / 64 - m) ∙ ap (λ x. not (x == 0)) (sym (zero_word (m % 4)));
    inside = λ n e. (omega (arith, sh.inside n e), kept n e);
    num = count;
  }

  -- A window that shows a set of numbers still shows it after its head moves forward, if all of
  -- them are among the last 192 up to the new head, and that is at most 2 ^ 64 - 257.
  pub wnd_advance-Shows : Shows (wnd_advance w amount) (head + amount) marks
  unfolding wnd_advance
  wnd_advance-Shows = elim (Bool-cases (leb 4 shift)) [
    | inl e ↦ rw e (far_window (leb→le 4 shift e))
    | inr e ↦ rw e (near_window (ground arith))
  ]
