-- ===== src/Protocol/InWindow/Tracks.antt =====
-- The window of received numbers as a receiver that remembers every number it accepted.
use fastpass.Base.{
  ℕ, ◌+◌, ◌-◌, ◌/◌, ◌%◌, ◌^◌, ◌≤◌, ◌<◌, bit_and, bit_or, Bool, true, false, not, ◌&&◌, ◌||◌, ltb,
  leb, Bool-cases, leb→le, inl, inr, ◌==◌, ◌≡◌, refl, sym, ◌∙◌, ap, arith, sub64, add64,
}
use native.Mathlib.Nat.{div-le_self}
use fastpass.Base.Bits.{bit, bit-bit_or, bit-pow, bit-shr, bit_or-lt, bit_past, pow-lt}
use fastpass.Base.Bits.Scan.{test_bit}
use fastpass.Protocol.InWindow.{
  Inbound, update_inwnd, at_most_once_may_accept, time_after64, time_after_eq64, time_before_eq64,
  inwnd_bit,
}

-- The numbers that the sender counts do not wrap; the code sees them modulo 2 ^ 64. `seen` are
-- those that were accepted; those 64 or more before the head have no place in the window.
pub record Tracks (conn : Inbound) (head : ℕ) (seen : ℕ → Bool) : Type 0 where
  pub room : 64 ≤ head
  pub word : conn.in_max_seqno ≡ head % 2 ^ 64
  pub fits : conn.inwnd < 2 ^ 64
  pub marks : (k : ℕ) → k < 64 → bit conn.inwnd (63 - k) ≡ seen (head - k)
  pub past : (n : ℕ) → head < n → seen n ≡ false

-- Whether an ideal receiver, which remembers what it saw, takes the number.
abbrev pub takes : ℕ → (ℕ → Bool) → ℕ → Bool
takes head seen n = ltb head n || (ltb head (n + 64) && not (seen n))

abbrev pub with_seen : (ℕ → Bool) → ℕ → ℕ → Bool
with_seen seen n m = seen m || (m == n)

-- Close enough for a comparison modulo 2 ^ 64.
abbrev pub Near : ℕ → ℕ → Type 0
Near head n = (n < head + 2 ^ 62) × (head < n + 2 ^ 62)

after_lem : (head n : ℕ) → Near head n → time_after64 (n % 2 ^ 64) (head % 2 ^ 64) ≡ ltb head n
after_lem head n (h, k) = ground arith

after_eq_lem :
    (head n : ℕ)
    → Near head n
    → time_after_eq64 (n % 2 ^ 64) (add64 (head % 2 ^ 64) 64) ≡ leb (head + 64) n
after_eq_lem head n (h, k) = ground arith

before_eq_lem :
    (head n : ℕ)
    → Near head n
    → 64 ≤ head
    → time_before_eq64 (n % 2 ^ 64) (sub64 (head % 2 ^ 64) 64) ≡ leb (n + 64) head
before_eq_lem head n (h, k) r = ground arith

module _ (conn : Inbound) (head : ℕ) (seen : ℕ → Bool) (tr : Tracks conn head seen) where
  at_head : (m k : ℕ) → m ≡ head - k → k < 64 → bit conn.inwnd (63 - k) ≡ seen m
  at_head m k e h = tr.marks k h ∙ ap seen (sym e)

  shift : (n : ℕ) → head < n → n < head + 64 → sub64 (n % 2 ^ 64) conn.in_max_seqno % 64 ≡ n - head
  shift n h k = omega (arith, tr.word)

  index :
      (n : ℕ)
      → n ≤ head
      → head < n + 64
      → sub64 63 (sub64 conn.in_max_seqno (n % 2 ^ 64)) % 64 ≡ 63 - (head - n)
  index n h k = omega (arith, tr.word)

  -- The code's test of the bit of a number in the window says whether it was seen.
  seen_bit :
      (n : ℕ)
      → n ≤ head
      → head < n + 64
      → not (bit_and conn.inwnd (inwnd_bit conn.in_max_seqno (n % 2 ^ 64)) == 0) ≡ seen n
  seen_bit n h k =
      ap (λ j. not (bit_and conn.inwnd (2 ^ j) == 0)) (index n h k)
      ∙ test_bit conn.inwnd (63 - (head - n))
      ∙ at_head n (head - n) (omega arith) (omega arith)

  -- While the number is less than 2 ^ 62 from the head, a packet is refused exactly if an ideal
  -- receiver with unbounded numbers refuses it.
  pub may_accept_lem :
      (n : ℕ) → Near head n → at_most_once_may_accept conn (n % 2 ^ 64) ≡ not (takes head seen n)
  unfolding at_most_once_may_accept
  may_accept_lem n near =
      ground (arith, after_lem head n near, before_eq_lem head n near tr.room, tr.word, seen_bit n)

  pub jumped :
      (n : ℕ)
      → Near head n
      → head + 64 ≤ n
      → update_inwnd conn (n % 2 ^ 64)
        ≡ (false, record { in_max_seqno = n % 2 ^ 64; inwnd = 2 ^ 63 })
  unfolding update_inwnd
  jumped n near far = ground (arith, after_eq_lem head n near, tr.word)

  pub advanced :
      (n : ℕ)
      → Near head n
      → head < n
      → n < head + 64
      → update_inwnd conn (n % 2 ^ 64) ≡ (
        false,
        record { in_max_seqno = n % 2 ^ 64; inwnd = bit_or (conn.inwnd / 2 ^ (n - head)) (2 ^ 63) },
      )
  unfolding update_inwnd
  advanced n near h k = ground (
    arith,
    after_eq_lem head n near,
    after_lem head n near,
    tr.word,
    ap (λ j. bit_or (conn.inwnd / 2 ^ j) (2 ^ 63)) (shift n h k),
  )

  pub filled :
      (n : ℕ)
      → Near head n
      → n ≤ head
      → head < n + 64
      → seen n ≡ false
      → update_inwnd conn (n % 2 ^ 64)
        ≡ (false, record conn { inwnd = bit_or conn.inwnd (2 ^ (63 - (head - n))) })
  unfolding update_inwnd
  filled n near h k new = ground (
    arith,
    after_eq_lem head n near,
    after_lem head n near,
    before_eq_lem head n near tr.room,
    tr.word,
    seen_bit n h k,
    ap (λ j. bit_or conn.inwnd (2 ^ j)) (index n h k),
  )

  -- What is refused leaves the window as it was.
  pub refused :
      (n : ℕ)
      → Near head n
      → takes head seen n ≡ false
      → update_inwnd conn (n % 2 ^ 64) ≡ (true, conn)
  unfolding update_inwnd
  refused n near h = ground (
    arith,
    after_eq_lem head n near,
    after_lem head n near,
    before_eq_lem head n near tr.room,
    tr.word,
    seen_bit n,
  )

-- The three ways in which a number is accepted keep the window right.
module _ (conn : Inbound) (head : ℕ) (seen : ℕ → Bool) (tr : Tracks conn head seen) (n : ℕ) where
  pub jumped-Tracks :
      head + 64 ≤ n
      → Tracks (record { in_max_seqno = n % 2 ^ 64; inwnd = 2 ^ 63 }) n (with_seen seen n)
  jumped-Tracks far = record {
    room = omega arith;
    word = refl;
    fits = omega arith;
    marks = λ k h. bit-pow 63 (63 - k) ∙ ground (arith, tr.past (n - k));
    past = λ m h. ground (arith, tr.past m);
  }

  -- The shift moves every bit to its place under the new head.
  shifted :
      head < n
      → n < head + 64
      → (j : ℕ) → j < 64
      → bit (conn.inwnd / 2 ^ (n - head)) (63 - j) ≡ seen (n - j)
  shifted h k j p = elim (Bool-cases (leb (n - head) j)) [
    | inl e ↦
        bit-shr (n - head) conn.inwnd (63 - j)
        ∙ ap (bit conn.inwnd) (omega (arith, leb→le (n - head) j e))
        ∙ tr.marks (j - (n - head)) (omega arith)
        ∙ ap seen (omega (arith, leb→le (n - head) j e))
    | inr e ↦
        let far : j < n - head = ground arith in
        bit-shr (n - head) conn.inwnd (63 - j)
        ∙ bit_past 64 conn.inwnd (n - head + (63 - j)) tr.fits (omega arith)
        ∙ sym (tr.past (n - j) (omega arith))
  ]

  pub advanced-Tracks :
      head < n
      → n < head + 64
      → Tracks
          (record {
            in_max_seqno = n % 2 ^ 64;
            inwnd = bit_or (conn.inwnd / 2 ^ (n - head)) (2 ^ 63);
          })
          n
          (with_seen seen n)
  advanced-Tracks h k = record {
    room = omega (arith, tr.room);
    word = refl;
    fits =
        bit_or-lt 64 (conn.inwnd / 2 ^ (n - head)) (2 ^ 63)
          (omega (arith, tr.fits, div-le_self conn.inwnd (2 ^ (n - head)))) (omega arith);
    marks = λ j p.
        bit-bit_or (conn.inwnd / 2 ^ (n - head)) (2 ^ 63) (63 - j)
        ∙ ground (arith, shifted h k j p, bit-pow 63 (63 - j));
    past = λ m h'. ground (arith, tr.past m);
  }

  pub filled-Tracks :
      n ≤ head
      → head < n + 64
      → Tracks
          (record conn { inwnd = bit_or conn.inwnd (2 ^ (63 - (head - n))) })
          head
          (with_seen seen n)
  filled-Tracks h k = record {
    room = tr.room;
    word = tr.word;
    fits =
        bit_or-lt 64 conn.inwnd (2 ^ (63 - (head - n))) tr.fits
          (pow-lt 64 (63 - (head - n)) (omega arith));
    marks = λ j p.
        bit-bit_or conn.inwnd (2 ^ (63 - (head - n))) (63 - j)
        ∙ ground (arith, tr.marks j p, bit-pow (63 - (head - n)) (63 - j));
    past = λ m h'. ground (arith, tr.past m);
  }
