-- ===== src/Protocol/Window/Shows.antt =====
-- The window as a set of marked sequence numbers.
use fastpass.Base.{
  ℕ, ◌+◌, ◌-◌, ◌*◌, ◌/◌, ◌%◌, ◌^◌, ◌≤◌, ◌<◌, Bool, true, false, not, length, get_or, set, replicate,
  ◌==◌, ◌≡◌, ◌≢◌, refl, sym, ◌∙◌, ap, arith, Bool-cases, inl, inr, get_or-replicate_self,
  get_or-set_self, get_or-set_ne, get_or-set_all, length-set,
}
use fastpass.Base.Bits.{bit, bit-zero}
use fastpass.Base.Count.{card, card-none}
use fastpass.Protocol.Window.{
  Window, wnd_pos, bit_word, word_sub, summary_pos, word_at, wnd_is_marked, wnd_reset,
}

-- The words of the ring that hold numbers near the head.
pub record InRing (head m : ℕ) : Type 0 where
  pub le : m ≤ head / 64
  pub near : head / 64 < m + 4

pub record Shows (w : Window) (head : ℕ) (marks : ℕ → Bool) : Type 0 where
  pub low : 256 ≤ head
  pub high : head + 256 < 2 ^ 64
  pub word : w.head ≡ head
  pub head_word : w.head_word ≡ head / 64 % 4
  pub words : length w.marked ≡ 4
  pub fits : (i : ℕ) → word_at w i < 2 ^ 64
  pub bits : (m i : ℕ) → InRing head m → i < 64 → bit (word_at w (m % 4)) i ≡ marks (64 * m + i)
  pub summary_fits : w.summary < 2 ^ 4
  pub summary :
      (m : ℕ) → InRing head m → bit w.summary (head / 64 - m) ≡ not (word_at w (m % 4) == 0)
  pub inside : (n : ℕ) → marks n ≡ true → (n ≤ head) × (head < n + 192)
  pub num : w.num_marked ≡ card marks (head + 1)

pub word_lem : (n : ℕ) → bit_word (wnd_pos n) ≡ n / 64 % 4
word_lem n = omega arith

pub offset_lem : (n : ℕ) → wnd_pos n % 64 ≡ n % 64
offset_lem n = omega arith

pub ring_of : (head n : ℕ) → 256 ≤ head → n ≤ head → head < n + 192 → InRing head (n / 64)
ring_of head n l h k = record { le = omega arith; near = omega arith }

module _ (w : Window) (head : ℕ) (marks : ℕ → Bool) (sh : Shows w head marks) where
  pub summary_pos_lem :
      (n : ℕ) → InRing head (n / 64) → summary_pos w (wnd_pos n) ≡ head / 64 - n / 64
  summary_pos_lem n r = omega (arith, sh.head_word, r.le, r.near)

  pub back_lem : (m : ℕ) → InRing head m → word_sub w.head_word (m % 4) ≡ head / 64 - m
  back_lem m r = omega (arith, sh.head_word, r.le, r.near)

  pub word_of_lem : (n : ℕ) → word_at w (bit_word (wnd_pos n)) ≡ word_at w (n / 64 % 4)
  word_of_lem n = ap (word_at w) (word_lem n)

  -- The code's test says whether the number is marked.
  pub wnd_is_marked_lem : (n : ℕ) → n ≤ head → head < n + 192 → wnd_is_marked w n ≡ marks n
  unfolding wnd_is_marked
  wnd_is_marked_lem n h k =
      ap (λ x. bit x (wnd_pos n % 64)) (word_of_lem n)
      ∙ ap (bit (word_at w (n / 64 % 4))) (offset_lem n)
      ∙ sh.bits (n / 64) (n % 64) (ring_of head n sh.low h k) (omega arith)
      ∙ ap marks (omega arith)

pub zero_word : (i : ℕ) → get_or {A = ℕ} (replicate 4 0) i 0 ≡ 0
zero_word i = get_or-replicate_self {A = ℕ} 4 i 0

-- After a reset no number is marked.
pub reset-Shows :
    (w : Window) (head : ℕ)
    → 256 ≤ head
    → head + 256 < 2 ^ 64
    → Shows (wnd_reset w head) head (λ _. false)
unfolding wnd_reset
reset-Shows w head l h = record {
  low = l;
  high = h;
  word = refl;
  head_word = word_lem head;
  words = refl;
  fits = λ i. rw (zero_word i) (omega arith);
  bits = λ m i r p. ap (λ x. bit x i) (zero_word (m % 4)) ∙ bit-zero i;
  summary_fits = omega arith;
  summary = λ m r. bit-zero (head / 64 - m) ∙ ap (λ x. not (x == 0)) (sym (zero_word (m % 4)));
  inside = λ n e. ground arith;
  num = sym (card-none (head + 1));
}

abbrev pub put : Window → ℕ → ℕ → ℕ → ℕ → Window
put w m0 v summary' num' = record w {
  marked = set w.marked (m0 % 4) v;
  summary = summary';
  num_marked = num';
}

-- One word is changed to fit another set of marks that differs in that word only.
module _ (w : Window) (head : ℕ) (marks marks' : ℕ → Bool) (sh : Shows w head marks)
    (m0 v summary' num' : ℕ) (ring : InRing head m0) where
  put_self : word_at (put w m0 v summary' num') (m0 % 4) ≡ v
  put_self = get_or-set_self w.marked (m0 % 4) v 0 (omega (arith, sh.words))

  put_other :
      (m : ℕ)
      → InRing head m
      → m ≢ m0
      → word_at (put w m0 v summary' num') (m % 4) ≡ word_at w (m % 4)
  put_other m r ne =
      get_or-set_ne w.marked (m0 % 4) (m % 4) v 0 (omega (arith, r.le, r.near, ring.le, ring.near))

  put_bits :
      ((i : ℕ) → i < 64 → bit v i ≡ marks' (64 * m0 + i))
      → ((m i : ℕ) → m ≢ m0 → i < 64 → marks' (64 * m + i) ≡ marks (64 * m + i))
      → (m i : ℕ) → InRing head m
      → i < 64
      → bit (word_at (put w m0 v summary' num') (m % 4)) i ≡ marks' (64 * m + i)
  put_bits own others m i r p = elim (Bool-cases (m == m0)) [
    | inl e ↦ let same : m ≡ m0 = ground arith in rw same (rw put_self (own i p))
    | inr e ↦
        let ne : m ≢ m0 = ground arith in
        rw (put_other m r ne) (sh.bits m i r p ∙ sym (others m i ne p))
  ]

  put_summary :
      bit summary' (head / 64 - m0) ≡ not (v == 0)
      → ((j : ℕ) → j ≢ head / 64 - m0 → bit summary' j ≡ bit w.summary j)
      → (m : ℕ) → InRing head m
      → bit summary' (head / 64 - m) ≡ not (word_at (put w m0 v summary' num') (m % 4) == 0)
  put_summary own others m r = elim (Bool-cases (m == m0)) [
    | inl e ↦ let same : m ≡ m0 = ground arith in rw same (rw put_self own)
    | inr e ↦
        let ne : m ≢ m0 = ground arith in
        rw (put_other m r ne)
          (others (head / 64 - m) (omega (arith, r.le, ring.le)) ∙ sh.summary m r)
  ]

  pub put-Shows :
      v < 2 ^ 64
      → ((i : ℕ) → i < 64 → bit v i ≡ marks' (64 * m0 + i))
      → ((m i : ℕ) → m ≢ m0 → i < 64 → marks' (64 * m + i) ≡ marks (64 * m + i))
      → summary' < 2 ^ 4
      → bit summary' (head / 64 - m0) ≡ not (v == 0)
      → ((j : ℕ) → j ≢ head / 64 - m0 → bit summary' j ≡ bit w.summary j)
      → ((n : ℕ) → marks' n ≡ true → (n ≤ head) × (head < n + 192))
      → num' ≡ card marks' (head + 1)
      → Shows (put w m0 v summary' num') head marks'
  put-Shows vfits own others sfits sown sothers ins count = record {
    low = sh.low;
    high = sh.high;
    word = sh.word;
    head_word = sh.head_word;
    words = length-set w.marked (m0 % 4) v ∙ sh.words;
    fits = λ j. get_or-set_all (λ x. x < 2 ^ 64) w.marked (m0 % 4) j v 0 vfits sh.fits;
    bits = put_bits own others;
    summary_fits = sfits;
    summary = put_summary sown sothers;
    inside = ins;
    num = count;
  }
