-- ===== src/Base/Count.antt =====
-- How many numbers below a bound a test marks.
use Prim.Native.Nat.{ℕ, zero, suc, ◌-◌, ◌≤◌, ◌<◌}
use mathlib.Core.Path.{◌≡◌, refl, ap, ◌∙◌}
use mathlib.Core.Logic.{◌≢◌, inl, inr}
use mathlib.Core.Bool.{Bool, true, false, not, ◌&&◌, ◌||◌}
use native.Mathlib.Omega.{arith}
use fastpass.Base.Tests.{Bool-cases, ◌==◌, if◌then◌else◌}

-- How many numbers below `n` are marked.
unfoldable pub card : (ℕ → Bool) → ℕ → ℕ
card marks zero = 0
card marks (suc n) = if marks n then suc (card marks n) else card marks n

pub card-none : (n : ℕ) → card (λ _. false) n ≡ 0
unfolding card
card-none zero = refl
card-none (suc n) = card-none n

pub card-extend :
    (f : ℕ → Bool) (a b : ℕ) → a ≤ b → ((m : ℕ) → a ≤ m → f m ≡ false) → card f a ≡ card f b
unfolding card
card-extend f a zero h past = ap (card f) {x = a} {y = zero} (omega arith)
card-extend f a (suc b) h past = elim (Bool-cases (a == suc b)) [
  | inl e ↦ ap (card f) {x = a} {y = suc b} (ground arith)
  | inr e ↦ let le : a ≤ b = ground arith in ground (arith, card-extend f a b le past, past b le)
]

abbrev pub with_elem : (ℕ → Bool) → ℕ → ℕ → Bool
with_elem marks n m = marks m || (m == n)

abbrev pub without : (ℕ → Bool) → ℕ → ℕ → Bool
without marks n m = marks m && not (m == n)

pub card_same : (f g : ℕ → Bool) (k : ℕ) → ((m : ℕ) → m < k → f m ≡ g m) → card f k ≡ card g k
unfolding card
card_same f g zero h = refl
card_same f g (suc k) h = ground (arith, h k, card_same f g k (λ m p. h m (omega arith)))

-- One more number is marked.
pub card-with :
    (f : ℕ → Bool) (n k : ℕ) → f n ≡ false → n < k → card (with_elem f n) k ≡ suc (card f k)
unfolding card
card-with f n zero h p = elim p [ ]
card-with f n (suc k) h p = elim (Bool-cases (n == k)) [
  | inl e ↦
      let same : n ≡ k = ground arith in
      ground (arith, ap f same, card_same (with_elem f n) f k (λ m q. ground (arith, f)))
  | inr e ↦ ground (arith, card-with f n k h (ground arith))
]

-- One number is not marked any more.
pub card-without :
    (f : ℕ → Bool) (n k : ℕ) → f n ≡ true → n < k → card f k ≡ suc (card (without f n) k)
unfolding card
card-without f n zero h p = elim p [ ]
card-without f n (suc k) h p = elim (Bool-cases (n == k)) [
  | inl e ↦
      let same : n ≡ k = ground arith in
      ground (arith, ap f same, card_same (without f n) f k (λ m q. ground (arith, f)))
  | inr e ↦ ground (arith, card-without f n k h (ground arith))
]

-- There are no more marks than numbers from the first that may be marked on.
pub card-le : (f : ℕ → Bool) (lo n : ℕ) → ((m : ℕ) → m < lo → f m ≡ false) → card f n ≤ n - lo
unfolding card
card-le f lo zero h = omega arith
card-le f lo (suc n) h = ground (arith, h n, card-le f lo n h)

-- A count that is not 0 has counted a number.
pub counted : (f : ℕ → Bool) (k : ℕ) → card f k ≢ 0 → (n : ℕ) × (f n ≡ true)
unfolding card
counted f zero ne = absurd (ne refl)
counted f (suc k) ne = elim (Bool-cases (f k)) [
  | inl e ↦ (k, e)
  | inr e ↦ counted f k λ z. ne (ground (arith, z))
]

pub uncounted : (f : ℕ → Bool) (k m : ℕ) → card f k ≡ 0 → m < k → f m ≡ false
unfolding card
uncounted f zero m z h = elim h [ ]
uncounted f (suc k) m z h = elim (Bool-cases (m == k)) [
  | inl e ↦ ap f {x = m} {y = k} (ground arith) ∙ ground arith
  | inr e ↦ uncounted f k m (ground arith) (ground arith)
]

pub card_mono :
    (f g : ℕ → Bool) (k : ℕ) → ((m : ℕ) → m < k → f m ≡ true → g m ≡ true) → card f k ≤ card g k
unfolding card
card_mono f g zero h = omega arith
card_mono f g (suc k) h = ground (arith, h k, card_mono f g k (λ m p. h m (omega arith)))

-- A test that marks less.
pub card_lt :
    (f g : ℕ → Bool) (n k : ℕ)
    → ((m : ℕ) → m < k → f m ≡ true → g m ≡ true)
    → n < k
    → f n ≡ false
    → g n ≡ true
    → card f k < card g k
card_lt f g n k h p off on = omega (
  arith,
  card-without g n k on p,
  card_mono f (without g n) k λ m q e. ground (arith, h m q, ap f {x = m} {y = n}),
)

pub card-le_bound : (f : ℕ → Bool) (k : ℕ) → card f k ≤ k
unfolding card
card-le_bound f zero = omega arith
card-le_bound f (suc k) = ground (arith, card-le_bound f k)
