-- ===== src/Base/Bits/Scan.antt =====
-- The lowest and the highest set bit: `__ffs` and `bsfq`, `__fls`, and `x & (-x)`.
use Prim.Native.Nat.{ℕ, zero, suc, ◌-◌, ◌/◌, ◌%◌, ◌^◌, ◌<◌, bit_and}
use mathlib.Core.Path.{◌≡◌, ◌∙◌, ap}
use mathlib.Core.Logic.{◌≢◌, inl, inr}
use mathlib.Core.Bool.{true, false, not}
use native.Mathlib.Nat.{pow-suc, one-le-pow}
use native.Mathlib.Omega.{arith}
use fastpass.Base.Tests.{ltb, Bool-cases, ◌==◌, if◌then◌else◌}
use fastpass.Base.Bits.{
  bit, bit-zero, bit-bit_and, bit-complement, bit_ext, bit_and-lt, bit_and-lt_right, bit-pow,
}
use fastpass.Base.Bits.Digits.{and-digit}

-- The index of the lowest set bit among `w` bits; `w` if there is none.
unfoldable pub lowest : ℕ → ℕ → ℕ
lowest zero x = 0
lowest (suc w) x = let rest = suc (lowest w (x / 2)) in if (x % 2) == 1 then 0 else rest

-- The index of the highest set bit among `w` bits, for a word that has one.
unfoldable pub highest : ℕ → ℕ → ℕ
highest zero x = 0
highest (suc w) x = let rest = suc (highest w (x / 2)) in if ltb 1 x then rest else 0

pub lowest-lt : (w x : ℕ) → x ≢ 0 → x < 2 ^ w → lowest w x < w
unfolding lowest
lowest-lt zero x ne h = absurd (ne (omega arith))
lowest-lt (suc w) x ne h = ground (arith, pow-suc 2 w, lowest-lt w (x / 2))

pub bit-lowest : (w x : ℕ) → x ≢ 0 → x < 2 ^ w → bit x (lowest w x) ≡ true
unfolding lowest bit
bit-lowest zero x ne h = absurd (ne (omega arith))
bit-lowest (suc w) x ne h = ground (arith, pow-suc 2 w, bit-lowest w (x / 2))

pub bit_below-lowest : (w x i : ℕ) → i < lowest w x → bit x i ≡ false
unfolding lowest bit
bit_below-lowest zero x i h = elim h [ ]
bit_below-lowest (suc w) x zero h = ground arith
bit_below-lowest (suc w) x (suc i) h = ground (arith, bit_below-lowest w (x / 2) i)

pub highest-lt : (w x : ℕ) → 0 < w → x < 2 ^ w → highest w x < w
unfolding highest
highest-lt zero x p h = elim p [ ]
highest-lt (suc zero) x p h = ground arith
highest-lt (suc (suc w)) x p h = ground (arith, pow-suc 2 (suc w), highest-lt (suc w) (x / 2))

pub bit-highest : (w x : ℕ) → x ≢ 0 → x < 2 ^ w → bit x (highest w x) ≡ true
unfolding highest bit
bit-highest zero x ne h = absurd (ne (omega arith))
bit-highest (suc w) x ne h = ground (arith, pow-suc 2 w, bit-highest w (x / 2))

pub bit_above-highest : (w x i : ℕ) → x < 2 ^ w → highest w x < i → bit x i ≡ false
unfolding highest bit
bit_above-highest zero x (suc i) h p = ap (λ y. bit y i) (omega arith) ∙ bit-zero i
bit_above-highest (suc w) x (suc i) h p =
    ground (arith, pow-suc 2 w, bit-zero i, bit_above-highest w (x / 2) i)
bit_above-highest w x zero h p = elim p [ ]

pub ne_zero_of_bit : (x i : ℕ) → bit x i ≡ true → x ≢ 0
ne_zero_of_bit x i h e = cc (bit-zero i)

bit_at : (x k i : ℕ) → (i == k) ≡ true → bit x i ≡ bit x k
bit_at x k i h = ap (bit x) (ground arith)

bit_and-pow_of_clear : (x k : ℕ) → bit x k ≡ false → bit_and x (2 ^ k) ≡ 0
bit_and-pow_of_clear x k e =
    bit_ext (suc k) (bit_and x (2 ^ k)) 0
      (bit_and-lt_right (suc k) x (2 ^ k) (omega (arith, pow-suc 2 k, one-le-pow k 2)))
      (one-le-pow (suc k) 2 (omega arith))
      λ i h. bit-bit_and x (2 ^ k) i ∙ ground (arith, bit-pow k i, bit_at x k i, bit-zero i)

-- A mask of one bit tests that bit.
pub test_bit : (x k : ℕ) → not (bit_and x (2 ^ k) == 0) ≡ bit x k
test_bit x k = elim (Bool-cases (bit x k)) [
  | inl e ↦
      ground (arith, ne_zero_of_bit (bit_and x (2 ^ k)) k, bit-bit_and x (2 ^ k) k, bit-pow k k)
  | inr e ↦ ground (arith, bit_and-pow_of_clear x k)
]

pub bit_and-complement : (w x : ℕ) → x < 2 ^ w → bit_and x (2 ^ w - 1 - x) ≡ 0
bit_and-complement w x h =
    bit_ext w (bit_and x (2 ^ w - 1 - x)) 0 (bit_and-lt w x (2 ^ w - 1 - x) h)
      (one-le-pow w 2 (omega arith))
      λ i k. bit-bit_and x (2 ^ w - 1 - x) i ∙ ground (arith, bit-complement w x i, bit-zero i)

-- `x & (-x)` keeps the lowest set bit alone.
pub bit_and-neg : (w x : ℕ) → x ≢ 0 → x < 2 ^ w → bit_and x (2 ^ w - x) ≡ 2 ^ lowest w x
unfolding lowest
bit_and-neg zero x ne h = absurd (ne (omega arith))
bit_and-neg (suc w) x ne h = ground (
  arith,
  pow-suc 2 w,
  and-digit x (2 ^ suc w - x),
  bit_and-complement w (x / 2),
  bit_and-neg w (x / 2),
  pow-suc 2 (lowest w (x / 2)),
  ap (bit_and (x / 2)) {x = (2 ^ suc w - x) / 2} {y = 2 ^ w - 1 - x / 2},
  ap (bit_and (x / 2)) {x = (2 ^ suc w - x) / 2} {y = 2 ^ w - x / 2},
)
