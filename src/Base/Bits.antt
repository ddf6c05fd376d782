-- ===== src/Base/Bits.antt =====
-- Machine words as numbers, read bit by bit: `bit x i` is `(x >> i) & 1`.
mod Digits
pub mod Fields
pub mod OneBit
pub mod Scan
use Prim.Native.Nat.{
  ℕ, zero, suc, ◌+◌, ◌-◌, ◌*◌, ◌/◌, ◌%◌, ◌^◌, ◌≤◌, ◌<◌, bit_and, bit_or, bit_xor, bit_and-bitwise,
}
use mathlib.Core.Path.{◌≡◌, refl, sym, ◌∙◌, ap, ap₂}
use mathlib.Core.Bool.{Bool, true, false, not, ◌&&◌, ◌||◌, xor}
use native.Mathlib.Nat.{pow-suc, pow-le-pow_right, one-le-pow}
use native.Mathlib.Omega.{arith}
use mathlib.Core.Logic.{inl, inr}
use fastpass.Base.Tests.{ltb, ltb→lt, Bool-cases, leb, ◌==◌, if◌then◌else◌}
use Digits.{and-digit, or-digit, xor-digit, differ-lt, half-mod, parity-mod, half-pow, shl-suc}

unfoldable pub bit : ℕ → ℕ → Bool
bit x zero = (x % 2) == 1
bit x (suc i) = bit (x / 2) i

pub bit-bit_and : (a b i : ℕ) → bit (bit_and a b) i ≡ (bit a i && bit b i)
unfolding bit
bit-bit_and a b zero = ground (arith, and-digit a b)
bit-bit_and a b (suc i) =
    ap (λ x. bit x i) (omega (arith, and-digit a b)) ∙ bit-bit_and (a / 2) (b / 2) i

pub bit-bit_or : (a b i : ℕ) → bit (bit_or a b) i ≡ (bit a i || bit b i)
unfolding bit
bit-bit_or a b zero = ground (arith, or-digit a b)
bit-bit_or a b (suc i) =
    ap (λ x. bit x i) (omega (arith, or-digit a b)) ∙ bit-bit_or (a / 2) (b / 2) i

pub bit-bit_xor : (a b i : ℕ) → bit (bit_xor a b) i ≡ xor (bit a i) (bit b i)
unfolding bit xor
bit-bit_xor a b zero = ground (arith, xor-digit a b)
bit-bit_xor a b (suc i) =
    ap (λ x. bit x i) (omega (arith, xor-digit a b, differ-lt a b)) ∙ bit-bit_xor (a / 2) (b / 2) i

pub bit-zero : (i : ℕ) → bit 0 i ≡ false
unfolding bit
bit-zero zero = refl
bit-zero (suc i) = bit-zero i

-- A word has no bit at or past its width.
pub bit_past : (w x i : ℕ) → x < 2 ^ w → w ≤ i → bit x i ≡ false
unfolding bit
bit_past zero x i h k = ap (λ y. bit y i) (omega arith) ∙ bit-zero i
bit_past (suc w) x zero h k = elim k [ ]
bit_past (suc w) x (suc i) h k = bit_past w (x / 2) i (omega (arith, pow-suc 2 w)) (omega arith)

-- Words of one width with the same bits are one word.
pub bit_ext : (w a b : ℕ) → a < 2 ^ w → b < 2 ^ w → ((i : ℕ) → i < w → bit a i ≡ bit b i) → a ≡ b
unfolding bit
bit_ext zero a b p q h = omega arith
bit_ext (suc w) a b p q h =
    let low : (a % 2) ≡ (b % 2) = ground (arith, h 0 (omega arith)) in
    let high : (a / 2) ≡ (b / 2) =
      bit_ext w (a / 2) (b / 2) (omega (arith, pow-suc 2 w)) (omega (arith, pow-suc 2 w))
        (λ i k. h (suc i) (omega arith)) in
    omega arith

-- `~x` in a word of `w` bits.
pub bit-complement : (w x i : ℕ) → x < 2 ^ w → i < w → bit (2 ^ w - 1 - x) i ≡ not (bit x i)
unfolding bit
bit-complement zero x i h k = elim k [ ]
bit-complement (suc w) x zero h k = ground (arith, pow-suc 2 w, one-le-pow w 2)
bit-complement (suc w) x (suc i) h k =
    ap (λ y. bit y i) (omega (arith, pow-suc 2 w))
    ∙ bit-complement w (x / 2) i (omega (arith, pow-suc 2 w)) (omega arith)

bit_cong : (x y i j : ℕ) → x ≡ y → i ≡ j → bit x i ≡ bit y j
bit_cong x y i j p q = ap₂ bit p q

pub bit-mod : (w x i : ℕ) → i < w → bit (x % 2 ^ w) i ≡ bit x i
unfolding bit
bit-mod zero x i h = elim h [ ]
bit-mod (suc w) x zero h =
    ap (λ y. y == 1) (ap (λ y. x % y % 2) (pow-suc 2 w) ∙ parity-mod (2 ^ w) x)
bit-mod (suc w) x (suc i) h =
    ap (λ y. bit y i) (ap (λ y. x % y / 2) (pow-suc 2 w) ∙ half-mod (2 ^ w) x)
    ∙ bit-mod w (x / 2) i (omega arith)

pub bit-shr : (k x i : ℕ) → bit (x / 2 ^ k) i ≡ bit x (k + i)
unfolding bit
bit-shr zero x i = bit_cong (x / 2 ^ 0) x i (0 + i) (omega arith) (omega arith)
bit-shr (suc k) x i =
    ap (λ y. bit y i) (sym (half-pow k x))
    ∙ bit-shr k (x / 2) i
    ∙ bit_cong x x (suc (k + i)) (suc k + i) refl (omega arith)

pub bit-shl : (k x i : ℕ) → bit (x * 2 ^ k) (k + i) ≡ bit x i
unfolding bit
bit-shl zero x i = bit_cong (x * 2 ^ 0) x (0 + i) i (omega arith) (omega arith)
bit-shl (suc k) x i =
    bit_cong (x * 2 ^ suc k) (x * 2 ^ suc k) (suc k + i) (suc (k + i)) refl (omega arith)
    ∙ ap (λ y. bit y (k + i)) (omega (arith, shl-suc k x))
    ∙ bit-shl k x i

pub bit-shl_below : (k x i : ℕ) → i < k → bit (x * 2 ^ k) i ≡ false
unfolding bit
bit-shl_below zero x i h = elim h [ ]
bit-shl_below (suc k) x zero h = ground (arith, shl-suc k x)
bit-shl_below (suc k) x (suc i) h =
    ap (λ y. bit y i) (omega (arith, shl-suc k x)) ∙ bit-shl_below k x i (omega arith)

-- `1 << k`
pub bit-pow : (k i : ℕ) → bit (2 ^ k) i ≡ (i == k)
unfolding bit
bit-pow zero zero = refl
bit-pow zero (suc i) = ground (arith, bit-zero i)
bit-pow (suc k) zero = ground (arith, pow-suc 2 k)
bit-pow (suc k) (suc i) =
    ap (λ y. bit y i) (omega (arith, pow-suc 2 k)) ∙ bit-pow k i ∙ ground arith

-- `(1 << k) - 1`
pub bit-mask : (k i : ℕ) → bit (2 ^ k - 1) i ≡ ltb i k
unfolding bit
bit-mask zero zero = refl
bit-mask zero (suc i) = bit-zero i ∙ ground arith
bit-mask (suc k) zero = ground (arith, pow-suc 2 k, one-le-pow k 2)
bit-mask (suc k) (suc i) =
    ap (λ y. bit y i) (omega (arith, pow-suc 2 k, one-le-pow k 2)) ∙ bit-mask k i ∙ ground arith

zero_words : (op : ℕ → ℕ → ℕ) (a b : ℕ) → op 0 0 ≡ 0 → a < 1 → b < 1 → op a b < 1
zero_words op a b e p q =
    omega (arith, e, ap₂ op {x = a} {y = 0} {u = b} {v = 0} (omega arith) (omega arith))

pub bit_and-lt : (w a b : ℕ) → a < 2 ^ w → bit_and a b < 2 ^ w
bit_and-lt zero zero b h = omega (arith, bit_and-bitwise 0 b)
bit_and-lt zero (suc a) b h = absurd (omega arith)
bit_and-lt (suc w) a b h =
    let half : a / 2 < 2 ^ w = omega (arith, pow-suc 2 w) in
    omega (arith, and-digit a b, pow-suc 2 w, bit_and-lt w (a / 2) (b / 2) half)

bit_and-zero_upto : (n a : ℕ) → a ≤ n → bit_and a 0 ≡ 0
bit_and-zero_upto n zero h = refl
bit_and-zero_upto zero (suc a) h = elim h [ ]
bit_and-zero_upto (suc n) (suc a) h =
    omega (arith, and-digit (suc a) 0, bit_and-zero_upto n (suc a / 2) (omega arith))

pub zero-bit_and : (b : ℕ) → bit_and 0 b ≡ 0
zero-bit_and b = bit_and-bitwise 0 b

pub bit_and-lt_right : (w a b : ℕ) → b < 2 ^ w → bit_and a b < 2 ^ w
bit_and-lt_right zero a zero h = omega (arith, bit_and-zero_upto a a (omega arith))
bit_and-lt_right zero a (suc b) h = absurd (omega arith)
bit_and-lt_right (suc w) a b h =
    let half : b / 2 < 2 ^ w = omega (arith, pow-suc 2 w) in
    omega (arith, and-digit a b, pow-suc 2 w, bit_and-lt_right w (a / 2) (b / 2) half)

pub bit_or-lt : (w a b : ℕ) → a < 2 ^ w → b < 2 ^ w → bit_or a b < 2 ^ w
bit_or-lt zero a b p q = zero_words bit_or a b refl p q
bit_or-lt (suc w) a b p q =
    let half_a : a / 2 < 2 ^ w = omega (arith, pow-suc 2 w) in
    let half_b : b / 2 < 2 ^ w = omega (arith, pow-suc 2 w) in
    omega (arith, or-digit a b, pow-suc 2 w, bit_or-lt w (a / 2) (b / 2) half_a half_b)

pub bit_xor-lt : (w a b : ℕ) → a < 2 ^ w → b < 2 ^ w → bit_xor a b < 2 ^ w
bit_xor-lt zero a b p q = zero_words bit_xor a b refl p q
bit_xor-lt (suc w) a b p q =
    let half_a : a / 2 < 2 ^ w = omega (arith, pow-suc 2 w) in
    let half_b : b / 2 < 2 ^ w = omega (arith, pow-suc 2 w) in
    let rest : bit_xor (a / 2) (b / 2) < 2 ^ w = bit_xor-lt w (a / 2) (b / 2) half_a half_b in
    omega (arith, xor-digit a b, differ-lt a b, pow-suc 2 w)

-- `x & (2^k - 1)` for an `x` of `k` bits
pub bit_and-mask_of_lt : (k x : ℕ) → x < 2 ^ k → bit_and x (2 ^ k - 1) ≡ x
bit_and-mask_of_lt k x h =
    bit_ext k (bit_and x (2 ^ k - 1)) x (bit_and-lt k x (2 ^ k - 1) h) h
      λ i p. bit-bit_and x (2 ^ k - 1) i ∙ ground (arith, bit-mask k i)

pub pow-lt : (w k : ℕ) → k < w → 2 ^ k < 2 ^ w
pow-lt w k h = omega (
  arith,
  pow-suc 2 k,
  one-le-pow k 2,
  pow-le-pow_right {n = 2} (omega arith) {i = suc k} {j = w} (omega arith),
)

-- A word whose bits from `k` on are clear is below 2 ^ k.
pub lt_of_bits : (w k x : ℕ) → x < 2 ^ w → ((i : ℕ) → k ≤ i → i < w → bit x i ≡ false) → x < 2 ^ k
lt_of_bits w k x h clear =
    let small : x % 2 ^ k < 2 ^ k = omega (arith, one-le-pow k 2) in
    let same : x ≡ x % 2 ^ k = bit_ext w x (x % 2 ^ k) h (omega arith) λ i p.
      elim (Bool-cases (ltb i k)) [
        | inl e ↦ sym (bit-mod k x i (ltb→lt i k e))
        | inr e ↦ clear i (ground arith) p ∙ sym (bit_past k (x % 2 ^ k) i small (ground arith))
      ] in
    omega arith
