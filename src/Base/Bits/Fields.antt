-- ===== src/Base/Bits/Fields.antt =====
-- Fields of bits: a mask is a remainder, and an `|` of fields that do not overlap is a sum.
use fastpass.Base.{
  ℕ, zero, suc, ◌+◌, ◌-◌, ◌*◌, ◌/◌, ◌%◌, ◌^◌, ◌<◌, bit_and, bit_or, ◌≡◌, ap, arith, ◌∙◌,
}
use native.Mathlib.Nat.{pow-suc, one-le-pow}
use fastpass.Base.Bits.{
  bit-bit_and, bit-bit_or, bit-mask, bit-mod, bit_ext, bit_and-lt_right, bit-zero, bit_or-lt,
}
use fastpass.Base.Bits.Digits.{or-digit, shl-suc}

pub bit_and-mask : (k x : ℕ) → bit_and x (2 ^ k - 1) ≡ x % 2 ^ k
bit_and-mask k x =
    bit_ext k (bit_and x (2 ^ k - 1)) (x % 2 ^ k)
      (bit_and-lt_right k x (2 ^ k - 1) (omega (arith, one-le-pow k 2)))
      (omega (arith, one-le-pow k 2))
      λ i p. bit-bit_and x (2 ^ k - 1) i ∙ ground (arith, bit-mask k i, bit-mod k x i p)

bit_or-zero : (w a : ℕ) → a < 2 ^ w → bit_or a 0 ≡ a
bit_or-zero w a h =
    bit_ext w (bit_or a 0) a (bit_or-lt w a 0 h (omega (arith, one-le-pow w 2))) h
      λ i p. bit-bit_or a 0 i ∙ ground (arith, bit-zero i)

-- A field of `k` bits below another.
pub bit_or-field : (k a b : ℕ) → a < 2 ^ 64 → b < 2 ^ k → bit_or (a * 2 ^ k) b ≡ a * 2 ^ k + b
bit_or-field zero a zero p q =
    ap (λ x. bit_or x 0) {x = a * 2 ^ 0} {y = a} (omega arith) ∙ bit_or-zero 64 a p ∙ omega arith
bit_or-field zero a (suc b) p q = absurd (omega arith)
bit_or-field (suc k) a b p q =
    let half : bit_or (a * 2 ^ suc k / 2) (b / 2) ≡ bit_or (a * 2 ^ k) (b / 2) =
      ap (λ x. bit_or x (b / 2)) {x = a * 2 ^ suc k / 2} {y = a * 2 ^ k}
        (omega (arith, shl-suc k a)) in
    let below = bit_or-field k a (b / 2) p (omega (arith, pow-suc 2 k)) in
    omega (arith, or-digit (a * 2 ^ suc k) b, half, below, shl-suc k a)
