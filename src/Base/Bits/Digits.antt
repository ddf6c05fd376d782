-- ===== src/Base/Bits/Digits.antt =====
-- The lowest binary digit of `&`, `|` and `^`, and what is left above it.
use Prim.Native.Nat.{
  ℕ, zero, suc, ◌+◌, ◌*◌, ◌/◌, ◌%◌, ◌^◌, ◌≤◌, ◌<◌, min, max, bit_and, bit_or, bit_xor,
}
use Prim.Native.Nat.{digits, bitwise, differ, bit_and-bitwise, bit_or-bitwise, bit_xor-bitwise}
use mathlib.Core.Path.{◌≡◌, refl, sym, ◌∙◌, ap}
use native.Mathlib.Nat.{
  le_refl, pow-suc, mul-div-le, mod-eq-sub-mul-div, div-div-eq-div-mul, mul_comm,
}
use native.Mathlib.Omega.{arith}

module _ (over : ℕ → ℕ) (op : ℕ → ℕ → ℕ) where
  -- Fuel past the first operand changes nothing.
  fuel_irrelevant :
      (fuel gas x y : ℕ) → x ≤ fuel → x ≤ gas → digits over op fuel x y ≡ digits over op gas x y
  fuel_irrelevant zero zero x y p q = refl
  fuel_irrelevant zero (suc gas) (suc x) y p q = elim p [ ]
  fuel_irrelevant zero (suc gas) zero y p q = refl
  fuel_irrelevant (suc fuel) gas zero y p q =
      elim gas as (λ g. digits over op (suc fuel) zero y ≡ digits over op g zero y) [
        | zero ↦ refl
        | suc g ↦ refl
      ]
  fuel_irrelevant (suc fuel) zero (suc x) y p q = elim q [ ]
  fuel_irrelevant (suc fuel) (suc gas) (suc x) y p q =
      rw (fuel_irrelevant fuel gas (suc x / 2) (y / 2) (omega arith) (omega arith))

  pub first_digit :
      (x y : ℕ)
      → bitwise over op (suc x) y ≡ bitwise over op (suc x / 2) (y / 2) * 2 + op (suc x % 2) (y % 2)
  first_digit x y =
      omega (arith, fuel_irrelevant x (suc x / 2) (suc x / 2) (y / 2) (omega arith) (le_refl _))

pub and-digit : (x y : ℕ) → bit_and x y ≡ bit_and (x / 2) (y / 2) * 2 + min (x % 2) (y % 2)
and-digit zero y = simp bit_and-bitwise (omega arith)
and-digit (suc x) y = simp bit_and-bitwise (first_digit (λ _. 0) min x y)

pub or-digit : (x y : ℕ) → bit_or x y ≡ bit_or (x / 2) (y / 2) * 2 + max (x % 2) (y % 2)
or-digit zero y = simp bit_or-bitwise (omega arith)
or-digit (suc x) y = simp bit_or-bitwise (first_digit (λ b. b) max x y)

pub xor-digit : (x y : ℕ) → bit_xor x y ≡ bit_xor (x / 2) (y / 2) * 2 + differ (x % 2) (y % 2)
xor-digit zero y = simp bit_xor-bitwise (ground arith)
xor-digit (suc x) y = simp bit_xor-bitwise (first_digit (λ b. b) differ x y)

differ_digits : (x y : ℕ) → x < 2 → y < 2 → differ x y < 2
differ_digits zero y p q = q
differ_digits (suc zero) zero p q = omega arith
differ_digits (suc zero) (suc y) p q = omega arith
differ_digits (suc (suc x)) y p q = absurd (omega arith)

pub differ-lt : (x y : ℕ) → differ (x % 2) (y % 2) < 2
differ-lt x y = differ_digits (x % 2) (y % 2) (omega arith) (omega arith)

half-div : (p x : ℕ) → x / 2 / p ≡ x / (p * 2)
half-div p x = div-div-eq-div-mul x 2 p ∙ ap (λ t. x / t) (mul_comm 2 p)

-- Halving a remainder.
pub half-mod : (p x : ℕ) → x % (p * 2) / 2 ≡ x / 2 % p
half-mod p x = omega (
  arith,
  mod-eq-sub-mul-div x (p * 2),
  mod-eq-sub-mul-div (x / 2) p,
  ap (λ (t : ℕ). p * t) (half-div p x),
)

pub parity-mod : (p x : ℕ) → x % (p * 2) % 2 ≡ x % 2
parity-mod p x = omega (arith, mod-eq-sub-mul-div x (p * 2), mul-div-le x (p * 2))

pub half-pow : (k x : ℕ) → x / 2 / 2 ^ k ≡ x / 2 ^ suc k
half-pow k x = half-div (2 ^ k) x ∙ ap (λ t. x / t) (sym (pow-suc 2 k))

pub shl-suc : (k x : ℕ) → x * 2 ^ suc k ≡ x * 2 ^ k * 2
shl-suc k x = omega (arith, ap (λ (t : ℕ). x * t) (pow-suc 2 k))
