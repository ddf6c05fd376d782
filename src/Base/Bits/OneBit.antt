-- ===== src/Base/Bits/OneBit.antt =====
-- Setting and clearing one bit of a word of 64 bits, and testing it.
use Prim.Native.Nat.{ℕ, ◌-◌, ◌^◌, ◌<◌, bit_and, bit_or}
use mathlib.Core.Path.{◌≡◌, ◌∙◌}
use mathlib.Core.Logic.{inl, inr}
use mathlib.Core.Bool.{not, ◌&&◌, ◌||◌}
use native.Mathlib.Omega.{arith}
use fastpass.Base.Tests.{leb, leb→le, Bool-cases, ◌==◌}
use fastpass.Base.Bits.{
  bit, bit-bit_and, bit-bit_or, bit-pow, bit-complement, bit_past, bit_and-lt, pow-lt,
}

-- `x & ~(1 << k)`
pub bit-clear :
    (x k j : ℕ)
    → x < 2 ^ 64
    → k < 64
    → bit (bit_and x (2 ^ 64 - 1 - 2 ^ k)) j ≡ (bit x j && not (j == k))
bit-clear x k j h p = elim (Bool-cases (leb 64 j)) [
  | inl e ↦
      let far = leb→le 64 j e in
      ground (
        arith,
        bit_past 64 (bit_and x (2 ^ 64 - 1 - 2 ^ k)) j (bit_and-lt 64 x (2 ^ 64 - 1 - 2 ^ k) h) far,
        bit_past 64 x j h far,
      )
  | inr e ↦
      bit-bit_and x (2 ^ 64 - 1 - 2 ^ k) j
      ∙ ground (arith, bit-complement 64 (2 ^ k) j (pow-lt 64 k p) (ground arith), bit-pow k j)
]

-- `x | (1 << k)`
pub bit-set : (x k j : ℕ) → bit (bit_or x (2 ^ k)) j ≡ (bit x j || (j == k))
bit-set x k j = bit-bit_or x (2 ^ k) j ∙ ground (arith, bit-pow k j)
