-- ===== src/Base/Over.antt =====
-- The lists that a function gives for the numbers of a range, one after the other.
use Prim.Native.Nat.{ℕ, zero, suc, ◌+◌, ◌≤◌, ◌<◌}
use mathlib.Core.Path.{◌≡◌, refl, ◌∙◌, ap, ap₂}
use mathlib.Core.List.{List, [], ◌++◌}
use mathlib.Core.Logic.{inl, inr}
use native.Mathlib.Omega.{arith}
use fastpass.Base.Tests.{Bool-cases, ◌==◌}

module _ {ℓ} {A : Type ℓ} where
  -- For `k` numbers from `lo` on.
  unfoldable pub over : (ℕ → List A) → ℕ → ℕ → List A
  over f lo zero = []
  over f lo (suc k) = f lo ++ over f (lo + 1) k

  pub over-congr :
      (f g : ℕ → List A) (lo k : ℕ)
      → ((n : ℕ) → lo ≤ n → n < lo + k → f n ≡ g n)
      → over f lo k ≡ over g lo k
  unfolding over
  over-congr f g lo zero h = refl
  over-congr f g lo (suc k) h =
      ap₂ ◌++◌ (h lo (omega arith) (omega arith))
        (over-congr f g (lo + 1) k λ n p q. h n (omega arith) (omega arith))

  pub over_quiet :
      (f : ℕ → List A) (lo k : ℕ) → ((n : ℕ) → lo ≤ n → n < lo + k → f n ≡ []) → over f lo k ≡ []
  unfolding over
  over_quiet f lo zero h = refl
  over_quiet f lo (suc k) h =
      ap (λ l. l ++ over f (lo + 1) k) (h lo (omega arith) (omega arith))
      ∙ over_quiet f (lo + 1) k λ n p q. h n (omega arith) (omega arith)

  -- The part before `n` gives nothing.
  pub over_from :
      (f : ℕ → List A) (lo k n j : ℕ)
      → lo ≤ n
      → n + suc j ≡ lo + k
      → ((m : ℕ) → lo ≤ m → m < n → f m ≡ [])
      → over f lo k ≡ f n ++ over f (n + 1) j
  unfolding over
  over_from f lo zero n j h e quiet = absurd (omega arith)
  over_from f lo (suc k) n j h e quiet = elim (Bool-cases (lo == n)) [
    | inl same ↦ ap₂ (λ m i. f m ++ over f (m + 1) i) {x = lo} {y = n} (ground arith) (ground arith)
    | inr later ↦
        ap (λ l. l ++ over f (lo + 1) k) (quiet lo (omega arith) (ground arith))
        ∙ over_from f (lo + 1) k n j (ground arith) (omega arith) λ m p q. quiet m (omega arith) q
  ]
