-- ===== src/Base/Count.antt =====
-- Counting the members of a list that pass a test, and the overlap of two majorities.
use Prim.Native.Nat.{ℕ, ◌+◌, ◌<◌}
use typesense_python.Base.Tests.{if◌then◌else◌, Bool-cases}
use typesense_python.Base.Lists.{length}
use mathlib.Core.Path.{◌≡◌}
use mathlib.Core.Bool.{Bool, true}
use mathlib.Core.List.{List, [], ◌∷◌}
use mathlib.Core.Logic.{inl, inr}
use native.Mathlib.Omega.{arith}

module _ {ℓ} {A : Type ℓ} where
  unfoldable pub count : (A → Bool) → List A → ℕ
  count p [] = 0
  count p (x ∷ xs) = (if p x then 1 else 0) + count p xs

  -- Two tests that together pass more often than there are elements both pass at one element.
  pub overlap :
      (p q : A → Bool) (xs : List A)
      → length xs < count p xs + count q xs
      → (x : A) × (p x ≡ true) × (q x ≡ true)
  unfolding count
  overlap p q [] h = absurd (omega arith)
  overlap p q (x ∷ xs) h = elim (Bool-cases (p x)) [
    | inl a ↦ elim (Bool-cases (q x)) [ inl b ↦ (x, a, b) | inr b ↦ overlap p q xs (ground arith) ]
    | inr a ↦ overlap p q xs (ground arith)
  ]
