-- ===== src/Base/Pigeonhole.antt =====
-- A sequence of different values leaves every shorter list.
use Prim.Native.Nat.{ℕ, suc, ◌≤◌}
use mathlib.Core.Path.{◌≡◌}
use mathlib.Core.Logic.{◌≢◌, inl, inr}
use mathlib.Core.List.{List, [], ◌∷◌}
use native.Mathlib.Omega.{arith}
use downpeed_fluter.Base.Tests.{ltb, if◌then◌else◌}
use downpeed_fluter.Base.Lists.{length, Member}

-- The values up to an index are all different.
abbrev pub InjectiveTo : {A : Type 0} → ℕ → (ℕ → A) → Type 0
InjectiveTo n g = (j k : ℕ) → j ≤ n → k ≤ n → g j ≡ g k → j ≡ k

-- The sequence without one of its values.
abbrev skip : ℕ → ℕ → ℕ
skip at k = if ltb k at then k else suc k

skip_inj : (at j k : ℕ) → skip at j ≡ skip at k → j ≡ k
skip_inj at j k e = ground arith

skip-ne : (at k : ℕ) → skip at k ≢ at
skip-ne at k e = ground arith

skip-le : (at k n : ℕ) → k ≤ n → skip at k ≤ suc n
skip-le at k n h = ground arith

module _ {A : Type 0} (discrete : Discrete A) where
  pub pigeonhole :
      (g : ℕ → A) (xs : List A)
      → InjectiveTo (length xs) g
      → (k : ℕ) × (k ≤ length xs) × (Member (g k) xs → ⊥)
  pigeonhole g [] inj = (0, omega arith, λ m. m)
  pigeonhole g (x ∷ xs) inj =
      let (k, low, out) = pigeonhole g xs (λ a b p q. inj a b (omega arith) (omega arith)) in
      let (j, low', out') =
        pigeonhole (λ i. g (skip k i)) xs
          (λ a b p q e.
            skip_inj k a b (inj _ _ (skip-le k a (length xs) p) (skip-le k b (length xs) q) e)) in
      elim (discrete (g k) x) [
        | no other ↦ (k, omega arith, λ m. elim m [ inl e ↦ other e | inr n ↦ out n ])
        | yes same ↦ (
          skip k j,
          skip-le k j (length xs) low',
          λ m. elim m [
            | inl e ↦ skip-ne k j (inj _ _ (skip-le k j (length xs) low') (omega arith) (cc))
            | inr n ↦ out' n
          ],
        )
      ]
