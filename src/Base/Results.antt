-- ===== src/Base/Results.antt =====
-- A Go result (value, error): the value where the error is nil, else the error.
pub data Outcome {ℓ κ} (E : Type ℓ) (A : Type κ) : Type (ℓ ⊔ κ) where
  ok : A → Outcome E A
  err : E → Outcome E A
