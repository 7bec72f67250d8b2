-- ===== src/Shared/Result.antt =====
-- packages/core/src/shared/result.ts: a value or a typed failure.

pub data Result {ℓ κ} (A : Type ℓ) (E : Type κ) : Type (ℓ ⊔ κ) where
  ok : A → Result A E
  err : E → Result A E
