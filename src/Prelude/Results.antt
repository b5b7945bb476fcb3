-- ===== src/Prelude/Results.antt =====
-- Results of code that may throw, with the bind that do blocks use.

-- `err e` is a thrown exception.
pub data Result {ℓ κ} (E : Type ℓ) (A : Type κ) : Type (ℓ ⊔ κ) where
  err : E → Result E A
  ok : A → Result E A

infixl 5 ◌>>=◌
abbrev pub ◌>>=◌ {ℓ κ μ} :
    {E : Type ℓ} {A : Type κ} {B : Type μ} → Result E A → (A → Result E B) → Result E B
◌>>=◌ (err thrown) next = err thrown
◌>>=◌ (ok value) next = next value
