-- ===== src/Prelude/Stateful.antt =====
-- Code that reads and changes a state and may throw: what it changed before it throws stays.
use mathlib.Core.Path.{◌≡◌, refl}
use jaim.Prelude.Results.{Result, ok, err}

abbrev pub Act {ℓ} : Type ℓ → Type 0 → Type 0 → Type ℓ
Act S E A = S → Result E A × S

module _ {ℓ} {S : Type ℓ} {E : Type 0} where
  abbrev pub feed : {A B : Type 0} → Result E A × S → (A → Act S E B) → Result E B × S
  feed (ok a, s) f = f a s
  feed (err e, s) f = (err e, s)

  infixl 5 ◌>>=◌ ◌>>◌
  abbrev pub ◌>>=◌ : {A B : Type 0} → Act S E A → (A → Act S E B) → Act S E B
  ◌>>=◌ m f s = feed (m s) f

  abbrev pub ◌>>◌ : {B : Type 0} → Act S E (Unit {0}) → Act S E B → Act S E B
  m >> k = m >>= λ _. k

  abbrev pub pure : {A : Type 0} → A → Act S E A
  pure a s = (ok a, s)

  abbrev pub throw : {A : Type 0} → E → Act S E A
  throw e s = (err e, s)

  -- A value comes only from a first part that returns.
  pub feed-cases :
      {A B : Type 0} (r : Result E A × S) (f : A → Act S E B) (b : B) (s : S)
      → feed r f ≡ (ok b, s)
      → (a : A) × (t : S) × (r ≡ (ok a, t)) × (f a t ≡ (ok b, s))
  feed-cases (ok a, t) f b s e = (a, t, refl, e)
  feed-cases (err x, t) f b s e = cc
