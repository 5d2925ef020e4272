-- ===== src/Prelude/Results.antt =====
-- Rust's `Result<A, E>`, and the chaining that `?` does.
use mathlib.Core.Path.{◌≡◌, refl}
use mathlib.Core.Logic.{◌⊎◌, inl, inr}

pub data Result {ℓ κ} (E : Type ℓ) (A : Type κ) : Type (ℓ ⊔ κ) where
  ok : A → Result E A
  err : E → Result E A

infixl 5 ◌>>=◌
abbrev pub ◌>>=◌ {ℓ κ ι} :
    {E : Type ℓ} {A : Type κ} {B : Type ι} → Result E A → (A → Result E B) → Result E B
ok a >>= f = f a
err e >>= f = err e

-- A state and a result: an error, or a value.
pub step_cases {ℓ κ ι} :
    {S : Type ℓ} {E : Type κ} {A : Type ι} (x : S × Result E A)
    → ((s : S) × (e : E) × (x ≡ (s, err e))) ⊎ ((s : S) × (a : A) × (x ≡ (s, ok a)))
step_cases (s, err e) = inl (s, e, refl)
step_cases (s, ok a) = inr (s, a, refl)
