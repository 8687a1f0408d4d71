-- ===== src/Effects.antt =====
-- Code with effects: the result, or the exception, with the trace of what was done before.
use walnats.Prelude.{List, [], ◌∷◌, ◌++◌}
use walnats.Exceptions.{Result, ok, raise}

abbrev pub Act {ℓ κ} : Type ℓ → Type κ → Type (ℓ ⊔ κ)
Act E A = Result A × List E

module _ {ℓ κ} {E : Type ℓ} {A : Type κ} where
  abbrev pub pure : A → Act E A
  pure a = (ok a, [])

  -- An effect that happens, with its outcome.
  abbrev pub perform : E → Result A → Act E A
  perform e r = (r, e ∷ [])

module _ {ℓ κ ι} {E : Type ℓ} {A : Type κ} {B : Type ι} where
  infixl 5 ◌>>=◌
  abbrev pub ◌>>=◌ : Act E A → (A → Act E B) → Act E B
  m >>= f = elim m.0 [ ok a ↦ ((f a).0, m.1 ++ (f a).1) | raise e ↦ (raise e, m.1) ]

infixl 5 ◌>>◌
abbrev pub ◌>>◌ {ℓ ι} : {E : Type ℓ} {B : Type ι} → Act E (Unit {0}) → Act E B → Act E B
m >> n = m >>= λ _. n
