-- ===== src/Exceptions.antt =====
-- Python exceptions as values, and the monad of code that may raise one.

-- `exception` is a subclass of `Exception`, by the name of its class; `cancelled` is
-- `asyncio.CancelledError`; `base` is any other `BaseException`, such as `KeyboardInterrupt`.
use walnats.Prelude.{String, ◌≡◌, refl, ◌⊎◌, inl, inr}

pub data Exc : Type 0 where
  exception : String → Exc
  cancelled : Exc
  base : String → Exc

pub data Result {ℓ} (A : Type ℓ) : Type ℓ where
  ok : A → Result A
  raise : Exc → Result A

infixl 5 ◌>>=◌
abbrev pub ◌>>=◌ {ℓ κ} : {B : Type ℓ} {C : Type κ} → Result B → (B → Result C) → Result C
raise x >>= rest = raise x
ok b >>= rest = rest b

-- `type(exc).__name__`
abbrev pub class_name : Exc → String
class_name (exception n) = n
class_name cancelled = "CancelledError"
class_name (base n) = n

pub Result-cases {ℓ} :
    {A : Type ℓ} (r : Result A) → ((a : A) × (r ≡ ok a)) ⊎ ((e : Exc) × (r ≡ raise e))
Result-cases (ok a) = inl (a, refl)
Result-cases (raise e) = inr (e, refl)

-- A chain that succeeds has a first step that succeeds, and the rest does from its value.
pub >>=-eq-ok {ℓ κ} :
    {B : Type ℓ} {C : Type κ} {c : C} (first : Result B) (rest : B → Result C)
    → (first >>= rest) ≡ ok c
    → (b : B) × (first ≡ ok b) × (rest b ≡ ok c)
>>=-eq-ok (raise x) rest ends = cc
>>=-eq-ok (ok b) rest ends = (b, refl, ends)

pub ok-injective {ℓ} : {A : Type ℓ} {a b : A} → ok a ≡ ok b → a ≡ b
ok-injective h = cc
