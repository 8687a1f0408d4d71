-- ===== src/Decorators/Require/Waiting.antt =====
-- When `require` lets the handler run.
use walnats.Prelude.{ℕ, zero, suc, ◌≡◌, refl, Bool, true, false, some, List, ◌∷◌}
use walnats.Exceptions.{Result, ok}
use walnats.Effects.{◌>>=◌, pure}
use walnats.Decorators.Require.{slept, Returned, wrapper, call_handler}

-- The same item so many times before the rest.
abbrev pub repeat {ℓ} : {A : Type ℓ} → ℕ → A → List A → List A
repeat zero x xs = xs
repeat (suc n) x xs = x ∷ repeat n x xs

-- If the predicate is false n times and then true, the wrapper sleeps n times and then does what the
-- handler does, once, with its outcome, whatever the predicate would answer later.
pub require_waits :
    (pause n : ℕ) (later : List (Result Bool)) (handled : Result Returned)
    → wrapper pause (repeat n (ok false) (ok true ∷ later)) handled ≡ (
      (call_handler handled >>= λ u. pure (some u)).0,
      repeat n (slept pause) (call_handler handled >>= λ u. pure (some u)).1,
    )
unfolding wrapper
require_waits pause zero later handled = refl
require_waits pause (suc n) later handled = rw (require_waits pause n later handled) refl
