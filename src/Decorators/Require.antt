-- ===== src/Decorators/Require.antt =====
-- `require` (walnats/decorators/_require.py), from the answers that the predicate gives.
pub mod Waiting
use walnats.Prelude.{ℕ, Bool, true, false, Option, none, some, List, [], ◌∷◌}
use walnats.Exceptions.{Result, ok, raise}
use walnats.Effects.{Act, ◌>>=◌, ◌>>◌, pure, perform}

pub data Effect : Type 0 where
  slept : ℕ → Effect
  called awaited : Effect

-- What a call of the handler gives: `None`, or an awaitable with the outcome of `await result`.
pub data Returned : Type 0 where
  no_result : Returned
  awaitable : Result (Unit {0}) → Returned

-- The wrapper calls the handler and awaits what it gives.
abbrev pub call_handler : Result Returned → Act Effect (Unit {0})
call_handler handled = perform called handled >>= λ result. elim result [
  | no_result ↦ pure tt
  | awaitable r ↦ perform awaited r
]

-- The wrapper, from the answers of `self.predicate()`, one for each call. `none` is a wrapper that still
-- waits after all answers.
unfoldable pub wrapper : ℕ → List (Result Bool) → Result Returned → Act Effect (Option (Unit {0}))
wrapper pause [] handled = pure none
wrapper pause (raise e ∷ answers) handled = (raise e, [])
wrapper pause (ok true ∷ answers) handled = call_handler handled >>= λ u. pure (some u)
wrapper pause (ok false ∷ answers) handled =
    perform (slept pause) (ok tt) >> wrapper pause answers handled
