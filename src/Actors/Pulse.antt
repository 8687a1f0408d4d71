-- ===== src/Actors/Pulse.antt =====
-- `Actor._pulse` (walnats/_actors/_actor.py), from the outcomes of its rounds until it is cancelled.
pub mod Signals
use walnats.Prelude.{ℕ, List, [], ◌∷◌}
use walnats.Exceptions.{Result, cancelled, raise}
use walnats.Effects.{Act, ◌>>◌, perform}

-- `slept` is for half of `ack_wait`, which is given in half units.
pub data Effect : Type 0 where
  slept : ℕ → Effect
  in_progress : Effect

-- Each round is the outcome of the sleep and that of the call; a loop that is cut is cancelled.
unfoldable pub pulse :
    (half_wait : ℕ) → List (Result (Unit {0}) × Result (Unit {0})) → Act Effect (Unit {0})
pulse half_wait [] = (raise cancelled, [])
pulse half_wait (r ∷ rs) =
    let rest = pulse half_wait rs in
    perform (slept half_wait) r.0 >> (perform in_progress r.1 >> rest)
