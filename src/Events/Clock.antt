-- ===== src/Events/Clock.antt =====
-- `Clock` (walnats/_events/_clock.py). Times are natural numbers of milliseconds, so `.001` is 1; the
-- text of a float is a parameter.
pub mod Ticks
use walnats.Prelude.{
  ℕ, String, ◌+◌, ◌-◌, ◌*◌, ◌%◌, Bool, Option, none, some, List, [], ◌∷◌, ◌++◌, if◌then◌else◌,
}
use walnats.Prelude.Dict.{Dict}

-- The period is in milliseconds.
pub record Clock : Type 0 where
  pub event : String
  pub meta : Option (Dict String)
  pub period : ℕ

-- What `run` does: sleeps, starts a task that emits the time with an ID and the meta headers, waits for
-- the tasks, and cancels them.
pub data Tick : Type 0 where
  slept : ℕ → Tick
  emitted : ℕ → String → Option (Dict String) → Tick
  waited : Tick
  cancelled : Tick

-- The delay of `_wait` at a moment.
unfoldable pub wait_delay : ℕ → ℕ → ℕ
wait_delay period now = period - now % period + 1

-- The ID of the message of `_emit` at a moment.
unfoldable pub emit_uid : (ℕ → String) → ℕ → ℕ → String
emit_uid str_float period now = str_float (now % period)

-- A round of the loop: the moment at which the wait begins, and the one at which it is over.
abbrev pub Round : Type 0
Round = ℕ × ℕ

unfoldable pub tick : (ℕ → String) → Clock → Round → List Tick
unfolding wait_delay emit_uid
tick str_float c r =
    slept (wait_delay c.period r.0) ∷ emitted r.1 (emit_uid str_float c.period r.1) c.meta ∷ []

rounds_of : (ℕ → String) → Clock → List Round → List Tick
rounds_of str_float c [] = []
rounds_of str_float c (r ∷ rs) = tick str_float c r ++ rounds_of str_float c rs

-- `run` over the first round and those that follow until it is cancelled.
unfoldable pub run : (ℕ → String) → Clock → Bool → Round → List Round → List Tick
unfolding tick rounds_of
run str_float c burst r rs =
    if burst
    then tick str_float c r ++ (waited ∷ cancelled ∷ [])
    else rounds_of str_float c (r ∷ rs) ++ (cancelled ∷ [])
