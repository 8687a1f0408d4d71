-- ===== src/Decorators/Suppress.antt =====
-- `suppress` (walnats/decorators/_suppress.py).
pub mod Outcome
use walnats.Prelude.{Bool, true, false, List, [], ◌∷◌, ◌++◌, if◌then◌else◌}
use walnats.Exceptions.{Exc, Result, ok, raise}
use walnats.Effects.{Act, ◌>>=◌, pure}

-- A record of the logger.
pub data Log : Type 0 where
  suppressed : Log

-- What a handler that is not a coroutine function gives: `None`, or an awaitable.
pub data Returned : Type 0 where
  no_result : Returned
  awaitable : Act Log (Unit {0}) → Returned

-- `asyncio.iscoroutinefunction` tells the two kinds of handlers apart.
pub data Handler (T : Type 0) : Type 0 where
  coroutine_function : (T → Act Log (Unit {0})) → Handler T
  function : (T → Act Log Returned) → Handler T

-- `isinstance(exc, self._excs)`, and whether there is a logger.
pub record Suppress : Type 0 where
  pub catches : Exc → Bool
  pub has_logger : Bool

-- `_log`
log : Suppress → List Log
log s = if s.has_logger then suppressed ∷ [] else []

-- `try: return await ... except self._excs: self._log(handler)`, in `_bind_async` and `_wrap_awaitable`.
unfoldable pub excepting : Suppress → Act Log (Unit {0}) → Act Log (Unit {0})
unfolding log
excepting s m = elim m.0 [ ok u ↦ m | raise e ↦ if s.catches e then (ok tt, m.1 ++ log s) else m ]

-- The wrapper of `_bind_sync`, from the call of the handler.
bind_sync : Suppress → Act Log Returned → Act Log Returned
unfolding excepting
bind_sync s m = elim m.0 [
  | raise e ↦ if s.catches e then (ok no_result, m.1 ++ log s) else m
  | ok no_result ↦ m
  | ok (awaitable a) ↦ (ok (awaitable (excepting s a)), m.1)
]

module _ {T : Type 0} where
  -- `__call__`
  unfoldable pub suppress : Suppress → Handler T → Handler T
  unfolding bind_sync
  suppress s (coroutine_function f) = coroutine_function (λ event. excepting s (f event))
  suppress s (function f) = function (λ event. bind_sync s (f event))

  abbrev pub is_coroutine_function : Handler T → Bool
  is_coroutine_function (coroutine_function f) = true
  is_coroutine_function (function f) = false

  -- What an actor does with a handler: it calls it, and awaits what is awaitable.
  abbrev pub outcome : Handler T → T → Act Log (Unit {0})
  outcome (coroutine_function f) event = f event
  outcome (function f) event = f event >>= λ r. elim r [ no_result ↦ pure tt | awaitable a ↦ a ]
