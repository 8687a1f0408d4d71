-- ===== src/Middlewares/Frequency.antt =====
-- `FrequencyMiddleware` of walnats/middlewares/_wrappers.py. Times and the timeframe are natural
-- numbers of one unit, and `time.monotonic()` is the argument `now`.
pub mod Calls
pub mod Laws
use walnats.Prelude.{
  ℕ, ◌+◌, String, Option, none, some, List, [], ◌∷◌, ltb, contains, string_eq, if◌then◌else◌,
}
use walnats.Prelude.Dict.{Dict, lookup, insert, value_at}
use walnats.Exceptions.{class_name}
use walnats.Context.{Context, ErrorContext, OkContext}
use walnats.Middlewares.Base.{Middleware, actor_key}

pub record Frequency (S : Type 0) : Type 0 where
  pub inner : S
  pub timeframe : ℕ
  pub last_trigger_start : Dict ℕ
  pub last_trigger_ok : Dict ℕ
  pub last_trigger_err : Dict ℕ
  pub reported_errors : Dict (List String)

-- A set that is missing in the dict is read as the new one that `setdefault` stores.
unfoldable pub reported_at : String → Dict (List String) → List String
reported_at k d = elim (lookup k d) [ none ↦ [] | some errors ↦ errors ]

module _ {Bytes T Coro : Type 0} (M : Middleware Bytes T Coro) where
  abbrev State : Type 0
  State = Frequency M.State

  abbrev forward : (M.State → M.State × Option Coro) → State → State × Option Coro
  forward hook s = let r = hook s.inner in (record s { inner = r.0 }, r.1)

  unfoldable pub on_start : ℕ → Context Bytes T → State → State × Option Coro
  on_start now ctx s =
      let key = actor_key ctx.actor in
      if ltb (value_at key s.last_trigger_start + s.timeframe) now
      then forward (M.on_start ctx)
          (record s { last_trigger_start = insert key now s.last_trigger_start })
      else (s, none)

  unfoldable pub on_success : ℕ → OkContext Bytes T → State → State × Option Coro
  on_success now ctx s =
      let key = actor_key ctx.actor in
      if ltb (value_at key s.last_trigger_ok + s.timeframe) now
      then forward (M.on_success ctx)
          (record s { last_trigger_ok = insert key now s.last_trigger_ok })
      else (s, none)

  unfoldable pub on_failure : ℕ → ErrorContext Bytes T → State → State × Option Coro
  on_failure now ctx s =
      let key = actor_key ctx.actor in
      if ltb (value_at key s.last_trigger_err + s.timeframe) now
      then (let err = class_name ctx.exc in
          let errors = reported_at key s.reported_errors in
          let s' = record s {
            last_trigger_err = insert key now s.last_trigger_err;
            reported_errors = insert key errors s.reported_errors;
          } in
          if contains errors err
          then (record s' { reported_errors = insert key (err ∷ errors) s'.reported_errors }, none)
          else forward (M.on_failure ctx) s')
      else (s, none)
