-- ===== src/Middlewares/Threshold.antt =====
-- `ErrorThresholdMiddleware` of walnats/middlewares/_wrappers.py.
pub mod Laws
use walnats.Prelude.{ℕ, ◌+◌, String, Option, none, some, ltb, if◌then◌else◌}
use walnats.Prelude.Dict.{Dict, lookup, insert, erase, value_at}
use walnats.Context.{Context, ErrorContext, OkContext, attempts}
use walnats.Middlewares.Base.{Middleware, actor_key}

pub record ErrorThreshold (S : Type 0) : Type 0 where
  pub inner : S
  pub total_failures : ℕ
  pub actor_failures : ℕ
  pub message_failures : ℕ
  pub overall : ℕ
  pub per_actor : Dict ℕ

-- `d.setdefault(k, 0)`: the dict that it leaves.
unfoldable pub setdefault : String → Dict ℕ → Dict ℕ
setdefault k d = elim (lookup k d) [ none ↦ insert k 0 d | some v ↦ d ]

module _ {Bytes T Coro : Type 0} (M : Middleware Bytes T Coro) where
  abbrev State : Type 0
  State = ErrorThreshold M.State

  -- A hook of the wrapped middleware, called on its own state.
  abbrev forward : (M.State → M.State × Option Coro) → State → State × Option Coro
  forward hook s = let r = hook s.inner in (record s { inner = r.0 }, r.1)

  unfoldable pub on_start : Context Bytes T → State → State × Option Coro
  on_start ctx s = forward (M.on_start ctx) s

  unfoldable pub on_success : OkContext Bytes T → State → State × Option Coro
  on_success ctx s =
      forward (M.on_success ctx)
        (record s { overall = 0; per_actor = erase (actor_key ctx.actor) s.per_actor })

  unfoldable pub on_failure : ErrorContext Bytes T → State → State × Option Coro
  on_failure ctx s =
      let key = actor_key ctx.actor in
      if ltb s.total_failures s.overall
      then forward (M.on_failure ctx) s
      else let s' = record s { per_actor = setdefault key s.per_actor } in
        let n = value_at key s'.per_actor in
        if ltb s.actor_failures n
        then forward (M.on_failure ctx) s'
        else if ltb s.message_failures (attempts ctx.msg)
        then forward (M.on_failure ctx) s'
        else (
          record s' { overall = s.overall + 1; per_actor = insert key (n + 1) s'.per_actor },
          none,
        )
