-- ===== src/Middlewares/Base.antt =====
-- The interface of a middleware (walnats/middlewares/_base.py).
use walnats.Prelude.{Option, String, ◌<>◌}
use walnats.Context.{Context, ErrorContext, OkContext, ActorNames}

-- A middleware object with the state that its hooks change. A hook returns a coroutine or `None`.
pub record Middleware (Bytes T Coro : Type 0) : Type 1 where
  pub State : Type 0
  pub on_start : Context Bytes T → State → State × Option Coro
  pub on_failure : ErrorContext Bytes T → State → State × Option Coro
  pub on_success : OkContext Bytes T → State → State × Option Coro

-- `f'{ctx.actor.event.name}.{ctx.actor.name}'`
abbrev pub actor_key : ActorNames → String
actor_key a = a.event_name <> "." <> a.name
