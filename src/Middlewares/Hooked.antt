-- ===== src/Middlewares/Hooked.antt =====
-- The hooks of one middleware on one message, one after the other.
use walnats.Prelude.{List, [], ◌∷◌}
use walnats.Effects.{Act, ◌>>=◌, pure}
use walnats.Context.{Context, ErrorContext, OkContext}
use walnats.Actors.Handle.{Hook, on_start, on_failure, on_success}

-- The contexts that the hooks are given.
pub record Contexts (Bytes T : Type 0) : Type 0 where
  pub at_start : Context Bytes T
  pub at_failure : ErrorContext Bytes T
  pub at_success : OkContext Bytes T

-- A middleware with a state, its three hooks with their effects.
pub record Hooked (Bytes T S E : Type 0) : Type 0 where
  pub start : Context Bytes T → S → Act E S
  pub failure : ErrorContext Bytes T → S → Act E S
  pub success : OkContext Bytes T → S → Act E S

module _ {Bytes T S E : Type 0} (m : Hooked Bytes T S E) (ctx : Contexts Bytes T) where
  abbrev pub call_hook : Hook → S → Act E S
  call_hook on_start s = m.start ctx.at_start s
  call_hook on_failure s = m.failure ctx.at_failure s
  call_hook on_success s = m.success ctx.at_success s

  abbrev pub call_hooks : List Hook → S → Act E S
  call_hooks [] s = pure s
  call_hooks (w ∷ l) s = call_hook w s >>= call_hooks l

module _ {Bytes T S E : Type 0} (m : Hooked Bytes T S E) where
  -- Hooks of several messages, in the order in which they are called.
  abbrev pub call_each : List (Contexts Bytes T × Hook) → S → Act E S
  call_each [] s = pure s
  call_each (c ∷ l) s = call_hook m c.0 c.1 s >>= call_each l
