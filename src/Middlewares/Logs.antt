-- ===== src/Middlewares/Logs.antt =====
-- walnats/middlewares/_middlewares.py: the context of the running job, and the two log middlewares.
pub mod Records
use walnats.Prelude.{
  ℕ, String, ◌<>◌, Bool, Option, none, some, List, [], ◌∷◌, if◌then◌else◌, nat_eq, ◌==◌, not,
}
use walnats.Exceptions.{Exc, exception, Result, ok, raise, class_name}
use walnats.Effects.{Act, pure}
use walnats.Context.{Context, ErrorContext, OkContext, attempts}
use walnats.Middlewares.Hooked.{Hooked}

module _ {Bytes T : Type 0} where
  -- `CurrentContextMiddleware`: the state is the value of `_context`.
  unfoldable pub current_context : {E : Type 0} → Hooked Bytes T (Option (Context Bytes T)) E
  current_context = record {
    start = λ ctx s. pure (some ctx);
    failure = λ ctx s. pure s;
    success = λ ctx s. pure s;
  }

  -- `context`
  unfoldable pub context : Option (Context Bytes T) → Result (Context Bytes T)
  context none = raise (exception "LookupError")
  context (some ctx) = ok ctx

-- The methods of a logger that are called: `debug`, and `exception`, which adds a traceback.
pub data Level : Type 0 where
  debug error : Level

-- Values of the fields of `extra`.
pub data Value : Type 0 where
  text : String → Value
  number : ℕ → Value

pub record LogRecord : Type 0 where
  pub level : Level
  pub message : String
  pub extra : List (String × Value)

-- A record of text alone.
abbrev plain : Level → String → List LogRecord
plain l m = record { level = l; message = m; extra = [] } ∷ []

module _ {Bytes T : Type 0} where
  -- `ExtraLogMiddleware`, for `str` of an exception.
  unfoldable pub extra_log : (Exc → String) → Hooked Bytes T (Unit {0}) LogRecord
  extra_log str = record {
    start = λ ctx s. (
      ok s,
      record {
        level = debug;
        message = "event received";
        extra =
            ("actor", text ctx.actor.name)
            ∷ (("event", text ctx.actor.event_name)
                ∷ (("attempt", number (attempts ctx.msg)) ∷ []));
      }
          ∷ [],
    );
    failure = λ ctx s. (
      ok s,
      record {
        level = error;
        message = "actor failed";
        extra =
            ("actor", text ctx.actor.name)
            ∷ (("event", text ctx.actor.event_name)
                ∷ (("attempt", number (attempts ctx.msg))
                    ∷ (("exc", text (str ctx.exc))
                        ∷ (("exc_type", text (class_name ctx.exc)) ∷ []))));
      }
          ∷ [],
    );
    success = λ ctx s. (
      ok s,
      record {
        level = debug;
        message = "event processed";
        extra =
            ("actor", text ctx.actor.name)
            ∷ (("event", text ctx.actor.event_name)
                ∷ (("attempt", number (attempts ctx.msg))
                    ∷ (("duration", number ctx.duration) ∷ [])));
      }
          ∷ [],
    );
  }

  -- `TextLogMiddleware`. The text on the attempt is no f-string: it has the name in its braces.
  unfoldable pub text_log : Hooked Bytes T (Unit {0}) LogRecord
  text_log = record {
    start = λ ctx s.
        let a = ctx.actor in
        let msg = "event " <> a.event_name <> ": received by " <> a.name in
        (
          ok s,
          plain debug (if not (attempts ctx.msg == 0) then msg <> " (attempt #{attempt})" else msg),
        );
    failure = λ ctx s.
        let a = ctx.actor in
        (ok s, plain error ("event " <> a.event_name <> ": actor " <> a.name <> " failed"));
    success = λ ctx s.
        let a = ctx.actor in
        (ok s, plain debug ("event " <> a.event_name <> ": processed by " <> a.name));
  }
