-- ===== src/Middlewares/Sentry.antt =====
-- `SentryMiddleware` of walnats/middlewares/_integrations.py.
use walnats.Prelude.{ℕ, String, Bool, [], ◌∷◌, if◌then◌else◌}
use walnats.Exceptions.{Exc, exception, ok, raise}
use walnats.Effects.{Act, pure}
use walnats.Context.{Msg, seq_number}
use walnats.Middlewares.Hooked.{Hooked}

-- Calls of `sentry_sdk`, with their tags and extras.
pub data SentryCall : Type 0 where
  ignore_logger : String → SentryCall
  capture_exception :
      Exc → (actor event : String) → (stream_seq_id : ℕ) → (delivered_at : String) → SentryCall

-- `__init__`, which imports of the package.
unfoldable pub new : Bool → Act SentryCall (Unit {0})
new installed =
    if installed
    then (ok tt, ignore_logger "walnats.actor" ∷ [])
    else (raise (exception "ImportError"), [])

module _ {Bytes T : Type 0} where
  -- `timestamp` is `str(ctx.metadata.timestamp)`.
  unfoldable pub sentry :
      Bool → (timestamp : Msg Bytes → String) → Hooked Bytes T (Unit {0}) SentryCall
  sentry installed timestamp = record {
    start = λ ctx s. pure s;
    failure = λ ctx s.
        if installed
        then (
          ok s,
          capture_exception ctx.exc ctx.actor.name ctx.actor.event_name (seq_number ctx.msg)
                (timestamp ctx.msg)
              ∷ [],
        )
        else (raise (exception "AssertionError"), []);
    success = λ ctx s. pure s;
  }
