-- ===== src/Middlewares/Traces/Spans.antt =====
-- The spans of one message, over the hooks that `_handle_message` calls.
use walnats.Prelude.{
  ℕ, ap, ◌≡◌, ◌+◌, refl, Bool, true, false, Option, List, [], ◌∷◌, count_if, length, none, ◌++◌,
}
use walnats.Exceptions.{exception, cancelled, base, Exc, ok}
use walnats.Effects.{Act}
use walnats.Actors.Handle.{Hook, on_start, on_failure, on_success, Job, handle_message}
use walnats.Actors.Handle.Lifecycle.{hooks_of}
use walnats.Actors.Handle.Lifecycle.Order.{
  IsLifecycle, unseen, only_started, only_failed, start_failed, start_succeeded,
  handle_message-IsLifecycle,
}
use walnats.Middlewares.Hooked.{Contexts, call_hooks}
use walnats.Middlewares.Traces.{
  SpanCall, started, opened, finished, ended, Zipkin, OpenTelemetry, zipkin, open_telemetry,
  record_failure, open_span,
}

abbrev is_start : Hook → Bool
is_start on_start = true
is_start on_failure = false
is_start on_success = false

-- The hooks that follow a start.
abbrev after_start : List Hook → ℕ
after_start [] = 0
after_start (on_start ∷ l) = length l
after_start (on_failure ∷ l) = after_start l
after_start (on_success ∷ l) = after_start l

module _ {Span : Type 0} where
  abbrev opens : SpanCall Span → Bool
  opens (started span) = true
  opens (opened span n k e) = true
  opens _ = false

  abbrev closes : SpanCall Span → Bool
  closes (finished span e) = true
  closes (ended span) = true
  closes _ = false

  -- Hooks that raise nothing, open a span for a start, and close it for a hook that follows.
  pub record Traced (l : List Hook) (m : Act (SpanCall Span) (Option Span)) : Type 0 where
    pub result : Option Span
    pub returns : m.0 ≡ ok result
    pub opened_at_start : count_if opens m.1 ≡ count_if is_start l
    pub closed_at_end : count_if closes m.1 ≡ after_start l

  failure_closes :
      (span : Span) (e : Exc)
      → (count_if opens ((record_failure span e ++ (ended span ∷ [])) ++ []) ≡ 0)
        × (count_if closes ((record_failure span e ++ (ended span ∷ [])) ++ []) ≡ 1)
  unfolding record_failure
  failure_closes span (exception e) = (refl, refl)
  failure_closes span cancelled = (refl, refl)
  failure_closes span (base e) = (refl, refl)

module _ {Bytes T Span TraceContext : Type 0} (ctx : Contexts Bytes T) where
  zipkin-Traced :
      (z : Zipkin TraceContext Span) (l : List Hook)
      → IsLifecycle l
      → Traced l (call_hooks (zipkin z) ctx l none)
  unfolding zipkin
  zipkin-Traced z l unseen = record {
    result = _;
    returns = refl;
    opened_at_start = refl;
    closed_at_end = refl;
  }
  zipkin-Traced z l only_started = record {
    result = _;
    returns = refl;
    opened_at_start = refl;
    closed_at_end = refl;
  }
  zipkin-Traced z l only_failed = record {
    result = _;
    returns = refl;
    opened_at_start = refl;
    closed_at_end = refl;
  }
  zipkin-Traced z l start_failed = record {
    result = _;
    returns = refl;
    opened_at_start = refl;
    closed_at_end = refl;
  }
  zipkin-Traced z l start_succeeded = record {
    result = _;
    returns = refl;
    opened_at_start = refl;
    closed_at_end = refl;
  }

  open_telemetry-Traced :
      (o : OpenTelemetry TraceContext Span) (l : List Hook)
      → IsLifecycle l
      → Traced l (call_hooks (open_telemetry o) ctx l none)
  unfolding open_telemetry
  open_telemetry-Traced o l unseen = record {
    result = _;
    returns = refl;
    opened_at_start = refl;
    closed_at_end = refl;
  }
  open_telemetry-Traced o l only_started = record {
    result = _;
    returns = refl;
    opened_at_start = refl;
    closed_at_end = refl;
  }
  open_telemetry-Traced o l only_failed = record {
    result = _;
    returns = refl;
    opened_at_start = refl;
    closed_at_end = refl;
  }
  open_telemetry-Traced o l start_failed = record {
    result = _;
    returns = refl;
    opened_at_start =
        ap (λ n. 1 + n) (failure_closes (open_span o ctx.at_start) ctx.at_failure.exc).0;
    closed_at_end =
        ap (λ n. 0 + n) (failure_closes (open_span o ctx.at_start) ctx.at_failure.exc).1;
  }
  open_telemetry-Traced o l start_succeeded = record {
    result = _;
    returns = refl;
    opened_at_start = refl;
    closed_at_end = refl;
  }

  module _ {R : Type 0} (i : ℕ) (j : Job Bytes T R) where
    -- The handling of a message makes the hooks of a Zipkin middleware raise nothing, start a span
    -- exactly if the middleware was told the start of the handler, and finish it exactly if it was
    -- told a failure or a success after that.
    pub zipkin_spans :
        (z : Zipkin TraceContext Span)
        → Traced
            (hooks_of i (handle_message j).1)
            (call_hooks (zipkin z) ctx (hooks_of i (handle_message j).1) none)
    zipkin_spans z = zipkin-Traced z _ (handle_message-IsLifecycle i j)

    -- The same holds for the spans of an OpenTelemetry middleware.
    pub open_telemetry_spans :
        (o : OpenTelemetry TraceContext Span)
        → Traced
            (hooks_of i (handle_message j).1)
            (call_hooks (open_telemetry o) ctx (hooks_of i (handle_message j).1) none)
    open_telemetry_spans o = open_telemetry-Traced o _ (handle_message-IsLifecycle i j)
