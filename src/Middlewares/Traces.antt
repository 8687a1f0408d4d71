-- ===== src/Middlewares/Traces.antt =====
-- `ZipkinMiddleware` and `OpenTelemetryTraceMiddleware` of walnats/middlewares/_integrations.py. The
-- state is the value of `_span` in the context of the task that handles the message.
pub mod Spans
use walnats.Prelude.{String, Option, none, some, List, [], ◌∷◌, ◌++◌}
use walnats.Exceptions.{Exc, exception, cancelled, base, ok, raise}
use walnats.Effects.{Act}
use walnats.Context.{Context, ErrorContext, OkContext, trace_id}
use walnats.Middlewares.Hooked.{Hooked}

-- Calls on a span, with their arguments. `opened` is `tracer.start_span` of OpenTelemetry.
pub data SpanCall (Span : Type 0) : Type 0 where
  named kind_set : Span → String → SpanCall Span
  tagged : Span → String → String → SpanCall Span
  started ended : Span → SpanCall Span
  opened : Span → (name kind event : String) → SpanCall Span
  recorded : Span → Exc → SpanCall Span
  finished : Span → Option Exc → SpanCall Span

-- What the middleware takes of its `aiozipkin` tracer: `_next_context` for its `sampled`, `_replace`
-- of the trace identifier, and `to_span`.
pub record Zipkin (TraceContext Span : Type 0) : Type 0 where
  pub next_context : TraceContext
  pub replace_trace_id : TraceContext → String → TraceContext
  pub to_span : TraceContext → Span

-- What the middleware takes of OpenTelemetry: `extract` of a carrier with a `traceparent`, and the
-- span that `start_span` gives in a context.
pub record OpenTelemetry (TraceContext Span : Type 0) : Type 0 where
  pub extract : String → TraceContext
  pub start_span : Option TraceContext → Span

module _ {Span : Type 0} where
  -- `assert span is not None`, with the calls that follow.
  with_span : Option Span → (Span → List (SpanCall Span)) → Act (SpanCall Span) (Option Span)
  with_span none calls = (raise (exception "AssertionError"), [])
  with_span (some span) calls = (ok (some span), calls span)

  -- `if span is not None`, with the calls that follow.
  if_span : Option Span → (Span → List (SpanCall Span)) → Act (SpanCall Span) (Option Span)
  if_span none calls = (ok none, [])
  if_span (some span) calls = (ok (some span), calls span)

-- `span.record_exception(ctx.exception)`, unless it is `asyncio.CancelledError`.
record_failure : {Span : Type 0} → Span → Exc → List (SpanCall Span)
record_failure span cancelled = []
record_failure span (exception e) = recorded span (exception e) ∷ []
record_failure span (base e) = recorded span (base e) ∷ []

module _ {Bytes T TraceContext Span : Type 0} where
  zipkin_span : Zipkin TraceContext Span → Context Bytes T → Span
  zipkin_span z ctx = elim (trace_id ctx.msg) [
    | none ↦ z.to_span z.next_context
    | some t ↦ z.to_span (z.replace_trace_id z.next_context t)
  ]

  unfoldable pub zipkin : Zipkin TraceContext Span → Hooked Bytes T (Option Span) (SpanCall Span)
  unfolding zipkin_span with_span if_span
  zipkin z = record {
    start = λ ctx s.
        let span = zipkin_span z ctx in
        (
          ok (some span),
          named span ctx.actor.name
              ∷ (tagged span "event" ctx.actor.event_name
                  ∷ (kind_set span "CONSUMER" ∷ (started span ∷ []))),
        );
    failure = λ ctx s. if_span s (λ span. finished span (some ctx.exc) ∷ []);
    success = λ ctx s. with_span s (λ span. finished span none ∷ []);
  }

  open_span : OpenTelemetry TraceContext Span → Context Bytes T → Span
  open_span o ctx =
      o.start_span (elim (trace_id ctx.msg) [ none ↦ none | some t ↦ some (o.extract t) ])

  unfoldable pub open_telemetry :
      OpenTelemetry TraceContext Span → Hooked Bytes T (Option Span) (SpanCall Span)
  unfolding with_span if_span record_failure open_span
  open_telemetry o = record {
    start = λ ctx s.
        let span = open_span o ctx in
        (ok (some span), opened span ctx.actor.name "CONSUMER" ctx.actor.event_name ∷ []);
    failure = λ ctx s. if_span s (λ span. record_failure span ctx.exc ++ (ended span ∷ []));
    success = λ ctx s. with_span s (λ span. ended span ∷ []);
  }
