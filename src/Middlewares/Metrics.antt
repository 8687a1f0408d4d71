-- ===== src/Middlewares/Metrics.antt =====
-- `StatsdMiddleware` and `PrometheusMiddleware` of walnats/middlewares/_integrations.py.
pub mod Calls
pub mod Counters
use walnats.Prelude.{
  ℕ, String, ◌<>◌, Bool, true, false, List, [], ◌∷◌, contains, string_eq, if◌then◌else◌,
}
use walnats.Exceptions.{Result, exception, ok, raise}
use walnats.Effects.{Act, ◌>>=◌, pure}
use walnats.Context.{ActorNames, Context, ErrorContext, OkContext}
use walnats.Middlewares.Base.{actor_key}
use walnats.Middlewares.Hooked.{Hooked}

-- Calls of the Datadog client.
pub data StatsdCall : Type 0 where
  increment : String → StatsdCall
  histogram : String → ℕ → StatsdCall

-- `f'walnats.{ctx.actor.event.name}.{ctx.actor.name}.…'`
abbrev pub statsd_key : ActorNames → String → String
statsd_key a kind = "walnats." <> actor_key a <> "." <> kind

module _ {Bytes T : Type 0} where
  unfoldable pub statsd : Hooked Bytes T (Unit {0}) StatsdCall
  statsd = record {
    start = λ ctx s. (ok s, increment (statsd_key ctx.actor "started") ∷ []);
    failure = λ ctx s. (ok s, increment (statsd_key ctx.actor "failed") ∷ []);
    success = λ ctx s. (
      ok s,
      increment (statsd_key ctx.actor "processed")
          ∷ (histogram (statsd_key ctx.actor "duration") ctx.duration ∷ []),
    );
  }

-- Calls of `prometheus_client`: a metric is registered under its name when it is made, `inc` and
-- `observe` are those of its child with the labels.
pub data PrometheusCall : Type 0 where
  counter_made histogram_made : String → PrometheusCall
  inc : String → (event agent : String) → PrometheusCall
  observe : String → (event agent : String) → ℕ → PrometheusCall

-- The names in the caches of the two functions that make metrics.
pub record Metrics : Type 0 where
  pub counters : List String
  pub histograms : List String

-- `_get_prometheus_counter` under its cache, which holds more names than there are. The first
-- argument is whether `prometheus_client` is installed. A raised exception is not cached.
get_counter : Bool → String → Metrics → Act PrometheusCall Metrics
get_counter installed name m =
    if contains m.counters name
    then pure m
    else if installed
    then (ok (record m { counters = name ∷ m.counters }), counter_made name ∷ [])
    else (raise (exception "ImportError"), [])

-- `_get_prometheus_histogram`
pub get_histogram : Bool → String → Metrics → Act PrometheusCall Metrics
get_histogram installed name m =
    if contains m.histograms name
    then pure m
    else if installed
    then (ok (record m { histograms = name ∷ m.histograms }), histogram_made name ∷ [])
    else (raise (exception "ImportError"), [])

-- `_get_prometheus_counter(…).labels(…).inc()`
pub count_up : Bool → String → ActorNames → Metrics → Act PrometheusCall Metrics
unfolding get_counter
count_up installed name a m =
    get_counter installed name m >>= λ m'. (ok m', inc name a.event_name a.name ∷ [])

module _ {Bytes T : Type 0} where
  unfoldable pub prometheus : Bool → Hooked Bytes T Metrics PrometheusCall
  unfolding count_up get_histogram
  prometheus installed = record {
    start = λ ctx m. count_up installed "walnats_handler_started" ctx.actor m;
    failure = λ ctx m. count_up installed "walnats_handler_failed" ctx.actor m;
    success = λ ctx m. count_up installed "walnats_handler_succeeded" ctx.actor m >>= λ m'.
        get_histogram installed "walnats_handler_duration" m' >>= λ m''. (
          ok m'',
          observe "walnats_handler_duration" ctx.actor.event_name ctx.actor.name ctx.duration ∷ [],
        );
  }
