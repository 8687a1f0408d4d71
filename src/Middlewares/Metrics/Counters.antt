-- ===== src/Middlewares/Metrics/Counters.antt =====
-- The calls that the metric middlewares make for the hooks of any messages.
use walnats.Prelude.{◌≡◌, ◌≤◌, refl, true, String, List, [], ◌∷◌, ◌++◌, arith, count_if, string_eq}
use walnats.Actors.Handle.{Hook, on_start, on_failure, on_success}
use walnats.Middlewares.Hooked.{Contexts, call_hook, call_each}
use walnats.Middlewares.Metrics.{statsd, PrometheusCall, observe, Metrics, prometheus}
use walnats.Middlewares.Metrics.Calls.{
  no_metrics, in_statsd, is_made, the_histogram, Apart, Does, get_histogram-Does, Does-bind,
  Does-plain, count_up-Does, none-Apart, held_once,
}

module _ {Bytes T : Type 0} where
  hook-Does :
      (ctx : Contexts Bytes T) (w : Hook) (m : Metrics)
      → Apart m
      → Does (call_hook statsd ctx w tt).1 m (call_hook (prometheus true) ctx w m)
  unfolding statsd prometheus
  hook-Does ctx on_start m a = count_up-Does "walnats_handler_started" ctx.at_start.actor m refl a
  hook-Does ctx on_failure m a =
      count_up-Does "walnats_handler_failed" ctx.at_failure.actor m refl a
  hook-Does ctx on_success m a =
      Does-bind _ _ m _ _ (count_up-Does "walnats_handler_succeeded" ctx.at_success.actor m refl a)
        (λ m' a'. Does-bind [] _ m' _ _ (get_histogram-Does m' a') (λ m'' a''.
          Does-plain
            (observe the_histogram ctx.at_success.actor.event_name ctx.at_success.actor.name
              ctx.at_success.duration)
            m'' (λ n. refl) a''))

  statsd_each :
      (c : Contexts Bytes T × Hook) (l : List (Contexts Bytes T × Hook))
      → (call_each statsd (c ∷ l) tt).1
        ≡ (call_hook statsd c.0 c.1 tt).1 ++ (call_each statsd l tt).1
  unfolding statsd
  statsd_each (ctx, on_start) l = refl
  statsd_each (ctx, on_failure) l = refl
  statsd_each (ctx, on_success) l = refl

  each-Does :
      (l : List (Contexts Bytes T × Hook)) (m : Metrics)
      → Apart m
      → Does (call_each statsd l tt).1 m (call_each (prometheus true) l m)
  each-Does [] m a = record {
    result = m;
    returns = refl;
    apart = a;
    registers = λ n. omega arith;
    says = refl;
  }
  each-Does (c ∷ l) m a = rw (statsd_each c l) (
      Does-bind _ _ m (call_hook (prometheus true) c.0 c.1 m) _ (hook-Does c.0 c.1 m a)
        (λ m' a'. each-Does l m' a'))

  abbrev pub prometheus_calls : List (Contexts Bytes T × Hook) → List PrometheusCall
  prometheus_calls l = (call_each (prometheus true) l no_metrics).1

  -- Over any hooks of any messages, Prometheus is told the same counts and durations in the same order
  -- as Statsd.
  pub metrics_agree :
      (l : List (Contexts Bytes T × Hook))
      → in_statsd (prometheus_calls l) ≡ (call_each statsd l tt).1
  metrics_agree l = (each-Does l no_metrics none-Apart).says

  -- Over any hooks of any messages, no metric is registered twice under its name.
  pub registered_once :
      (l : List (Contexts Bytes T × Hook)) (n : String)
      → count_if (is_made n) (prometheus_calls l) ≤ 1
  registered_once l n =
      let d = each-Does l no_metrics none-Apart in
      omega (arith, d.registers n, held_once n d.result d.apart)
