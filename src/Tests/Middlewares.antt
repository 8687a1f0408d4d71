-- ===== src/Tests/Middlewares.antt =====
-- The theorems about walnats/middlewares at concrete histories.
use walnats.Prelude.{
  ℕ, String, ◌+◌, ◌≡◌, refl, ltb, if◌then◌else◌, none, some, List, [], ◌∷◌, arith,
}
use walnats.Prelude.Dict.{lookup, insert, erase, value_at}
use walnats.Exceptions.{exception}
use walnats.Context.{Msg, ActorNames, ErrorContext, OkContext, attempts, get_header}
use walnats.Middlewares.Base.{Middleware}
use walnats.Middlewares.Threshold
use walnats.Middlewares.Threshold.Laws as Counters
use walnats.Middlewares.Frequency
use walnats.Middlewares.Frequency.Calls as Watched
use walnats.Middlewares.Frequency.Laws as Rate
use walnats.Actors.Handle.{Hook, on_start, on_failure, on_success}
use walnats.Middlewares.Hooked.{Contexts, call_each}
use walnats.Middlewares.Metrics.{statsd}
use walnats.Middlewares.Metrics.Calls.{in_statsd}
use walnats.Middlewares.Metrics.Counters.{prometheus_calls, metrics_agree}

abbrev names : ActorNames
names = record { name = "mail"; event_name = "signup" }

abbrev msg : Msg ℕ
msg = record { num_delivered = some 1; sequence = none; headers = none; payload = 0 }

abbrev failure : ErrorContext ℕ ℕ
failure = record { actor = names; msg = msg; message = none; exc = exception "OSError" }

abbrev success : OkContext ℕ ℕ
success = record { actor = names; msg = msg; message = 3; duration = 1 }

-- A middleware that counts its calls and names the hook.
abbrev counter : Middleware ℕ ℕ String
counter = record {
  State = ℕ;
  on_start = λ c n. (n + 1, some "start");
  on_failure = λ c n. (n + 1, some "failure");
  on_success = λ c n. (n + 1, some "success");
}

-- One failure after a success, then another.
abbrev history : List (Counters.Call ℕ ℕ)
history = Counters.failed failure ∷ Counters.failed failure ∷ Counters.succeeded success ∷ []

alert_exact_example :
    (Threshold.on_failure counter failure (Counters.run counter (Counters.fresh 0 1 5 5) history)).1
    ≡ some "failure"
unfolding attempts get_header
alert_exact_example = Counters.alert_exact counter 0 1 5 5 history failure (omega arith)

-- The third failure after a success is reported, if two may accumulate.
threshold_run :
    (Threshold.on_failure counter failure (Counters.run counter (Counters.fresh 0 1 5 5) history)).1
    ≡ some "failure"
unfolding Threshold.on_failure Threshold.on_success Threshold.setdefault value_at lookup insert
    erase attempts get_header
threshold_run = refl

-- Calls of two hooks, the newest first.
abbrev calls : List (ℕ × Watched.Call ℕ ℕ)
calls =
    (1500, Watched.fails failure)
    ∷ (900, Watched.fails failure)
    ∷ (800, Watched.succeeds success)
    ∷ (700, Watched.fails failure)
    ∷ []

answers : Watched.Answers counter
answers = record { at_start = λ c n e. cc; at_failure = λ c n e. cc; at_success = λ c n e. cc }

-- The failure at 1500 comes more than 600 after the alert at 700, and the one at 900 gave none.
alerts_run : Rate.alerts counter 0 600 on_failure "signup.mail" calls ≡ 1500 ∷ 700 ∷ []
unfolding Watched.call Frequency.on_start Frequency.on_failure Frequency.on_success value_at lookup
    insert Frequency.reported_at
alerts_run = refl

alerts_exact_example :
    Rate.alerts counter 0 600 on_failure "signup.mail" ((1600, Watched.fails failure) ∷ calls) ≡ (
      let alerted = Rate.alerts counter 0 600 on_failure "signup.mail" calls in
      if ltb (Rate.head_or 0 alerted + 600) 1600 then 1600 ∷ alerted else alerted)
alerts_exact_example = Rate.alerts_exact counter 0 600 answers calls 1600 (Watched.fails failure)

abbrev told : Contexts ℕ ℕ
told = record {
  at_start = record { actor = names; msg = msg; message = 3 };
  at_failure = failure;
  at_success = success;
}

abbrev two_messages : List (Contexts ℕ ℕ × Hook)
two_messages = (told, on_start) ∷ (told, on_failure) ∷ (told, on_start) ∷ (told, on_success) ∷ []

metrics_agree_example :
    in_statsd (prometheus_calls two_messages) ≡ (call_each statsd two_messages tt).1
metrics_agree_example = metrics_agree two_messages
