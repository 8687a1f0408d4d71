-- ===== src/Tests/Decorators.antt =====
-- The theorems about walnats/decorators at concrete handlers.
use walnats.Prelude.{ℕ, ◌+◌, ◌≤◌, ◌≡◌, refl, true, none, [], ◌∷◌, arith, count_if}
use walnats.Exceptions.{ok, raise, exception}
use walnats.Decorators.RateLimit.{
  RateLimit, State, Reach, first, next, starts_handler, passes, wakes,
}
use walnats.Decorators.RateLimit.Progress.{StartsAt, starts_again}
use walnats.Decorators.RateLimit.Window.{starts_per_period, within}
use walnats.Decorators.Suppress.{
  Log, Suppress, Handler, function, awaitable, suppress, outcome, is_coroutine_function,
}
use walnats.Decorators.Suppress.Outcome.{outcome-suppress}
use walnats.Actors.Priority.{turns, with_sem}
use walnats.Actors.Handle.{Job, run_hooks, handle_due}
use walnats.Actors.Handle.Settlement.{acks, naks}
use walnats.Actors.Handle.Suppressed.{Starts, called_by, suppressed_answers}
use walnats.Tests.Actors.{job}

abbrev one_a_minute : RateLimit
one_a_minute = record { max_jobs = 1; period = 60 }

-- A handler starts, its permit comes back after the period, and another one starts.
abbrev after_two : State
after_two = record { value = 0; sleeping = 130 ∷ []; starts = 70 ∷ 0 ∷ []; now = 70 }

two_starts : Reach one_a_minute after_two
two_starts =
    next
      (next
        (next (next (first 0) (starts_handler (omega arith) refl)) (passes 70 (omega arith) refl))
        (wakes [] [] 60 1 refl (omega arith) refl refl))
      (starts_handler (omega arith) refl)

starts_per_period_example : count_if (within one_a_minute 20) (70 ∷ 0 ∷ []) ≤ 1
starts_per_period_example = starts_per_period two_starts 20

abbrev catching : Suppress
catching = record { catches = λ e. true; has_logger = true }

abbrev failing : Handler ℕ
failing = function (λ event. (ok (awaitable (raise (exception "OSError"), [])), []))

outcome-suppress_example :
    ((outcome (suppress catching failing) 3).0 ≡ ok tt)
    × ((outcome (suppress catching failing) 3).1 ≡ Log.suppressed ∷ [])
    × (is_coroutine_function (suppress catching failing) ≡ is_coroutine_function failing)
outcome-suppress_example = outcome-suppress catching failing 3

starts_again_example : (moment : ℕ) × (moment ≤ 70 + 60) × StartsAt one_a_minute after_two moment
starts_again_example = starts_again two_starts (omega arith)

-- An actor with that handler under `suppress`, and no middlewares.
abbrev suppressed : Job ℕ ℕ (Unit {0})
suppressed = record {
  names = job.names;
  msg = job.msg;
  retry_delay = job.retry_delay;
  pulse = true;
  priority = job.priority;
  middlewares = [];
  encode_response = none;
  decode = job.decode;
  executor = none;
  handler = called_by (suppress catching failing);
  now = 100;
  duration = 5;
  float = job.float;
  take_actor = ok tt;
  take_turn = job.take_turn;
  take_global = ok tt;
  naked = ok tt;
  acked = ok tt;
}

starts : Starts suppressed 21
unfolding turns with_sem run_hooks
starts = record {
  actor_free = refl;
  turns_end = refl;
  global_free = refl;
  decodes = refl;
  hooks_pass = refl;
}

suppressed_answers_example :
    (acks (handle_due suppressed).1 ≡ 1) × (naks (handle_due suppressed).1 ≡ 0)
suppressed_answers_example = suppressed_answers suppressed refl catching failing 21 starts refl
