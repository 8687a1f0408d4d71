-- ===== src/Tests/Jobs.antt =====
-- The theorems about jobs on one event loop, and about the hooks of a middleware, at concrete jobs.
use walnats.Prelude.{ℕ, ◌≤◌, ◌<◌, ◌≡◌, refl, All, none, some, [], ◌∷◌, arith, count_if}
use walnats.Prelude.Dict.{lookup}
use walnats.Exceptions.{cancelled}
use walnats.Context.{get_header}
use walnats.Actors.Priority.{with_sem, acquire, turns}
use walnats.Actors.Handle.Settlement.{acks, naks}
use walnats.Actors.Handle.Lifecycle.Outcomes.{is_success, is_failure, outcome_told}
use walnats.Actors.Handle.{Job, nak, handle_due, handle_message, run_hooks}
use walnats.Actors.Handle.Semaphores.{neither}
use walnats.Actors.Handle.Lifecycle.{hooks_of}
use walnats.Actors.Handle.Lifecycle.Order.{IsLifecycle, handle_message-IsLifecycle}
use walnats.Actors.Jobs.{Task, new_task, Loop, idle, here, Run, run, arrives, Reach, start, next}
use walnats.Actors.Jobs.Permits.{handlers_bounded, runs_handler, runs_handler_of}
use walnats.Actors.Jobs.Progress.{work, work-Run}
use walnats.Actors.Jobs.Ends.{none_yet, then_run, no_deadlock, jobs_end}
use walnats.Middlewares.Hooked.{Contexts, call_hooks}
use walnats.Middlewares.Traces.{Zipkin, zipkin}
use walnats.Middlewares.Traces.Spans.{Traced, zipkin_spans}
use walnats.Tests.Actors.{job}

-- A message that is to be handled later.
abbrev later : Job ℕ ℕ ℕ
later = record job {
  msg = record {
    num_delivered = some 1;
    sequence = none;
    headers = some (("Walnats-Delay", "0.2") ∷ []);
    payload = 3;
  };
}

abbrev with_task : Task ℕ → Loop ℕ
with_task k = record (idle {Bytes = ℕ} (λ a. 2) 1) { tasks = k ∷ [] }

handling : Reach (λ a. 2) 1 (with_task (new_task 0 job))
handling = next start (arrives 0 job refl)

handlers_bounded_example :
    (count_if runs_handler (new_task 0 job ∷ []) ≤ 1)
    × ((a : ℕ) → count_if (runs_handler_of a) (new_task 0 job ∷ []) ≤ 2)
handlers_bounded_example = handlers_bounded handling

some_work : 0 < work (new_task 0 job ∷ [])
unfolding new_task handle_message get_header lookup with_sem acquire turns run_hooks
some_work = omega arith

no_deadlock_example : (t : Loop ℕ) × Run (with_task (new_task 0 job)) t
no_deadlock_example = no_deadlock handling (λ a. omega arith) (omega arith) some_work

waiting : Reach (λ a. 2) 1 (with_task (new_task 0 later))
waiting = next start (arrives 0 later refl)

abbrev put_back : Loop ℕ
put_back = with_task (record { actor = 0; held = neither; rest = [] })

one_effect : Run (with_task (new_task 0 later)) put_back
unfolding new_task handle_message get_header lookup
one_effect = run (new_task 0 later) (nak 100) [] refl refl here

nothing_left : (u : Loop ℕ) → ¬ Run put_back u
nothing_left u r = absurd (omega (arith, work-Run r))

jobs_end_example :
    (1 ≡ work (new_task 0 later ∷ []))
    × All (λ k. k.rest ≡ []) put_back.tasks
    × (put_back.sems.whole ≡ 1)
    × ((a : ℕ) → put_back.sems.actors a ≡ 2)
jobs_end_example =
    jobs_end waiting (λ a. omega arith) (omega arith) (then_run none_yet one_effect) nothing_left

handle_message-IsLifecycle_example : IsLifecycle (hooks_of 0 (handle_message job).1)
handle_message-IsLifecycle_example = handle_message-IsLifecycle 0 job

outcome_told_example :
    (count_if is_success (hooks_of 0 (handle_due job).1) ≡ acks (handle_due job).1)
    × (count_if is_failure (hooks_of 0 (handle_due job).1) ≡ naks (handle_due job).1)
unfolding handle_due get_header lookup with_sem acquire turns run_hooks
outcome_told_example = outcome_told 0 job refl refl

abbrev contexts : Contexts ℕ ℕ
contexts = record {
  at_start = record { actor = job.names; msg = job.msg; message = 21 };
  at_failure = record { actor = job.names; msg = job.msg; message = none; exc = cancelled };
  at_success = record { actor = job.names; msg = job.msg; message = 21; duration = 5 };
}

abbrev tracer : Zipkin ℕ ℕ
tracer = record { next_context = 4; replace_trace_id = λ c t. 0; to_span = λ c. c }

zipkin_spans_example :
    Traced
      (hooks_of 0 (handle_message job).1)
      (call_hooks (zipkin tracer) contexts (hooks_of 0 (handle_message job).1) none)
zipkin_spans_example = zipkin_spans contexts 0 job tracer
