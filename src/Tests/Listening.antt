-- ===== src/Tests/Listening.antt =====
-- The theorems about listening to messages (walnats/_actors, walnats/_tasks.py) at concrete actors.
use walnats.Prelude.{
  arith, All, ℕ, ◌*◌, ◌/◌, ◌%◌, ◌==◌, nat_eq, if◌then◌else◌, String, ◌≡◌, refl, true, false, none,
  some, List, contains, ◌++◌, [], ◌∷◌,
}
use walnats.Exceptions.{ok, raise, exception}
use walnats.Actors.Actor.{Actor, main, thread, consumer_name}
use walnats.Actors.Priority.{normal}
use walnats.Events.Monitor.{monitor_event, feed, subscribed, printed, queued}
use walnats.Events.Codec.{decode}
use walnats.Events.Event.{subject_name, BaseEvent, no_limits, stream_name}
use walnats.Actors.Listen.{Round, Effect, tasks_cancelled, unsubscribed, listen, pull_and_handle}
use walnats.Actors.Listen.Cleanup.{listen_starts_given, jobs_of, IsQuiet}
use walnats.Actors.Connection as Connected
use walnats.Actors.Connection.Executors.{listen_executors, tasks_of}
use walnats.Actors.Listen.Supervised.{history, play, listen_supervised}
use walnats.Tasks.{Event, fails, Tasks, new, starts, ends, all_happen, wait, cancel}
use walnats.Tasks.Waits.{left_running}
use walnats.Tasks.Histories.{unended}
use walnats.Tasks.Verdicts.{Verdict, wait-Verdict}
use walnats.Serializers.Base.{Serializer}
use walnats.Tests.Events.{event}

abbrev pub worker : Actor String String ℕ ℕ
worker = record {
  name = "mail";
  event = event "signed-up";
  handler = 0;
  description = none;
  ack_wait = 16000;
  max_attempts = none;
  max_ack_pending = 1000;
  middlewares = [];
  max_jobs = 16;
  job_timeout = 32000;
  execute_in = thread;
  retry_delay = 500 ∷ [];
  pulse = true;
  priority = normal;
}

-- A round that waits for the semaphore of the actor and gets two messages, and one that times out.
abbrev busy : Round ℕ
busy = record {
  actor_locked = some (ok tt);
  global_locked = none;
  poll_free = ok tt;
  messages = ok (7 ∷ 8 ∷ []);
}

abbrev pub quiet : Round ℕ
quiet = record busy { messages = raise (exception "TimeoutError") }

is_quiet : IsQuiet busy
is_quiet = record {
  actor = refl;
  whole = tt;
  poll_free = refl;
  messages = (some (7 ∷ 8 ∷ []), refl);
}

timed_out : IsQuiet quiet
timed_out = record { actor = refl; whole = tt; poll_free = refl; messages = (none, refl) }

listen_starts_given_example :
    jobs_of (listen worker false 5 (ok tt) (ok tt) (ok tt) busy (quiet ∷ busy ∷ [])).1
    ≡ 7 ∷ 8 ∷ 7 ∷ 8 ∷ []
unfolding consumer_name stream_name
listen_starts_given_example =
    listen_starts_given worker false 5 (ok tt) (ok tt) busy (quiet ∷ busy ∷ []) "mail" "signed-up"
      refl refl (is_quiet, (timed_out, (is_quiet, tt)))

-- A task starts another one before the first job starts, and the first job ends before the listener does.
listen_supervised_example :
    (front : List (Effect ℕ)) × (s : Tasks) × ((listen worker false 5
        (ok tt)
        (ok tt)
        (ok tt)
        busy
        (quiet ∷ [])).1
      ≡ front ++ (tasks_cancelled ∷ unsubscribed ∷ []))
    × (play ((starts ∷ []) ∷ []) front new ≡ ok s)
    × All
        (λ k. contains (cancel (all_happen (ends 1 ∷ []) s)).cancelled k ≡ true)
        (unended (history ((starts ∷ []) ∷ []) front ++ (ends 1 ∷ [])))
unfolding consumer_name stream_name
listen_supervised_example =
    listen_supervised worker 5 (ok tt) (ok tt) busy (quiet ∷ []) "mail" "signed-up" refl refl
      ((starts ∷ []) ∷ []) (ends 1 ∷ [])

-- The task of the first event and the second job are left.
left_to_cancel :
    unended (
      history
        ((starts ∷ []) ∷ [])
        (listen worker false 5 (ok tt) (ok tt) (ok tt) busy (quiet ∷ [])).1
      ++ (ends 1 ∷ []))
    ≡ 2 ∷ 0 ∷ []
unfolding consumer_name stream_name listen pull_and_handle
left_to_cancel = refl

abbrev options : Connected.ListenOptions
options = record {
  burst = false;
  max_polls = none;
  poll_delay = 2000;
  batch = 1;
  max_jobs = 16;
  max_processes = none;
  max_threads = some 4;
}

listen_executors_example :
    tasks_of
      (Connected.listen options (worker ∷ record worker { execute_in = main } ∷ []) (ok tt)).1
    ≡ ("mail", some (Connected.thread_pool (some 4))) ∷ ("mail", none) ∷ []
unfolding Connected.check
listen_executors_example =
    listen_executors options (worker ∷ record worker { execute_in = main } ∷ []) (ok tt) refl

abbrev one_task : Tasks
one_task = record { live = 0 ∷ []; is_done = false; next = 1; cancelled = [] }

-- One of two tasks raises, after a task that starts meanwhile did.
abbrev two_tasks : Tasks
two_tasks = record { live = 1 ∷ 0 ∷ []; is_done = false; next = 2; cancelled = [] }

abbrev failures : List Event
failures = starts ∷ fails 2 (exception "KeyError") ∷ ends 0 ∷ fails 1 (exception "OSError") ∷ []

wait-Verdict_example : Verdict two_tasks failures (wait two_tasks failures)
wait-Verdict_example = wait-Verdict two_tasks failures refl (omega arith, (omega arith, tt))

raised : (wait two_tasks failures).0 ≡ raise (exception "OSError")
unfolding wait all_happen
raised = refl

-- The task starts another one and ends: the wait is over, and the other one runs.
left_running_example :
    (contains one_task.live 1 ≡ false)
    × ((cancel (wait one_task (starts ∷ ends 0 ∷ [])).1).cancelled ≡ [])
unfolding wait all_happen
left_running_example = left_running one_task (starts ∷ ends 0 ∷ []) 1 refl refl

-- Payloads are numbers, and an odd one is not decoded.
abbrev evens : Serializer ℕ ℕ
evens = record {
  encode = λ m. ok (m * 2);
  decode = λ b. if b % 2 == 0 then ok (b / 2) else raise (exception "ValueError");
}

abbrev signups : BaseEvent ℕ (Serializer ℕ ℕ)
signups = record {
  name = "signed-up";
  schema = 0;
  serializer = some evens;
  description = none;
  limits = no_limits;
}

-- The second message ends the feed.
monitored : monitor_event (λ s. ok evens) signups (ok tt) (4 ∷ 3 ∷ 8 ∷ []) ≡ (
  raise (exception "ValueError"),
  subscribed (subject_name signups) ∷ (printed ∷ (queued 2 ∷ [])),
)
unfolding monitor_event feed decode
monitored = refl
