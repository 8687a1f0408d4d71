-- ===== src/Tests/Actors.antt =====
-- Runs of the message handling of walnats/_actors, and its theorems at them.
use Prim.Native.Nat.{min}
use walnats.Actors.Pulse.{pulse}
use walnats.Actors.Pulse.Signals.{signals, ends_at, is_signal, slept_rounds, Close, pulse-Close}
use walnats.Actors.Handle.Retries.{nak_delays, retry_delays}
use walnats.Prelude.{
  List, arith, get_elem?, ℕ, ◌+◌, ◌≤◌, ◌≡◌, refl, true, false, none, some, [], ◌∷◌, count_if,
}
use walnats.Prelude.Dict.{lookup}
use walnats.Exceptions.{Result, exception, ok, raise}
use walnats.Context.{Msg, get_header}
use walnats.Actors.Priority.{
  normal, acquired, released, yielded, actor_sem, global_sem, with_sem, acquire, turns,
}
use walnats.Actors.Handle.{
  Job, Hooks, plain, ack, sem, decoded, called, hook, spawned, responded, on_start, on_success,
  pulse_started, pulse_cancelled, finished, failed, handle_message, handle_due, run_hooks,
}
use walnats.Actors.Handle.Semaphores.{semaphores_released, replay, neither}
use walnats.Actors.Handle.Settlement.{one_answer, answered_once, answers_due, acks, naks}
use walnats.Actors.Handle.Pulse.{pulse_stopped, is_start, is_cancel}

abbrev watcher : Hooks ℕ ℕ
watcher = record { start = λ c. ok true; failure = λ c. ok false; success = λ c. ok false }

-- A message that names an inbox, for an actor with a normal priority.
abbrev pub job : Job ℕ ℕ ℕ
job = record {
  names = record { name = "double"; event_name = "asked" };
  msg = record {
    num_delivered = some 1;
    sequence = some 7;
    headers = some (("Walnats-Reply", "inbox") ∷ []);
    payload = 21;
  };
  retry_delay = 500 ∷ 1000 ∷ 2000 ∷ 4000 ∷ [];
  pulse = true;
  priority = normal;
  middlewares = watcher ∷ [];
  encode_response = some (λ r. ok r);
  decode = λ b. ok b;
  executor = none;
  handler = λ t. ok (plain (t + t));
  now = 100;
  duration = 5;
  float = λ s. ok 200;
  take_actor = ok tt;
  take_turn = λ n. (ok tt, ok tt);
  take_global = ok tt;
  naked = ok tt;
  acked = ok tt;
}

abbrev failing : Job ℕ ℕ ℕ
failing = record job { handler = λ t. raise (exception "ZeroDivisionError"); pulse = false }

-- The whole trace of a handling that succeeds.
handled : handle_message job ≡ (
  ok tt,
  pulse_started
      ∷ sem (acquired actor_sem)
      ∷ sem (acquired global_sem)
      ∷ sem yielded
      ∷ sem (released global_sem)
      ∷ sem (acquired global_sem)
      ∷ decoded
      ∷ hook on_start 0
      ∷ spawned on_start 0
      ∷ called
      ∷ sem (released global_sem)
      ∷ sem (released actor_sem)
      ∷ pulse_cancelled
      ∷ ack
      ∷ responded "inbox" 42 (some (("Walnats-Reply", "inbox") ∷ []))
      ∷ hook on_success 0
      ∷ [],
)
unfolding handle_message get_header lookup with_sem acquire turns run_hooks
handled = refl

one_answer_example : acks (handle_message job).1 + naks (handle_message job).1 ≤ 1
one_answer_example = one_answer job

answered_once_example : acks (handle_message job).1 + naks (handle_message job).1 ≡ 1
unfolding handle_message get_header lookup with_sem acquire turns run_hooks
answered_once_example = answered_once job refl

answers_due_example : (acks (handle_due failing).1 ≡ 0) × (naks (handle_due failing).1 ≡ 1)
unfolding handle_due get_header lookup with_sem acquire turns run_hooks
answers_due_example = answers_due failing (failed (some 21) (exception "ZeroDivisionError")) refl

-- A sixth delivery waits the last of the four delays.
abbrev sixth : Job ℕ ℕ ℕ
sixth = record failing { msg = record job.msg { num_delivered = some 6 } }

retry_delays_example :
    (x : ℕ) × (nak_delays (handle_due sixth).1 ≡ x ∷ [])
    × (get_elem? (500 ∷ 1000 ∷ 2000 ∷ 4000 ∷ []) (min 6 3) ≡ some x)
unfolding handle_due get_header lookup with_sem acquire turns run_hooks
retry_delays_example =
    retry_delays sixth (some 21) (exception "ZeroDivisionError") 500 (1000 ∷ 2000 ∷ 4000 ∷ []) 6
      refl refl refl refl

semaphores_released_example : replay (some neither) (handle_message job).1 ≡ some neither
semaphores_released_example = semaphores_released job

pulse_stopped_example :
    count_if is_start (handle_message job).1 ≡ count_if is_cancel (handle_message job).1
unfolding handle_message get_header lookup with_sem acquire turns run_hooks
pulse_stopped_example = pulse_stopped job (finished 21 42) refl refl

abbrev delayed_msg : Msg ℕ
delayed_msg = record {
  num_delivered = some 3;
  sequence = none;
  headers = some (("Walnats-Delay", "12.5") ∷ []);
  payload = 0;
}

-- A pulse of which each effect is up to 5 late, for an `ack_wait` of 20.
abbrev pulse_rounds : List (Result (Unit {0}) × Result (Unit {0}))
pulse_rounds = (ok tt, ok tt) ∷ (ok tt, ok tt) ∷ (ok tt, ok tt) ∷ []

pulse_moments : signals 100 (pulse 10 pulse_rounds).1 (5 ∷ 5 ∷ 5 ∷ 0 ∷ 0 ∷ []) ≡ 115 ∷ 135 ∷ []
unfolding pulse
pulse_moments = refl

pulse-Close_example :
    Close 20 100
      (signals 100 (pulse 10 pulse_rounds).1 (5 ∷ 5 ∷ 5 ∷ 0 ∷ 0 ∷ []))
      (ends_at 100 (pulse 10 pulse_rounds).1 (5 ∷ 5 ∷ 5 ∷ 0 ∷ 0 ∷ []))
    × (count_if is_signal (pulse 10 pulse_rounds).1 ≡ slept_rounds pulse_rounds)
pulse-Close_example =
    pulse-Close 10 pulse_rounds 100 (5 ∷ 5 ∷ 5 ∷ 0 ∷ 0 ∷ [])
      (omega arith, (omega arith, (omega arith, (omega arith, (omega arith, tt)))))
