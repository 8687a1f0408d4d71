-- ===== src/Actors/Handle/Pulse.antt =====
-- The pulse task of `_handle_message`.
use walnats.Prelude.{
  ℕ, ◌≡◌, refl, Bool, true, false, List, arith, count_if, count_if-append, if◌then◌else◌,
}
use walnats.Exceptions.{ok}
use walnats.Effects.{Act}
use walnats.Context.{ErrorContext}
use walnats.Actors.Handle.{
  Effect, pulse_started, pulse_cancelled, on_failure, Job, Ended, finished, failed, is_caught,
  cancel_pulse, after_failure, after_success, after_try, try_block, handle_due, handle_message,
}
use walnats.Actors.Handle.Counts.{IgnoresTry, Lacks-try_block}
use walnats.Actors.Handle.Settlement.{
  Lacks-hooks, Lacks-after_ack, Handled, due, delayed, unread, handle_message-Handled, ended,
}

module _ {Bytes : Type 0} where
  abbrev pub is_start : Effect Bytes → Bool
  is_start pulse_started = true
  is_start _ = false

  abbrev pub is_cancel : Effect Bytes → Bool
  is_cancel pulse_cancelled = true
  is_cancel _ = false

  is_start-IgnoresTry : IgnoresTry is_start
  is_start-IgnoresTry = record {
    hooks = record { at_hook = λ w i. refl; at_spawned = λ w i. refl };
    at_sem = λ s. refl;
    at_decoded = refl;
    at_called = refl;
  }

  is_cancel-IgnoresTry : IgnoresTry is_cancel
  is_cancel-IgnoresTry = record {
    hooks = record { at_hook = λ w i. refl; at_spawned = λ w i. refl };
    at_sem = λ s. refl;
    at_decoded = refl;
    at_called = refl;
  }

module _ {Bytes T R : Type 0} (j : Job Bytes T R) where
  abbrev one_if_pulse : ℕ
  one_if_pulse = if j.pulse then 1 else 0

  -- The counts of starts and of cancellations in a trace.
  abbrev starts : List (Effect Bytes) → ℕ
  starts t = count_if is_start t

  abbrev cancels : List (Effect Bytes) → ℕ
  cancels t = count_if is_cancel t

  -- Whether the `try` block ended in a way that a handler of it catches.
  abbrev pub is_handled : Ended T R → Bool
  is_handled (finished event r) = true
  is_handled (failed event e) = is_caught e

  pulse_after_try :
      (e : Ended T R)
      → (starts (after_try j e).1 ≡ 0)
        × (cancels (after_try j e).1 ≡ (if is_handled e then one_if_pulse else 0))
  unfolding after_try after_success after_failure cancel_pulse
  pulse_after_try (finished event r) = (
    ground (arith, Lacks-after_ack j is_start is_start-IgnoresTry.hooks (λ t b. refl) event r),
    ground (arith, Lacks-after_ack j is_cancel is_cancel-IgnoresTry.hooks (λ t b. refl) event r),
  )
  pulse_after_try (failed event e) =
      let ctx : ErrorContext Bytes T = record {
        actor = j.names;
        msg = j.msg;
        message = event;
        exc = e;
      } in
      (
        ground (
          arith,
          Lacks-hooks j is_start is_start-IgnoresTry.hooks on_failure (λ mw. mw.failure) ctx,
        ),
        ground (
          arith,
          Lacks-hooks j is_cancel is_cancel-IgnoresTry.hooks on_failure (λ mw. mw.failure) ctx,
        ),
      )

  pulse_due :
      (e : Ended T R)
      → ended j ≡ ok e
      → (starts (handle_due j).1 ≡ one_if_pulse)
        × (cancels (handle_due j).1 ≡ (if is_handled e then one_if_pulse else 0))
  unfolding handle_due
  pulse_due e h = (
    ground (
      arith,
      h,
      pulse_after_try e,
      Lacks-try_block is_start is_start-IgnoresTry j,
      count_if-append is_start (try_block j).1 (after_try j e).1,
    ),
    ground (
      arith,
      h,
      pulse_after_try e,
      Lacks-try_block is_cancel is_cancel-IgnoresTry j,
      count_if-append is_cancel (try_block j).1 (after_try j e).1,
    ),
  )

  pulse_of :
      (e : Ended T R)
      → ended j ≡ ok e
      → is_handled e ≡ true
      → (m : Act (Effect Bytes) (Unit {0})) → Handled j m
      → starts m.1 ≡ cancels m.1
  pulse_of e ends caught m (delayed d same) = rw same refl
  pulse_of e ends caught m (unread x same) = rw same refl
  pulse_of e ends caught m (due same) = rw same (ground (arith, pulse_due e ends))

  -- Unless the `try` block ends by a `BaseException` that is not caught, the pulse task is cancelled as
  -- often as it is started, whatever else fails.
  pub pulse_stopped :
      (e : Ended T R)
      → ended j ≡ ok e
      → is_handled e ≡ true
      → count_if is_start (handle_message j).1 ≡ count_if is_cancel (handle_message j).1
  pulse_stopped e ends caught = pulse_of e ends caught _ (handle_message-Handled j)
