-- ===== src/Actors/Handle/Suppressed.antt =====
-- An actor whose handler is wrapped by `suppress` (walnats/decorators/_suppress.py).
use walnats.Prelude.{◌≡◌, ◌∙◌, ap, refl, ℕ, none, some, arith, if◌then◌else◌}
use walnats.Exceptions.{Result, ok, raise}
use walnats.Effects.{Act, pure, ◌>>=◌}
use walnats.Actors.Priority.{with_sem, turns, acquire, value}
use walnats.Decorators.Suppress.{
  Log, Returned as FunctionResult, Handler, coroutine_function, function, Suppress, no_result,
  awaitable, excepting, suppress, outcome,
}
use walnats.Decorators.Suppress.Outcome.{outcome-excepting}
use walnats.Actors.Handle.{
  Effect, sem, on_start, run_hooks, Job, Returned, plain, coroutine, Ended, finished, failed,
  start_context, call_handler, run_event, run_block, try_block, handle_due, is_caught,
}
use walnats.Actors.Handle.Settlement.{acks, naks, answers_due}

module _ {Bytes T R : Type 0} (j : Job Bytes T R) (m : T) where
  -- The job gets its semaphores and its event, and its middlewares start.
  pub record Starts : Type 0 where
    pub actor_free : j.take_actor ≡ ok tt
    pub turns_end : (turns {E = Effect Bytes} sem (value j.priority) j.take_turn).0 ≡ ok tt
    pub global_free : j.take_global ≡ ok tt
    pub decodes : j.decode j.msg.payload ≡ ok m
    pub hooks_pass :
        (run_hooks on_start 0 (λ mw. mw.start) (start_context j m) j.middlewares).0 ≡ ok tt

  -- The end that the handler brings.
  abbrev pub end_of : Result R → Ended T R
  end_of (ok r) = finished m r
  end_of (raise e) = failed (some m) e

  module _ (starts : Starts) where
    event_end : (run_event j m).0 ≡ ok (end_of (call_handler j m))
    unfolding run_event
    event_end = ground (arith, starts.hooks_pass)

    block_end : (run_block j).0 ≡ ok (end_of (call_handler j m))
    unfolding run_block
    block_end = ground (arith, starts.decodes, event_end)

    pub handler_ends : (try_block j).0 ≡ ok (end_of (call_handler j m))
    unfolding try_block acquire with_sem
    handler_ends =
        ground (arith, starts.actor_free, starts.turns_end, starts.global_free, block_end)

-- What the call of a handler gives the actor, if it ends within its time. What a wrapped handler gives to
-- be awaited is a coroutine.
pub called_by : {T : Type 0} → Handler T → T → Result (Returned (Unit {0}))
called_by (coroutine_function f) event = ok (coroutine (f event).0)
called_by (function f) event = elim (f event).0 [
  | raise e ↦ raise e
  | ok no_result ↦ ok (plain tt)
  | ok (awaitable a) ↦ ok (coroutine a.0)
]

-- The answers that an outcome of the handler without `suppress` leads to.
abbrev pub acks_suppressed : Suppress → Result (Unit {0}) → ℕ
acks_suppressed s (ok u) = 1
acks_suppressed s (raise e) = if s.catches e then 1 else 0

abbrev pub naks_suppressed : Suppress → Result (Unit {0}) → ℕ
naks_suppressed s (ok u) = 0
naks_suppressed s (raise e) = if s.catches e then 0 else if is_caught e then 1 else 0

-- What the actor gets of what a handler gives.
awaited : Result (Returned (Unit {0})) → Result (Unit {0})
awaited (raise e) = raise e
awaited (ok (plain r)) = ok r
awaited (ok (coroutine a)) = a

awaited-called_by : {T : Type 0} (h : Handler T) (m : T) → awaited (called_by h m) ≡ (outcome h m).0
unfolding awaited called_by
awaited-called_by (coroutine_function f) m = refl
awaited-called_by (function f) m = by_result (f m)
  where
    by_result :
        (r : Act Log FunctionResult)
        → awaited (elim r.0 [
          | raise e ↦ raise e
          | ok no_result ↦ ok (plain tt)
          | ok (awaitable a) ↦ ok (coroutine a.0)
        ])
          ≡ (r >>= λ x. elim x [ no_result ↦ pure tt | awaitable a ↦ a ]).0
    by_result (raise e, t) = refl
    by_result (ok no_result, t) = refl
    by_result (ok (awaitable a), t) = refl

excepted :
    (s : Suppress) (m : Act Log (Unit {0}))
    → (excepting s m).0
      ≡ (elim m.0 [ ok u ↦ ok u | raise e ↦ if s.catches e then ok tt else raise e ])
unfolding excepting
excepted s (ok u, t) = refl
excepted s (raise e, t) = ground arith

module _ {Bytes T : Type 0} (j : Job Bytes T (Unit {0})) (local_handler : j.executor ≡ none) where
  call_of : (h : Handler T) (m : T) → j.handler ≡ called_by h → call_handler j m ≡ (outcome h m).0
  unfolding call_handler awaited
  call_of h m handles = ground (arith, local_handler, ap (λ f. f m) handles, awaited-called_by h m)

  -- The answers to a message of an actor whose handler is wrapped by `suppress`, and runs in the loop of the
  -- actor and within its time: if the job starts, the message is acknowledged once if the handler itself
  -- succeeds or raises an exception to suppress, and is not put back; else it is put back once if the actor
  -- catches the exception, and is not acknowledged.
  pub suppressed_answers :
      (s : Suppress) (h : Handler T) (m : T)
      → Starts j m
      → j.handler ≡ called_by (suppress s h)
      → (acks (handle_due j).1 ≡ acks_suppressed s (outcome h m).0)
        × (naks (handle_due j).1 ≡ naks_suppressed s (outcome h m).0)
  suppressed_answers s h m starts handles =
      let called =
        call_of (suppress s h) m handles
        ∙ ap (λ a. a.0) (outcome-excepting s h m)
        ∙ excepted s (outcome h m) in
      let given = answers_due j _ (handler_ends j m starts) in ground (arith, called, given)
