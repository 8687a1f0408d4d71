-- ===== src/Actors/Handle.antt =====
-- `Actor._handle_message` (walnats/_actors/_actor.py), from the outcomes of what it awaits. Names of
-- tasks are left out. A coroutine that is started as a task is one effect at its start.
pub mod Counts
pub mod Semaphores
pub mod Settlement
pub mod Pulse
pub mod Emitted
pub mod Lifecycle
pub mod Delivery
pub mod Answers
pub mod Retries
pub mod Suppressed
use walnats.Prelude.{
  ℕ, zero, suc, String, ◌+◌, ◌-◌, Bool, true, false, Option, none, some, List, [], ◌∷◌, ◌++◌, ltb,
  if◌then◌else◌,
}
use walnats.Prelude.Dict.{Dict, lookup}
use walnats.Exceptions.{Exc, exception, cancelled, base, Result, ok, raise}
use walnats.Effects.{Act, ◌>>=◌, ◌>>◌, pure, perform}
use walnats.Context.{
  Msg, ActorNames, Context, ErrorContext, OkContext, get_header, truthy, header_delay, header_reply,
}
use walnats.Actors.Actor.{get_nak_delay}
use walnats.Actors.Priority.{Priority, Sem, SemEffect, actor_sem, with_sem, acquire}

-- The hooks of middlewares, by the position of the middleware in the list.
pub data Hook : Type 0 where
  on_start on_failure on_success : Hook

pub data Effect (Bytes : Type 0) : Type 0 where
  nak : ℕ → Effect Bytes
  ack : Effect Bytes
  pulse_started pulse_cancelled : Effect Bytes
  sem : SemEffect → Effect Bytes
  decoded called logged : Effect Bytes
  hook : Hook → ℕ → Effect Bytes
  spawned : Hook → ℕ → Effect Bytes
  responded : String → Bytes → Option (Dict String) → Effect Bytes

-- What a call of a handler gives: a value, or a coroutine with the outcome of
-- `asyncio.wait_for(result, timeout=self.job_timeout)`.
pub data Returned (R : Type 0) : Type 0 where
  plain : R → Returned R
  coroutine : Result R → Returned R

-- A middleware: for each hook, whether it gives a coroutine, or the exception.
pub record Hooks (Bytes T : Type 0) : Type 0 where
  pub start : Context Bytes T → Result Bool
  pub failure : ErrorContext Bytes T → Result Bool
  pub success : OkContext Bytes T → Result Bool

-- What the handling of a message meets.
pub record Job (Bytes T R : Type 0) : Type 0 where
  pub names : ActorNames
  pub msg : Msg Bytes
  pub retry_delay : List ℕ
  pub pulse : Bool
  pub priority : Priority
  pub middlewares : List (Hooks Bytes T)
  -- `Some` for an event with a response: `encode_response`.
  pub encode_response : Option (R → Result Bytes)
  pub decode : Bytes → Result T
  -- `Some` if there is an executor: the outcome of the call in it, under the timeout.
  pub executor : Option (T → Result R)
  pub handler : T → Result (Returned R)
  -- The clock, the duration and the reading of floats, in milliseconds.
  pub now : ℕ
  pub duration : ℕ
  pub float : String → Result ℕ
  -- The outcomes of `await` on the semaphores and on the answers to the server.
  pub take_actor : Result (Unit {0})
  pub take_turn : ℕ → Result (Unit {0}) × Result (Unit {0})
  pub take_global : Result (Unit {0})
  pub naked : Result (Unit {0})
  pub acked : Result (Unit {0})

-- How the `try` block ends. The message is known to the handlers once it is decoded.
pub data Ended (T R : Type 0) : Type 0 where
  finished : T → R → Ended T R
  failed : Option T → Exc → Ended T R

-- `except (Exception, asyncio.CancelledError)`
abbrev pub is_caught : Exc → Bool
is_caught (exception n) = true
is_caught cancelled = true
is_caught (base n) = false

module _ {Bytes T : Type 0} where
  -- A loop over hooks: a coroutine is started as a task.
  unfoldable pub run_hooks :
      {C : Type 0}
      → Hook
      → ℕ
      → (Hooks Bytes T → C → Result Bool)
      → C
      → List (Hooks Bytes T)
      → Act (Effect Bytes) (Unit {0})
  run_hooks which i call ctx [] = pure tt
  run_hooks which i call ctx (mw ∷ mws) =
      let rest = run_hooks which (suc i) call ctx mws in
      perform (hook which i) (call mw ctx) >>= λ spawns.
      if spawns then perform (spawned which i) (ok tt) >> rest else rest

module _ {Bytes T R : Type 0} (j : Job Bytes T R) where
  -- The handler, in the executor or here.
  unfoldable pub call_handler : T → Result R
  call_handler event = elim j.executor [
    | some run ↦ run event
    | none ↦ elim (j.handler event) [
      | raise e ↦ raise e
      | ok (plain r) ↦ ok r
      | ok (coroutine awaited) ↦ awaited
    ]
  ]

  pub start_context : T → Context Bytes T
  start_context event = record { actor = j.names; msg = j.msg; message = event }

  -- The block under both semaphores, after the decoding.
  run_event : T → Act (Effect Bytes) (Ended T R)
  unfolding call_handler start_context
  run_event event =
      let m =
        run_hooks on_start 0 (λ mw. mw.start) (start_context event) j.middlewares
        >> perform called (call_handler event) in
      (ok (elim m.0 [ ok r ↦ finished event r | raise e ↦ failed (some event) e ]), m.1)

  run_block : Act (Effect Bytes) (Ended T R)
  unfolding run_event
  run_block = elim (j.decode j.msg.payload) [
    | raise e ↦ (ok (failed none e), decoded ∷ [])
    | ok event ↦ perform decoded (ok tt) >> run_event event
  ]

  -- The whole `try` block. An exception of an acquisition ends it too.
  unfoldable pub try_block : Act (Effect Bytes) (Ended T R)
  unfolding run_block
  try_block =
      let m =
        with_sem sem actor_sem j.take_actor
          (acquire sem j.priority j.take_turn j.take_global run_block) in
      (ok (elim m.0 [ ok e ↦ e | raise e ↦ failed none e ]), m.1)

  pub cancel_pulse : List (Effect Bytes)
  cancel_pulse = if j.pulse then pulse_cancelled ∷ [] else []

  -- The `except` block.
  after_failure : Option T → Exc → Act (Effect Bytes) (Unit {0})
  unfolding cancel_pulse
  after_failure event e =
      let ectx : ErrorContext Bytes T = record {
        actor = j.names;
        msg = j.msg;
        message = event;
        exc = e;
      } in
      let delay = get_nak_delay j.retry_delay j.msg.num_delivered in
      let hooks = run_hooks on_failure 0 (λ mw. mw.failure) ectx j.middlewares in
      (hooks.0, cancel_pulse ++ (logged ∷ nak delay ∷ hooks.1))

  -- The response, for an event that has one and a message that names an inbox.
  unfoldable pub respond : R → Act (Effect Bytes) (Unit {0})
  respond r = elim j.encode_response [
    | none ↦ pure tt
    | some encode ↦ elim (encode r) [
      | raise e ↦ (raise e, [])
      | ok payload ↦ elim (get_header j.msg header_reply) [
        | none ↦ pure tt
        | some reply ↦ perform (responded reply payload j.msg.headers) (ok tt)
      ]
    ]
  ]

  -- What the `else` block does after the acknowledgement: the response and the hooks.
  pub after_ack : T → R → Act (Effect Bytes) (Unit {0})
  unfolding respond
  after_ack event r =
      let octx : OkContext Bytes T = record {
        actor = j.names;
        msg = j.msg;
        message = event;
        duration = j.duration;
      } in
      respond r >> run_hooks on_success 0 (λ mw. mw.success) octx j.middlewares

  -- The `else` block.
  after_success : T → R → Act (Effect Bytes) (Unit {0})
  unfolding cancel_pulse after_ack
  after_success event r =
      let m = perform ack j.acked >> after_ack event r in (m.0, cancel_pulse ++ m.1)

  -- What follows the `try` block. Another `BaseException` is not caught, and passes.
  pub after_try : Ended T R → Act (Effect Bytes) (Unit {0})
  unfolding after_failure after_success
  after_try (finished event r) = after_success event r
  after_try (failed event e) = if is_caught e then after_failure event e else (raise e, [])

  -- The handling of a message that is due.
  unfoldable pub handle_due : Act (Effect Bytes) (Unit {0})
  unfolding try_block after_try
  handle_due =
      let start : Act (Effect Bytes) (Unit {0}) =
        (ok tt, if j.pulse then pulse_started ∷ [] else []) in
      start >> (try_block >>= after_try)

  -- A message is put back if more than a millisecond is left of its delay.
  handle_delayed : ℕ → Act (Effect Bytes) (Unit {0})
  unfolding handle_due
  handle_delayed delayed_until =
      if ltb (j.now + 1) delayed_until
      then perform (nak (delayed_until - j.now)) j.naked
      else handle_due

  unfoldable pub handle_message : Act (Effect Bytes) (Unit {0})
  unfolding handle_delayed
  handle_message = elim (get_header j.msg header_delay) [
    | none ↦ handle_due
    | some text ↦
        if truthy (some text)
        then (elim (j.float text) [ raise e ↦ (raise e, []) | ok t ↦ handle_delayed t ])
        else handle_due
  ]
