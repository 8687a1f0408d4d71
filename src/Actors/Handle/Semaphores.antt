-- ===== src/Actors/Handle/Semaphores.antt =====
-- The semaphores around the handling of a message.
use walnats.Prelude.{
  ℕ, zero, suc, ◌≡◌, ◌∙◌, ap, refl, Bool, inl, inr, Option, none, some, List, [], ◌∷◌, ◌++◌, arith,
  if◌then◌else◌,
}
use walnats.Exceptions.{Exc, Result, ok, raise, Result-cases}
use walnats.Effects.{Act, ◌>>=◌, perform}
use walnats.Actors.Priority.{
  actor_sem, global_sem, SemEffect, acquired, released, yielded, with_sem, turns, acquire, value,
}
use walnats.Actors.Handle.{
  Effect, ack, pulse_started, sem, decoded, called, Hook, Hooks, run_hooks, Job, Ended, finished,
  failed, start_context, call_handler, run_event, run_block, cancel_pulse, on_start, on_failure,
  on_success, after_failure, respond, after_ack, after_success, after_try, try_block, handle_due,
  handle_message,
}

-- What a job holds: the actor's semaphore is taken first and released last.
pub data Held : Type 0 where
  neither actor_only both : Held

-- What an effect asks and changes: no semaphore is taken twice or released unless it is held, and the
-- decoding and the handler need both. `none` stands for a breach.
abbrev pub step_sem : Held → SemEffect → Option Held
step_sem h yielded = some h
step_sem neither (acquired actor_sem) = some actor_only
step_sem actor_only (acquired global_sem) = some both
step_sem both (released global_sem) = some actor_only
step_sem actor_only (released actor_sem) = some neither
step_sem _ _ = none

abbrev pub guarded : Held → Option Held
guarded both = some both
guarded _ = none

module _ {Bytes : Type 0} where
  abbrev pub step : Option Held → Effect Bytes → Option Held
  step none e = none
  step (some h) (sem s) = step_sem h s
  step (some h) decoded = guarded h
  step (some h) called = guarded h
  step (some h) _ = some h

  -- What is held after a trace.
  unfoldable pub replay : Option Held → List (Effect Bytes) → Option Held
  replay h [] = h
  replay h (e ∷ t) = replay (step h e) t

  replay-append :
      (h : Option Held) (t u : List (Effect Bytes)) → replay h (t ++ u) ≡ replay (replay h t) u
  unfolding replay
  replay-append h [] u = refl
  replay-append h (e ∷ t) u = replay-append (step h e) t u

  -- The trace has no breach and ends with what was held at its start.
  abbrev Keeps : Held → List (Effect Bytes) → Type 0
  Keeps h t = replay (some h) t ≡ some h

  Keeps-append : {h : Held} (t u : List (Effect Bytes)) → Keeps h t → Keeps h u → Keeps h (t ++ u)
  Keeps-append {h} t u k l = replay-append (some h) t u ∙ ap (λ x. replay x u) k ∙ l

  Keeps-bind :
      {A B : Type 0} {h : Held} (m : Act (Effect Bytes) A) (f : A → Act (Effect Bytes) B)
      → Keeps h m.1
      → ((a : A) → m.0 ≡ ok a → Keeps h (f a).1)
      → Keeps h (m >>= f).1
  Keeps-bind (ok a, t) f k l = Keeps-append t (f a).1 k (l a refl)
  Keeps-bind (raise e, t) f k l = k

module _ {Bytes T C : Type 0} (h : Held) where
  Keeps-run_hooks :
      (which : Hook) (i : ℕ) (call : Hooks Bytes T → C → Result Bool) (ctx : C)
      (mws : List (Hooks Bytes T))
      → Keeps h (run_hooks which i call ctx mws).1
  unfolding run_hooks replay
  Keeps-run_hooks which i call ctx [] = refl
  Keeps-run_hooks which i call ctx (mw ∷ mws) =
      ground (arith, Keeps-run_hooks which (suc i) call ctx mws)

module _ {Bytes A : Type 0} (r : Result (Unit {0})) (body : Act (Effect Bytes) A) where
  Keeps-with_actor_sem : Keeps actor_only body.1 → Keeps neither (with_sem sem actor_sem r body).1
  unfolding with_sem replay
  Keeps-with_actor_sem k = elim (Result-cases r) [
    | inl (u, e) ↦ rw e (
        replay-append (some actor_only) body.1 _
        ∙ ap (λ x. step {Bytes = Bytes} x (sem (released actor_sem))) k)
    | inr (x, e) ↦ rw e refl
  ]

  Keeps-with_global_sem : Keeps both body.1 → Keeps actor_only (with_sem sem global_sem r body).1
  unfolding with_sem replay
  Keeps-with_global_sem k = elim (Result-cases r) [
    | inl (u, e) ↦ rw e (
        replay-append (some both) body.1 _
        ∙ ap (λ x. step {Bytes = Bytes} x (sem (released global_sem))) k)
    | inr (x, e) ↦ rw e refl
  ]

module _ (Bytes : Type 0) where
  Keeps-yielded : (h : Held) → Keeps {Bytes = Bytes} h (sem yielded ∷ [])
  unfolding replay
  Keeps-yielded h = refl

  Keeps-turns :
      (n : ℕ) (o : ℕ → Result (Unit {0}) × Result (Unit {0}))
      → Keeps {Bytes = Bytes} actor_only (turns sem n o).1
  unfolding turns
  Keeps-turns zero o = unfold replay in refl
  Keeps-turns (suc n) o =
      let turn : Act (Effect Bytes) (Unit {0}) = perform (sem yielded) (o n).1 in
      Keeps-bind (with_sem sem global_sem (o n).0 turn) (λ _. turns sem n o)
        (Keeps-with_global_sem (o n).0 turn (Keeps-yielded both)) (λ _ _. Keeps-turns n o)

module _ {Bytes T R : Type 0} (j : Job Bytes T R) where
  Keeps-run_event : (event : T) → Keeps both (run_event j event).1
  unfolding run_event
  Keeps-run_event event =
      Keeps-bind (run_hooks on_start 0 (λ mw. mw.start) (start_context j event) j.middlewares)
        (λ _. perform called (call_handler j event))
        (Keeps-run_hooks both on_start 0 (λ mw. mw.start) (start_context j event) j.middlewares)
        (λ _ _. unfold replay in refl)

  Keeps-run_block : Keeps both (run_block j).1
  unfolding run_block replay
  Keeps-run_block = elim (Result-cases (j.decode j.msg.payload)) [
    | inl (event, e) ↦
        rw (e, run_block)
          (Keeps-append (decoded ∷ []) (run_event j event).1 refl (Keeps-run_event event))
    | inr (x, e) ↦ rw (e, run_block) refl
  ]

  Keeps-try_block : Keeps neither (try_block j).1
  unfolding try_block acquire
  Keeps-try_block = Keeps-with_actor_sem j.take_actor _ (
      Keeps-bind (turns sem (value j.priority) j.take_turn)
        (λ _. with_sem sem global_sem j.take_global (run_block j))
        (Keeps-turns Bytes (value j.priority) j.take_turn)
        (λ _ _. Keeps-with_global_sem j.take_global (run_block j) Keeps-run_block))

  Keeps-cancel_pulse : Keeps neither (cancel_pulse j)
  unfolding cancel_pulse replay
  Keeps-cancel_pulse = ground arith

  Keeps-ack : Keeps {Bytes = Bytes} neither (ack ∷ [])
  unfolding replay
  Keeps-ack = refl

  Keeps-respond : (r : R) → Keeps neither (respond j r).1
  unfolding respond replay
  Keeps-respond r = ground arith

  Keeps-hooks :
      {C : Type 0} (which : Hook) (call : Hooks Bytes T → C → Result Bool) (ctx : C)
      → Keeps neither (run_hooks which 0 call ctx j.middlewares).1
  Keeps-hooks which call ctx = Keeps-run_hooks neither which 0 call ctx j.middlewares

  Keeps-after_failure : (event : Option T) (e : Exc) → Keeps neither (after_failure j event e).1
  unfolding after_failure replay
  Keeps-after_failure event e =
      Keeps-append (cancel_pulse j) _ Keeps-cancel_pulse
        (Keeps-hooks on_failure (λ mw. mw.failure) _)

  Keeps-after_ack : (event : T) (r : R) → Keeps neither (after_ack j event r).1
  unfolding after_ack
  Keeps-after_ack event r =
      Keeps-bind (respond j r) _ (Keeps-respond r)
        (λ _ _. Keeps-hooks on_success (λ mw. mw.success) _)

  Keeps-after_success : (event : T) (r : R) → Keeps neither (after_success j event r).1
  unfolding after_success
  Keeps-after_success event r =
      Keeps-append (cancel_pulse j) _ Keeps-cancel_pulse
        (Keeps-bind (perform ack j.acked) _ Keeps-ack (λ _ _. Keeps-after_ack event r))

  Keeps-after_try : (e : Ended T R) → Keeps neither (after_try j e).1
  unfolding after_try replay
  Keeps-after_try (finished event r) = Keeps-after_success event r
  Keeps-after_try (failed event e) = ground (arith, Keeps-after_failure event e)

  Keeps-pulse : Keeps {Bytes = Bytes} neither (if j.pulse then pulse_started ∷ [] else [])
  unfolding replay
  Keeps-pulse = ground arith

  Keeps-handle_due : Keeps neither (handle_due j).1
  unfolding handle_due
  Keeps-handle_due =
      Keeps-append (if j.pulse then pulse_started ∷ [] else []) _ Keeps-pulse
        (Keeps-bind (try_block j) (after_try j) Keeps-try_block (λ e _. Keeps-after_try e))

  -- Whatever happens, a job takes the actor's semaphore before the shared one and releases it after it,
  -- takes none twice, decodes and calls the handler only while it holds both, and holds none in the end.
  pub semaphores_released : replay (some neither) (handle_message j).1 ≡ some neither
  unfolding handle_message replay
  semaphores_released = ground (arith, Keeps-handle_due)
