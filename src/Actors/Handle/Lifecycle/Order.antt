-- ===== src/Actors/Handle/Lifecycle/Order.antt =====
-- The order in which `_handle_message` calls the hooks of one middleware.
use walnats.Prelude.{
  ℕ, ◌≡◌, refl, inl, inr, Bool, true, false, Option, List, [], ◌∷◌, ◌++◌, if◌then◌else◌, arith,
  Bool-cases,
}
use walnats.Exceptions.{Exc, Result, ok, raise}
use walnats.Effects.{Act, ◌>>◌, ◌>>=◌, perform}
use walnats.Context.{ErrorContext, OkContext}
use walnats.Actors.Handle.{
  Effect, ack, pulse_started, Hook, on_start, on_failure, on_success, Job, Ended, finished, failed,
  is_caught, cancel_pulse, respond, after_ack, after_failure, after_success, after_try, try_block,
  handle_due, handle_message,
}
use walnats.Actors.Handle.Settlement.{Handled, due, delayed, unread, handle_message-Handled}
use walnats.Actors.Handle.Lifecycle.{hooks_of, hooks_of-append, run_hooks-Called}
use walnats.Actors.Handle.Lifecycle.Trying.{AtMost, TryHooks, is_there, try_block-TryHooks}

-- What a middleware may see of a message. A success is seen after the start, a failure may come
-- without a start.
pub data IsLifecycle : List Hook → Type 0 where
  unseen : IsLifecycle []
  only_started : IsLifecycle (on_start ∷ [])
  only_failed : IsLifecycle (on_failure ∷ [])
  start_failed : IsLifecycle (on_start ∷ on_failure ∷ [])
  start_succeeded : IsLifecycle (on_start ∷ on_success ∷ [])

at_failure : (a b : List Hook) → AtMost on_start a → AtMost on_failure b → IsLifecycle (a ++ b)
at_failure a b (inl x) (inl y) = rw (x, y) unseen
at_failure a b (inr x) (inl y) = rw (x, y) only_started
at_failure a b (inl x) (inr y) = rw (x, y) only_failed
at_failure a b (inr x) (inr y) = rw (x, y) start_failed

at_start : (a : List Hook) → AtMost on_start a → IsLifecycle a
at_start a (inl x) = rw x unseen
at_start a (inr x) = rw x only_started

-- What follows the acknowledgement calls the hook of a success, if the middleware is there.
abbrev Follows : Bool → List Hook → Type 0
Follows inside b = AtMost on_success b × (inside ≡ false → b ≡ [])

at_success :
    (inside : Bool) (a b : List Hook)
    → a ≡ (if inside then on_start ∷ [] else [])
    → Follows inside b
    → IsLifecycle (a ++ b)
at_success true a b e (inl x, out) = rw (e, x) only_started
at_success true a b e (inr x, out) = rw (e, x) start_succeeded
at_success false a b e (x, out) = rw (e, out refl) unseen

module _ {Bytes T R : Type 0} (i : ℕ) (j : Job Bytes T R) where
  Follows-bind :
      (inside : Bool) (m n : Act (Effect Bytes) (Unit {0}))
      → hooks_of i m.1 ≡ []
      → Follows inside (hooks_of i n.1)
      → Follows inside (hooks_of i (m >> n).1)
  Follows-bind inside (raise e, t) n e' h = (inl e', λ _. e')
  Follows-bind inside (ok u, t) n e' h = rw (hooks_of-append i t n.1, e') h

  pub hooks_of-respond : (r : R) → hooks_of i (respond j r).1 ≡ []
  unfolding respond
  hooks_of-respond r = grind arith

  pub hooks_of-cancel_pulse : hooks_of i (cancel_pulse j) ≡ []
  unfolding cancel_pulse
  hooks_of-cancel_pulse = grind arith

  Follows-after_ack :
      (event : T) (r : R) → Follows (is_there i j) (hooks_of i (after_ack j event r).1)
  unfolding after_ack
  Follows-after_ack event r =
      let ctx : OkContext Bytes T = record {
        actor = j.names;
        msg = j.msg;
        message = event;
        duration = j.duration;
      } in
      let c = run_hooks-Called i on_success 0 (λ mw. mw.success) ctx j.middlewares in
      Follows-bind (is_there i j) (respond j r) _ (hooks_of-respond r) (c.once, c.outside)

  pub none_acked : (r : Result (Unit {0})) → hooks_of i (perform {E = Effect Bytes} ack r).1 ≡ []
  none_acked (ok u) = refl
  none_acked (raise e) = refl

  Follows-after_success :
      (event : T) (r : R) → Follows (is_there i j) (hooks_of i (after_success j event r).1)
  unfolding after_success
  Follows-after_success event r =
      rw (hooks_of-append i (cancel_pulse j) _, hooks_of-cancel_pulse)
        (Follows-bind (is_there i j) (perform ack j.acked) (after_ack j event r)
          (none_acked j.acked) (Follows-after_ack event r))

  AtMost-after_failure :
      (event : Option T) (e : Exc) → AtMost on_failure (hooks_of i (after_failure j event e).1)
  unfolding after_failure
  AtMost-after_failure event e =
      let ctx : ErrorContext Bytes T = record {
        actor = j.names;
        msg = j.msg;
        message = event;
        exc = e;
      } in
      let c = run_hooks-Called i on_failure 0 (λ mw. mw.failure) ctx j.middlewares in
      rw (hooks_of-append i (cancel_pulse j) _, hooks_of-cancel_pulse) c.once

  after_try-IsLifecycle :
      (e : Ended T R) (a : List Hook)
      → TryHooks (is_there i j) (ok e) a
      → IsLifecycle (a ++ hooks_of i (after_try j e).1)
  unfolding after_try
  after_try-IsLifecycle (finished event r) a h =
      at_success (is_there i j) a _ h (Follows-after_success event r)
  after_try-IsLifecycle (failed event e) a h = elim (Bool-cases (is_caught e)) [
    | inl caught ↦ rw caught (at_failure a _ h (AtMost-after_failure event e))
    | inr passed ↦ rw passed (at_failure a [] h (inl refl))
  ]

  bind-IsLifecycle :
      (m : Act (Effect Bytes) (Ended T R)) (f : Ended T R → Act (Effect Bytes) (Unit {0}))
      → TryHooks (is_there i j) m.0 (hooks_of i m.1)
      → ((e : Ended T R) (a : List Hook)
          → TryHooks (is_there i j) (ok e) a
          → IsLifecycle (a ++ hooks_of i (f e).1))
      → IsLifecycle (hooks_of i (m >>= f).1)
  bind-IsLifecycle (ok e, t) f h g = rw (hooks_of-append i t (f e).1) (g e (hooks_of i t) h)
  bind-IsLifecycle (raise e, t) f h g = at_start (hooks_of i t) h

  after_pulse :
      (pulse : Bool) (t : List (Effect Bytes))
      → IsLifecycle (hooks_of i t)
      → IsLifecycle (hooks_of i ((if pulse then pulse_started ∷ [] else []) ++ t))
  after_pulse true t h = h
  after_pulse false t h = h

  handle_due-IsLifecycle : IsLifecycle (hooks_of i (handle_due j).1)
  unfolding handle_due
  handle_due-IsLifecycle =
      after_pulse j.pulse _ (
        bind-IsLifecycle (try_block j) (after_try j) (try_block-TryHooks i j) after_try-IsLifecycle)

  of_Handled : (m : Act (Effect Bytes) (Unit {0})) → Handled j m → IsLifecycle (hooks_of i m.1)
  of_Handled m (due same) = rw same handle_due-IsLifecycle
  of_Handled m (delayed d same) = rw same unseen
  of_Handled m (unread e same) = rw same unseen

  -- A middleware of the list sees of one message nothing, its start, its failure, its start and its
  -- failure, or its start and its success, each hook at most once and in this order.
  pub handle_message-IsLifecycle : IsLifecycle (hooks_of i (handle_message j).1)
  handle_message-IsLifecycle = of_Handled _ (handle_message-Handled j)
