-- ===== src/Actors/Handle/Lifecycle/Outcomes.antt =====
-- The outcome that `_handle_message` tells a middleware, against the answer to the server.
use walnats.Prelude.{
  ℕ, ◌≡◌, ◌∙◌, refl, ap, sym, inl, inr, Bool, true, false, Option, List, [], ◌∷◌, ◌++◌, arith,
  if◌then◌else◌, count_if, count_if-append, Bool-cases,
}
use walnats.Exceptions.{Exc, Result, ok, raise}
use walnats.Effects.{Act, ◌>>◌, ◌>>=◌, perform}
use walnats.Context.{ErrorContext, OkContext}
use walnats.Actors.Handle.{
  Effect, ack, pulse_started, Hook, on_failure, on_success, Job, Ended, finished, failed, is_caught,
  cancel_pulse, respond, after_ack, after_failure, after_success, after_try, try_block, handle_due,
}
use walnats.Actors.Handle.Settlement.{
  acks, naks, ended, acks_for, naks_for, answers_due, result_due, try_block_ends,
}
use walnats.Actors.Handle.Lifecycle.{hooks_of, hooks_of-append, run_hooks-Called}
use walnats.Actors.Handle.Lifecycle.Trying.{TryHooks, is_there, try_block-TryHooks}
use walnats.Actors.Handle.Lifecycle.Order.{hooks_of-respond, hooks_of-cancel_pulse, none_acked}

abbrev pub is_success : Hook → Bool
is_success on_success = true
is_success _ = false

abbrev pub is_failure : Hook → Bool
is_failure on_failure = true
is_failure _ = false

-- The hook for an end of the `try` block.
abbrev told : {T R : Type 0} → Ended T R → Hook
told (finished event r) = on_success
told (failed event e) = on_failure

module _ {Bytes T R : Type 0} (i : ℕ) (j : Job Bytes T R) (inside : is_there i j ≡ true) where
  hooks_of-next :
      (m n : Act (Effect Bytes) (Unit {0})) (w : Hook)
      → hooks_of i m.1 ≡ []
      → (n.0 ≡ ok tt → hooks_of i n.1 ≡ w ∷ [])
      → (m >> n).0 ≡ ok tt
      → hooks_of i (m >> n).1 ≡ w ∷ []
  hooks_of-next (ok u, t) n w e h d = rw (hooks_of-append i t n.1, e) (h d)
  hooks_of-next (raise x, t) n w e h d = absurd (cc d)

  hooks_of-after_ack :
      (event : T) (r : R)
      → (after_ack j event r).0 ≡ ok tt
      → hooks_of i (after_ack j event r).1 ≡ on_success ∷ []
  unfolding after_ack
  hooks_of-after_ack event r =
      let ctx : OkContext Bytes T = record {
        actor = j.names;
        msg = j.msg;
        message = event;
        duration = j.duration;
      } in
      let c = run_hooks-Called i on_success 0 (λ mw. mw.success) ctx j.middlewares in
      hooks_of-next (respond j r) _ on_success (hooks_of-respond i j r) (λ d. c.full d inside)

  hooks_of-after_success :
      (event : T) (r : R)
      → (after_success j event r).0 ≡ ok tt
      → hooks_of i (after_success j event r).1 ≡ on_success ∷ []
  unfolding after_success
  hooks_of-after_success event r d =
      rw (hooks_of-append i (cancel_pulse j) _, hooks_of-cancel_pulse i j)
        (hooks_of-next (perform ack j.acked) (after_ack j event r) on_success
          (none_acked i j j.acked) (hooks_of-after_ack event r) d)

  hooks_of-after_failure :
      (event : Option T) (e : Exc)
      → (after_failure j event e).0 ≡ ok tt
      → hooks_of i (after_failure j event e).1 ≡ on_failure ∷ []
  unfolding after_failure
  hooks_of-after_failure event e d =
      let ctx : ErrorContext Bytes T = record {
        actor = j.names;
        msg = j.msg;
        message = event;
        exc = e;
      } in
      let c = run_hooks-Called i on_failure 0 (λ mw. mw.failure) ctx j.middlewares in
      rw (hooks_of-append i (cancel_pulse j) _, hooks_of-cancel_pulse i j) (c.full d inside)

  hooks_of-after_try :
      (e : Ended T R) → (after_try j e).0 ≡ ok tt → hooks_of i (after_try j e).1 ≡ told e ∷ []
  unfolding after_try
  hooks_of-after_try (finished event r) d = hooks_of-after_success event r d
  hooks_of-after_try (failed event e) d = elim (Bool-cases (is_caught e)) [
    | inl caught ↦ rw caught (hooks_of-after_failure event e (rw caught at d))
    | inr passed ↦ absurd (ground (arith, passed, d))
  ]

  -- The start is not an outcome.
  untold :
      (r : Result (Ended T R)) (t : List Hook)
      → TryHooks (is_there i j) r t
      → (count_if is_success t ≡ 0) × (count_if is_failure t ≡ 0)
  untold (ok (finished event r)) t h = rw (h, inside) (refl, refl)
  untold (ok (failed event e)) t (inl none_there) = rw none_there (refl, refl)
  untold (ok (failed event e)) t (inr started) = rw started (refl, refl)
  untold (raise e) t (inl none_there) = rw none_there (refl, refl)
  untold (raise e) t (inr started) = rw started (refl, refl)

  counted :
      (e : Ended T R) (a : List Hook)
      → TryHooks (is_there i j) (ok e) a
      → (after_try j e).0 ≡ ok tt
      → (count_if is_success (a ++ told e ∷ []) ≡ acks_for j e)
        × (count_if is_failure (a ++ told e ∷ []) ≡ naks_for j e)
  unfolding after_try
  counted (finished event r) a h d = ground (
    arith,
    untold (ok (finished event r)) a h,
    count_if-append is_success a (on_success ∷ []),
    count_if-append is_failure a (on_success ∷ []),
  )
  counted (failed event e) a h d = ground (
    arith,
    untold (ok (failed event e)) a h,
    count_if-append is_success a (on_failure ∷ []),
    count_if-append is_failure a (on_failure ∷ []),
    d,
  )

  hooks_of-bind :
      (m : Act (Effect Bytes) (Ended T R)) (f : Ended T R → Act (Effect Bytes) (Unit {0}))
      (e : Ended T R)
      → m.0 ≡ ok e
      → hooks_of i (m >>= f).1 ≡ hooks_of i m.1 ++ hooks_of i (f e).1
  hooks_of-bind (ok a, t) f e h = hooks_of-append i t (f a).1 ∙ ap (λ x. hooks_of i t ++ x) (cc h)
  hooks_of-bind (raise x, t) f e h = absurd (cc h)

  hooks_of-pulse :
      (pulse : Bool) (t : List (Effect Bytes))
      → hooks_of i ((if pulse then pulse_started ∷ [] else []) ++ t) ≡ hooks_of i t
  hooks_of-pulse true t = refl
  hooks_of-pulse false t = refl

  hooks_due :
      (e : Ended T R)
      → ended j ≡ ok e
      → hooks_of i (handle_due j).1 ≡ hooks_of i (try_block j).1 ++ hooks_of i (after_try j e).1
  unfolding handle_due
  hooks_due e h = hooks_of-pulse j.pulse _ ∙ hooks_of-bind (try_block j) (after_try j) e h

  -- If the handling of a message that is due returns without an exception, then every middleware of
  -- the list is told of as many successes as acknowledgements are sent, and of as many failures as
  -- negative acknowledgements are sent.
  pub outcome_told :
      (handle_due j).0 ≡ ok tt
      → (count_if is_success (hooks_of i (handle_due j).1) ≡ acks (handle_due j).1)
        × (count_if is_failure (hooks_of i (handle_due j).1) ≡ naks (handle_due j).1)
  outcome_told d =
      let (e, ends) = try_block_ends j in
      let done = sym (result_due j e ends) ∙ d in
      let answers = answers_due j e ends in
      let hooks =
        hooks_due e ends ∙ ap (λ t. hooks_of i (try_block j).1 ++ t) (hooks_of-after_try e done) in
      let seen = rw ends at (try_block-TryHooks i j) in
      rw (hooks, answers.0, answers.1) (counted e _ seen done)
