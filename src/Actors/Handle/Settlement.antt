-- ===== src/Actors/Handle/Settlement.antt =====
-- The answers that `_handle_message` gives to the server, and its pulse task.
use walnats.Prelude.{
  ℕ, String, ◌+◌, ◌≤◌, ◌≡◌, ◌∙◌, sym, inl, inr, refl, Bool, true, false, Option, some, List, [],
  ◌∷◌, arith, count_if, count_if-append, if◌then◌else◌, Option-cases, Bool-cases, ltb, ◌-◌,
}
use walnats.Exceptions.{Exc, Result, ok, raise, Result-cases}
use walnats.Effects.{Act, perform}
use walnats.Context.{ErrorContext, get_header, truthy, header_delay}
use walnats.Actors.Handle.{
  Effect, nak, ack, pulse_started, responded, Hook, on_failure, on_success, Hooks, run_hooks, Job,
  Ended, finished, failed, is_caught, cancel_pulse, after_failure, respond, after_ack,
  after_success, after_try, try_block, handle_due, handle_delayed, handle_message,
}
use walnats.Actors.Handle.Counts.{
  Lacks, Lacks-bind, IgnoresHooks, IgnoresTry, Lacks-run_hooks, Lacks-try_block,
}

module _ {Bytes : Type 0} where
  -- The message is acknowledged.
  abbrev pub is_ack : Effect Bytes → Bool
  is_ack ack = true
  is_ack _ = false

  -- The message is put back.
  abbrev pub is_nak : Effect Bytes → Bool
  is_nak (nak d) = true
  is_nak _ = false

  abbrev pub acks : List (Effect Bytes) → ℕ
  acks t = count_if is_ack t

  abbrev pub naks : List (Effect Bytes) → ℕ
  naks t = count_if is_nak t

  is_ack-IgnoresTry : IgnoresTry is_ack
  is_ack-IgnoresTry = record {
    hooks = record { at_hook = λ w i. refl; at_spawned = λ w i. refl };
    at_sem = λ s. refl;
    at_decoded = refl;
    at_called = refl;
  }

  pub is_nak-IgnoresTry : IgnoresTry is_nak
  is_nak-IgnoresTry = record {
    hooks = record { at_hook = λ w i. refl; at_spawned = λ w i. refl };
    at_sem = λ s. refl;
    at_decoded = refl;
    at_called = refl;
  }

module _ {Bytes T R : Type 0} (j : Job Bytes T R) where
  abbrev start : List (Effect Bytes)
  start = if j.pulse then pulse_started ∷ [] else []

  -- How the `try` block of the message ends.
  abbrev pub ended : Result (Ended T R)
  ended = (try_block j).0

  -- The answers that an end of the `try` block asks for.
  abbrev pub acks_for : Ended T R → ℕ
  acks_for (finished event r) = 1
  acks_for (failed event e) = 0

  abbrev pub naks_for : Ended T R → ℕ
  naks_for (finished event r) = 0
  naks_for (failed event e) = if is_caught e then 1 else 0

  module _ (p : Effect Bytes → Bool) (g : IgnoresHooks p) where
    pub Lacks-hooks :
        {C : Type 0} (which : Hook) (call : Hooks Bytes T → C → Result Bool) (ctx : C)
        → Lacks p (run_hooks which 0 call ctx j.middlewares).1
    Lacks-hooks which call ctx = Lacks-run_hooks p g which 0 call ctx j.middlewares

    Lacks-respond :
        ((t : String) (b : Bytes) → p (responded t b j.msg.headers) ≡ false)
        → (r : R) → Lacks p (respond j r).1
    unfolding respond
    Lacks-respond no_response r = grind arith

    pub Lacks-after_ack :
        ((t : String) (b : Bytes) → p (responded t b j.msg.headers) ≡ false)
        → (event : T) (r : R) → Lacks p (after_ack j event r).1
    unfolding after_ack
    Lacks-after_ack no_response event r =
        Lacks-bind p (respond j r) _ (Lacks-respond no_response r)
          (λ _. Lacks-hooks on_success (λ mw. mw.success) _)

  answers_after_failure :
      (event : Option T) (e : Exc)
      → (acks (after_failure j event e).1 ≡ 0) × (naks (after_failure j event e).1 ≡ 1)
  unfolding after_failure cancel_pulse
  answers_after_failure event e =
      let ctx : ErrorContext Bytes T = record {
        actor = j.names;
        msg = j.msg;
        message = event;
        exc = e;
      } in
      (
        ground
            (arith, Lacks-hooks is_ack is_ack-IgnoresTry.hooks on_failure (λ mw. mw.failure) ctx),
        ground
            (arith, Lacks-hooks is_nak is_nak-IgnoresTry.hooks on_failure (λ mw. mw.failure) ctx),
      )

  answers_after_success :
      (event : T) (r : R)
      → (acks (after_success j event r).1 ≡ 1) × (naks (after_success j event r).1 ≡ 0)
  unfolding after_success cancel_pulse
  answers_after_success event r = (
    ground (arith, Lacks-after_ack is_ack is_ack-IgnoresTry.hooks (λ t b. refl) event r),
    ground (arith, Lacks-after_ack is_nak is_nak-IgnoresTry.hooks (λ t b. refl) event r),
  )

  answers_after_try :
      (e : Ended T R)
      → (acks (after_try j e).1 ≡ acks_for e) × (naks (after_try j e).1 ≡ naks_for e)
  unfolding after_try
  answers_after_try (finished event r) = answers_after_success event r
  answers_after_try (failed event e) = ground (arith, answers_after_failure event e)

  -- A message that is due is acknowledged exactly if the handler gave a value, and is put back exactly
  -- if the `try` block ended by an exception that is caught; each at most once.
  pub answers_due :
      (e : Ended T R)
      → ended ≡ ok e
      → (acks (handle_due j).1 ≡ acks_for e) × (naks (handle_due j).1 ≡ naks_for e)
  unfolding handle_due
  answers_due e h = (
    ground (
      arith,
      h,
      answers_after_try e,
      Lacks-try_block is_ack is_ack-IgnoresTry j,
      count_if-append is_ack (try_block j).1 (after_try j e).1,
    ),
    ground (
      arith,
      h,
      answers_after_try e,
      Lacks-try_block is_nak is_nak-IgnoresTry j,
      count_if-append is_nak (try_block j).1 (after_try j e).1,
    ),
  )

  pub try_block_ends : (e : Ended T R) × (ended ≡ ok e)
  unfolding try_block
  try_block_ends = (_, refl)

  -- A message is handled now, or is put back for its delay, or its delay cannot be read.
  pub data Handled (m : Act (Effect Bytes) (Unit {0})) : Type 0 where
    due : m ≡ handle_due j → Handled m
    delayed : (d : ℕ) → m ≡ perform (nak d) j.naked → Handled m
    unread : (e : Exc) → m ≡ (raise e, []) → Handled m

  pub handle_message-Handled : Handled (handle_message j)
  unfolding handle_message
  handle_message-Handled = elim (Option-cases (get_header j.msg header_delay)) [
    | inl absent ↦ due (rw (absent, handle_message) refl)
    | inr (t, e) ↦ elim (Bool-cases (truthy (some t))) [
      | inr empty ↦ due (rw (e, handle_message) (rw empty refl))
      | inl given ↦ elim (Result-cases (j.float t)) [
        | inr (x, bad) ↦ unread x (rw (e, handle_message) (rw (given, bad) refl))
        | inl (u, good) ↦ elim (Bool-cases (ltb (j.now + 1) u)) [
          | inl early ↦
              delayed (u - j.now)
                (rw (e, handle_message) (rw (given, good) (rw (early, handle_delayed) refl)))
          | inr late ↦
              due (rw (e, handle_message) (rw (given, good) (rw (late, handle_delayed) refl)))
        ]
      ]
    ]
  ]

  pub result_due : (e : Ended T R) → ended ≡ ok e → (handle_due j).0 ≡ (after_try j e).0
  unfolding handle_due
  result_due e h = ground (arith, h)

  answered : (e : Ended T R) → (after_try j e).0 ≡ ok tt → acks_for e + naks_for e ≡ 1
  unfolding after_try
  answered (finished event r) h = refl
  answered (failed event x) h = ground arith

  one_due : (handle_due j).0 ≡ ok tt → acks (handle_due j).1 + naks (handle_due j).1 ≡ 1
  one_due h =
      let (e, ends) = try_block_ends in
      omega (arith, answers_due e ends, answered e (sym (result_due e ends) ∙ h))

  one_of_result :
      (m : Act (Effect Bytes) (Unit {0})) → Handled m → m.0 ≡ ok tt → acks m.1 + naks m.1 ≡ 1
  one_of_result m (delayed d same) h = rw same refl
  one_of_result m (unread e same) h = absurd (cc (same, h))
  one_of_result m (due same) h = rw same (one_due (rw same at h))

  most_due : acks (handle_due j).1 + naks (handle_due j).1 ≤ 1
  most_due = let (e, ends) = try_block_ends in omega (arith, answers_due e ends, bounded e)
    where
      bounded : (e : Ended T R) → acks_for e + naks_for e ≤ 1
      bounded (finished event r) = omega arith
      bounded (failed event e) = ground arith

  most_of : (m : Act (Effect Bytes) (Unit {0})) → Handled m → acks m.1 + naks m.1 ≤ 1
  most_of m (delayed d same) = rw same (omega arith)
  most_of m (unread e same) = rw same (omega arith)
  most_of m (due same) = rw same most_due

  -- No message is answered twice: at most one acknowledgement or negative acknowledgement is sent.
  pub one_answer : acks (handle_message j).1 + naks (handle_message j).1 ≤ 1
  one_answer = most_of _ handle_message-Handled

  -- If the handling returns without an exception, exactly one answer was sent.
  pub answered_once :
      (handle_message j).0 ≡ ok tt → acks (handle_message j).1 + naks (handle_message j).1 ≡ 1
  answered_once h = one_of_result _ handle_message-Handled h
