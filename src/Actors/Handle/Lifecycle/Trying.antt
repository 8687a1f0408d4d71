-- ===== src/Actors/Handle/Lifecycle/Trying.antt =====
-- The hooks of one middleware that the `try` block of `_handle_message` calls.
use walnats.Prelude.{
  ℕ, zero, suc, ◌≡◌, ◌⊎◌, ◌∙◌, refl, ap, inl, inr, Bool, true, false, none, some, List, [], ◌∷◌,
  ◌++◌, if◌then◌else◌, nat_eq, length,
}
use mathlib.Core.List.{append-nil}
use walnats.Exceptions.{Exc, Result, ok, raise, Result-cases}
use walnats.Effects.{Act, ◌>>◌, perform}
use walnats.Actors.Priority.{Sem, actor_sem, global_sem, released, with_sem, turns, acquire, value}
use walnats.Actors.Handle.{
  Effect, sem, called, Hook, on_start, run_hooks, Job, Ended, finished, failed, start_context,
  call_handler, run_event, run_block, try_block,
}
use walnats.Actors.Handle.Lifecycle.{hooks_of, hooks_of-append, in_range, Called, run_hooks-Called}

abbrev pub AtMost : Hook → List Hook → Type 0
AtMost w t = (t ≡ []) ⊎ (t ≡ w ∷ [])

-- What the hooks of a middleware see of a `try` block.
abbrev pub TryHooks : {T R : Type 0} → Bool → Result (Ended T R) → List Hook → Type 0
TryHooks inside (ok (finished event r)) t = t ≡ (if inside then on_start ∷ [] else [])
TryHooks inside (ok (failed event e)) t = AtMost on_start t
TryHooks inside (raise e) t = AtMost on_start t

module _ {Bytes T R : Type 0} (i : ℕ) (j : Job Bytes T R) where
  abbrev pub is_there : Bool
  is_there = in_range i 0 (length j.middlewares)

  no_hooks-with_sem :
      {A : Type 0} (P : Result A → List Hook → Type 0) (s : Sem) (r : Result (Unit {0}))
      (body : Act (Effect Bytes) A)
      → ((e : Exc) → P (raise e) [])
      → P body.0 (hooks_of i body.1)
      → P (with_sem sem s r body).0 (hooks_of i (with_sem sem s r body).1)
  unfolding with_sem
  no_hooks-with_sem P s r body at_raise at_body = elim (Result-cases r) [
    | inr (e, raised) ↦ rw raised (at_raise e)
    | inl (u, free) ↦ rw free (
        rw (hooks_of-append i body.1 (sem (released s) ∷ []), append-nil (hooks_of i body.1))
          at_body)
  ]

  no_hooks-turns :
      (n : ℕ) (o : ℕ → Result (Unit {0}) × Result (Unit {0}))
      → hooks_of i (turns {E = Effect Bytes} sem n o).1 ≡ []
  unfolding turns with_sem
  no_hooks-turns zero o = refl
  no_hooks-turns (suc n) o = elim (Result-cases (o n).0) [
    | inr (e, raised) ↦ rw raised refl
    | inl (u, free) ↦ elim (Result-cases (o n).1) [
      | inr (e, cut) ↦ rw (free, cut) refl
      | inl (u', slept) ↦ rw (free, slept) (no_hooks-turns n o)
    ]
  ]

  pub then_none :
      (t u : List (Effect Bytes)) → hooks_of i u ≡ [] → hooks_of i (t ++ u) ≡ hooks_of i t
  then_none t u none_there =
      hooks_of-append i t u ∙ (ap (λ l. hooks_of i t ++ l) none_there ∙ append-nil (hooks_of i t))

  full_or_none :
      (inside : Bool) (w : Hook) (t : List Hook)
      → Called i w inside (ok tt) t
      → t ≡ (if inside then w ∷ [] else [])
  full_or_none true w t c = c.full refl refl
  full_or_none false w t c = c.outside refl

  call-TryHooks :
      (inside : Bool) (event : T) (m : Act (Effect Bytes) (Unit {0})) (r : Result R)
      → Called i on_start inside m.0 (hooks_of i m.1)
      → TryHooks inside
          (ok (elim (m >> perform called r).0 [
            | ok x ↦ finished event x
            | raise e ↦ failed (some event) e
          ]))
          (hooks_of i (m >> perform called r).1)
  call-TryHooks inside event (raise e, t) r c = c.once
  call-TryHooks inside event (ok u, t) (ok r) c =
      rw (then_none t (called ∷ []) refl) (full_or_none inside on_start (hooks_of i t) c)
  call-TryHooks inside event (ok u, t) (raise e) c = rw (then_none t (called ∷ []) refl) c.once

  run_event-TryHooks :
      (event : T) → TryHooks is_there (run_event j event).0 (hooks_of i (run_event j event).1)
  unfolding run_event
  run_event-TryHooks event =
      call-TryHooks is_there event
        (run_hooks on_start 0 (λ mw. mw.start) (start_context j event) j.middlewares)
        (call_handler j event)
        (run_hooks-Called i on_start 0 (λ mw. mw.start) (start_context j event) j.middlewares)

  run_block-TryHooks : TryHooks is_there (run_block j).0 (hooks_of i (run_block j).1)
  unfolding run_block
  run_block-TryHooks = elim (Result-cases (j.decode j.msg.payload)) [
    | inl (event, e) ↦ rw (e, run_block) (run_event-TryHooks event)
    | inr (x, e) ↦ rw (e, run_block) (inl refl)
  ]

  turns-TryHooks :
      (m : Act (Effect Bytes) (Unit {0})) (n : Act (Effect Bytes) (Ended T R))
      → hooks_of i m.1 ≡ []
      → TryHooks is_there n.0 (hooks_of i n.1)
      → TryHooks is_there (m >> n).0 (hooks_of i (m >> n).1)
  turns-TryHooks (raise e, t) n none_there h = inl none_there
  turns-TryHooks (ok u, t) n none_there h = rw (hooks_of-append i t n.1, none_there) h

  locked-TryHooks :
      TryHooks is_there
        (with_sem sem actor_sem j.take_actor
          (acquire sem j.priority j.take_turn j.take_global (run_block j))).0
        (hooks_of i
          (with_sem sem actor_sem j.take_actor
            (acquire sem j.priority j.take_turn j.take_global (run_block j))).1)
  unfolding acquire
  locked-TryHooks =
      no_hooks-with_sem (TryHooks is_there) actor_sem j.take_actor _ (λ e. inl refl)
        (turns-TryHooks (turns sem (value j.priority) j.take_turn) _
          (no_hooks-turns (value j.priority) j.take_turn)
          (no_hooks-with_sem (TryHooks is_there) global_sem j.take_global (run_block j)
            (λ e. inl refl) run_block-TryHooks))

  ended_of : Result (Ended T R) → Ended T R
  ended_of (ok e) = e
  ended_of (raise e) = failed none e

  ended-TryHooks :
      (r : Result (Ended T R)) (t : List Hook)
      → TryHooks is_there r t
      → TryHooks is_there (ok (ended_of r)) t
  unfolding ended_of
  ended-TryHooks (ok (finished event r)) t h = h
  ended-TryHooks (ok (failed event e)) t h = h
  ended-TryHooks (raise e) t h = h

  pub try_block-TryHooks : TryHooks is_there (try_block j).0 (hooks_of i (try_block j).1)
  unfolding try_block ended_of
  try_block-TryHooks = ended-TryHooks _ _ locked-TryHooks
