-- ===== src/Actors/Handle/Lifecycle.antt =====
-- The hooks of one middleware in a trace, and those that one loop over the middlewares calls.
pub mod Trying
pub mod Order
pub mod Outcomes
use walnats.Prelude.{
  ℕ, zero, suc, ◌≡◌, ◌≢◌, ◌<◌, ◌≤◌, ◌+◌, ◌⊎◌, ◌∙◌, refl, ap, inl, inr, Bool, true, false, Option,
  none, some, List, [], ◌∷◌, ◌++◌, arith, if◌then◌else◌, nat_eq, nat_beq_iff, ◌==◌, ltb, leb, ◌&&◌,
  length, Bool-cases,
}
use mathlib.Core.List.{append-nil}
use walnats.Exceptions.{Exc, Result, ok, raise, Result-cases}
use walnats.Effects.{Act, ◌>>=◌, ◌>>◌, perform}
use walnats.Actors.Priority.{
  Sem, actor_sem, global_sem, acquired, released, yielded, with_sem, turns, acquire, value,
}
use walnats.Actors.Handle.{
  Effect, nak, ack, pulse_started, pulse_cancelled, sem, decoded, called, logged, hook, spawned,
  responded, Hook, on_start, on_failure, on_success, Hooks, run_hooks, Job, Ended, finished, failed,
  start_context, call_handler, run_event, run_block, cancel_pulse, after_failure, respond,
  after_ack, after_success, after_try, try_block, handle_due, handle_message, is_caught,
}

module _ {Bytes : Type 0} (i : ℕ) where
  -- The hooks of the middleware at a position that a trace calls.
  abbrev pub hooks_of : List (Effect Bytes) → List Hook
  hooks_of [] = []
  hooks_of (hook w k ∷ t) = if k == i then w ∷ hooks_of t else hooks_of t
  hooks_of (_ ∷ t) = hooks_of t

  pub hooks_of-append : (t u : List (Effect Bytes)) → hooks_of (t ++ u) ≡ hooks_of t ++ hooks_of u
  hooks_of-append [] u = refl
  hooks_of-append (hook w k ∷ t) u = elim (Bool-cases (k == i)) [
    | inl same ↦ rw same (ap (λ l. w ∷ l) (hooks_of-append t u))
    | inr other ↦ rw other (hooks_of-append t u)
  ]
  hooks_of-append (nak d ∷ t) u = hooks_of-append t u
  hooks_of-append (ack ∷ t) u = hooks_of-append t u
  hooks_of-append (pulse_started ∷ t) u = hooks_of-append t u
  hooks_of-append (pulse_cancelled ∷ t) u = hooks_of-append t u
  hooks_of-append (sem s ∷ t) u = hooks_of-append t u
  hooks_of-append (decoded ∷ t) u = hooks_of-append t u
  hooks_of-append (called ∷ t) u = hooks_of-append t u
  hooks_of-append (logged ∷ t) u = hooks_of-append t u
  hooks_of-append (spawned w k ∷ t) u = hooks_of-append t u
  hooks_of-append (responded s b h ∷ t) u = hooks_of-append t u

module _ (i : ℕ) where
  -- The middleware is one of those at the positions from `n` on.
  abbrev pub in_range : ℕ → ℕ → Bool
  in_range n count = leb n i && ltb i (n + count)

  -- A loop over hooks calls that of the middleware at most once, and does if it comes to its end.
  pub record Called (w : Hook) (inside : Bool) (r : Result (Unit {0})) (t : List Hook)
      : Type 0 where
    pub once : (t ≡ []) ⊎ (t ≡ w ∷ [])
    pub outside : inside ≡ false → t ≡ []
    pub full : r ≡ ok tt → inside ≡ true → t ≡ w ∷ []

  module _ (w : Hook) (n count : ℕ) where
    Called-next :
        (r : Result (Unit {0})) (t : List Hook)
        → Called w (in_range (suc n) count) r t
        → Called w (in_range n (suc count)) r (if n == i then w ∷ t else t)
    Called-next r t c = elim (Bool-cases (n == i)) [
      | inl same ↦
          let e : t ≡ [] = c.outside (ground (arith, nat_beq_iff n i)) in
          rw (same, e)
            (record {
              once = inr refl;
              outside = λ h. absurd (ground (arith, nat_beq_iff n i));
              full = λ _ _. refl;
            })
      | inr other ↦ rw other (record {
        once = c.once;
        outside = λ h. c.outside (ground (arith, nat_beq_iff n i));
        full = λ h h'. c.full h (ground (arith, nat_beq_iff n i));
      })
    ]

    Called-raise :
        (e : Exc) → Called w (in_range n (suc count)) (raise e) (if n == i then w ∷ [] else [])
    Called-raise e = elim (Bool-cases (n == i)) [
      | inl same ↦ rw same (record {
        once = inr refl;
        outside = λ h. absurd (ground (arith, nat_beq_iff n i));
        full = λ h. cc;
      })
      | inr other ↦ rw other (record { once = inl refl; outside = λ _. refl; full = λ h. cc })
    ]

module _ {Bytes T C : Type 0} (i : ℕ) where
  pub run_hooks-Called :
      (w : Hook) (n : ℕ) (call : Hooks Bytes T → C → Result Bool) (ctx : C)
      (mws : List (Hooks Bytes T))
      → Called i w
          (in_range i n (length mws))
          (run_hooks w n call ctx mws).0
          (hooks_of i (run_hooks w n call ctx mws).1)
  unfolding run_hooks
  run_hooks-Called w n call ctx [] = record {
    once = inl refl;
    outside = λ _. refl;
    full = λ _ h. absurd (ground arith);
  }
  run_hooks-Called w n call ctx (mw ∷ mws) =
      let rest = run_hooks w (suc n) call ctx mws in
      let next =
        Called-next i w n (length mws) rest.0 (hooks_of i rest.1)
          (run_hooks-Called w (suc n) call ctx mws) in
      elim (Result-cases (call mw ctx)) [
        | inr (e, raised) ↦ rw raised (Called-raise i w n (length mws) e)
        | inl (true, spawns) ↦ rw spawns next
        | inl (false, quiet) ↦ rw quiet next
      ]
