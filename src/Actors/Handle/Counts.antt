-- ===== src/Actors/Handle/Counts.antt =====
-- How often an effect happens in the parts of `_handle_message`.
use walnats.Prelude.{
  ℕ, zero, suc, ◌≡◌, refl, Bool, false, inl, inr, List, [], ◌∷◌, ◌++◌, arith, count_if,
  count_if-append,
}
use walnats.Exceptions.{Result, ok, raise, Result-cases}
use walnats.Effects.{Act, ◌>>=◌, perform}
use walnats.Actors.Priority.{
  Sem, SemEffect, actor_sem, global_sem, with_sem, turns, yielded, acquire, value,
}
use walnats.Actors.Handle.{
  Effect, decoded, called, sem, hook, spawned, Hook, on_start, Hooks, run_hooks, Job, start_context,
  call_handler, run_event, run_block, try_block,
}

module _ {Bytes : Type 0} (p : Effect Bytes → Bool) where
  -- No effect of the trace passes the test.
  abbrev pub Lacks : List (Effect Bytes) → Type 0
  Lacks t = count_if p t ≡ 0

  pub Lacks-append : (t u : List (Effect Bytes)) → Lacks t → Lacks u → Lacks (t ++ u)
  Lacks-append t u h k = omega (arith, count_if-append p t u)

  pub Lacks-bind :
      {A B : Type 0} (m : Act (Effect Bytes) A) (f : A → Act (Effect Bytes) B)
      → Lacks m.1
      → ((a : A) → Lacks (f a).1)
      → Lacks (m >>= f).1
  Lacks-bind (ok a, t) f h k = Lacks-append t (f a).1 h (k a)
  Lacks-bind (raise e, t) f h k = h

  -- The test fails at all that hooks do.
  pub record IgnoresHooks : Type 0 where
    pub at_hook : (w : Hook) (i : ℕ) → p (hook w i) ≡ false
    pub at_spawned : (w : Hook) (i : ℕ) → p (spawned w i) ≡ false

  -- The test fails at all that the `try` block does.
  pub record IgnoresTry : Type 0 where
    pub hooks : IgnoresHooks
    pub at_sem : (s : SemEffect) → p (sem s) ≡ false
    pub at_decoded : p decoded ≡ false
    pub at_called : p called ≡ false

module _ {Bytes T C : Type 0} (p : Effect Bytes → Bool) (g : IgnoresHooks p) where
  pub Lacks-run_hooks :
      (which : Hook) (i : ℕ) (call : Hooks Bytes T → C → Result Bool) (ctx : C)
      (mws : List (Hooks Bytes T))
      → Lacks p (run_hooks which i call ctx mws).1
  unfolding run_hooks
  Lacks-run_hooks which i call ctx [] = refl
  Lacks-run_hooks which i call ctx (mw ∷ mws) =
      ground
        (arith, g.at_hook which i, g.at_spawned which i, Lacks-run_hooks which (suc i) call ctx mws)

module _ {Bytes : Type 0} (p : Effect Bytes → Bool)
    (at_sem : (s : SemEffect) → p (sem s) ≡ false) where
  Lacks-with_sem :
      {A : Type 0} (s : Sem) (r : Result (Unit {0})) (body : Act (Effect Bytes) A)
      → Lacks p body.1
      → Lacks p (with_sem sem s r body).1
  unfolding with_sem
  Lacks-with_sem s (raise e) body h = refl
  Lacks-with_sem s (ok u) body h = ground (
    arith,
    at_sem (walnats.Actors.Priority.acquired s),
    at_sem (walnats.Actors.Priority.released s),
    count_if-append p body.1 (sem (walnats.Actors.Priority.released s) ∷ []),
  )

  Lacks-yielded : Lacks p (sem yielded ∷ [])
  Lacks-yielded = ground (arith, at_sem yielded)

  Lacks-turns : (n : ℕ) (o : ℕ → Result (Unit {0}) × Result (Unit {0})) → Lacks p (turns sem n o).1
  unfolding turns
  Lacks-turns zero o = refl
  Lacks-turns (suc n) o =
      Lacks-bind p (with_sem sem global_sem (o n).0 (perform (sem yielded) (o n).1))
        (λ _. turns sem n o)
        (Lacks-with_sem global_sem (o n).0 (perform (sem yielded) (o n).1) Lacks-yielded)
        (λ _. Lacks-turns n o)

module _ {Bytes T R : Type 0} (p : Effect Bytes → Bool) (g : IgnoresTry p) (j : Job Bytes T R) where
  Lacks-run_event : (event : T) → Lacks p (run_event j event).1
  unfolding run_event
  Lacks-run_event event =
      Lacks-bind p (run_hooks on_start 0 (λ mw. mw.start) (start_context j event) j.middlewares)
        (λ _. perform called (call_handler j event))
        (Lacks-run_hooks p g.hooks on_start 0 (λ mw. mw.start) (start_context j event)
          j.middlewares)
        (λ _. ground (arith, g.at_called))

  Lacks-run_block : Lacks p (run_block j).1
  unfolding run_block
  Lacks-run_block = elim (Result-cases (j.decode j.msg.payload)) [
    | inl (event, e) ↦ rw (e, run_block) (ground (arith, g.at_decoded, Lacks-run_event event))
    | inr (x, e) ↦ rw (e, run_block) (ground (arith, g.at_decoded))
  ]

  pub Lacks-try_block : Lacks p (try_block j).1
  unfolding try_block acquire
  Lacks-try_block = Lacks-with_sem p g.at_sem actor_sem j.take_actor _ (
      Lacks-bind p (turns sem (value j.priority) j.take_turn)
        (λ _. with_sem sem global_sem j.take_global (run_block j))
        (Lacks-turns p g.at_sem (value j.priority) j.take_turn)
        (λ _. Lacks-with_sem p g.at_sem global_sem j.take_global (run_block j) Lacks-run_block))
