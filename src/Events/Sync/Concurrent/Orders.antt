-- ===== src/Events/Sync/Concurrent/Orders.antt =====
-- What the tasks of `register` leave on a JetStream server, in whatever order they go on.
use walnats.Prelude.{
  ℕ, zero, suc, String, ◌≡◌, ◌≢◌, ◌∙◌, sym, ap, refl, true, List, [], ◌∷◌, map, All, subst,
}
use walnats.Exceptions.{ok}
use walnats.Events.Event.{BaseEvent, stream_name}
use walnats.Events.Sync.{JetStream, done, fail}
use walnats.Events.Sync.Server.{IsJetStream}
use walnats.Events.Sync.Register.{DistinctStreams, Registered, name_of_config}
use walnats.Events.Sync.Concurrent.{
  Phase, adding, updating, over, Task, step_at, interleave, create_tasks, AllDone,
}
use walnats.Events.Sync.Concurrent.Stored.{Fine, Moved-advance}

module _ {Schema Ser : Type 0} where
  abbrev pub events_of : List (Task Schema Ser) → List (BaseEvent Schema Ser)
  events_of ks = map (λ k. k.event) ks

  pub events_of-create_tasks :
      (es : List (BaseEvent Schema Ser)) → events_of (create_tasks true true es) ≡ es
  unfolding create_tasks
  events_of-create_tasks [] = refl
  events_of-create_tasks (e ∷ es) = ap (λ l. e ∷ l) (events_of-create_tasks es)

module _ {Schema Ser : Type 0} (js : JetStream) (L : IsJetStream js) where
  open L use {stream}

  abbrev pub AllFine : js.State → List (Task Schema Ser) → Type 0
  AllFine s ks = All (λ k. Fine js L s k.event k.phase) ks

  -- What a task knows stays true while its stream is left alone.
  Fine-kept :
      (s t : js.State) (e : BaseEvent Schema Ser) (ph : Phase)
      → ((n : String) → stream_name e ≡ ok n → stream t n ≡ stream s n)
      → Fine js L s e ph
      → Fine js L t e ph
  Fine-kept s t e adding same f = tt
  Fine-kept s t e updating same (c, config, old, there) =
      (c, config, old, same c.name (name_of_config e c config) ∙ there)
  Fine-kept s t e (over done) same (c, config, there) =
      (c, config, same c.name (name_of_config e c config) ∙ there)
  Fine-kept s t e (over (fail x)) same f = tt

  others-AllFine :
      (e : BaseEvent Schema Ser) (s t : js.State) (ks : List (Task Schema Ser))
      → ((n : String) → stream_name e ≢ ok n → stream t n ≡ stream s n)
      → All (λ f. stream_name f ≢ stream_name e) (events_of ks)
      → AllFine s ks
      → AllFine t ks
  others-AllFine e s t [] kept ne f = tt
  others-AllFine e s t (k ∷ ks) kept ne f = (
    Fine-kept s t k.event k.phase (λ n named. kept n (λ mine. ne.0 (named ∙ sym mine))) f.0,
    others-AllFine e s t ks kept ne.1 f.1,
  )

  -- A step of one of several tasks.
  record Stepped (ks : List (Task Schema Ser)) (s : js.State)
      (r : List (Task Schema Ser) × js.State) : Type 0 where
    pub fine : AllFine r.1 r.0
    pub events : events_of r.0 ≡ events_of ks
    pub kept :
        (n : String) → All (λ e. stream_name e ≢ ok n) (events_of ks) → stream r.1 n ≡ stream s n

  Stepped-step_at :
      (i : ℕ) (ks : List (Task Schema Ser)) (s : js.State)
      → DistinctStreams (events_of ks)
      → AllFine s ks
      → Stepped ks s (step_at js true i ks s)
  unfolding step_at
  Stepped-step_at i [] s d f = record { fine = tt; events = refl; kept = λ n ne. refl }
  Stepped-step_at zero (k ∷ ks) s d f =
      let m = Moved-advance js L k.event s k.phase f.0 in
      record {
        fine = (m.fine, others-AllFine k.event s _ ks m.kept d.0 f.1);
        events = refl;
        kept = λ n ne. m.kept n ne.0;
      }
  Stepped-step_at (suc i) (k ∷ ks) s d f =
      let r = Stepped-step_at i ks s d.1 f.1 in
      record {
        fine = (
          Fine-kept s _ k.event k.phase
              (λ n named.
                r.kept n (subst (λ m. All (λ e. stream_name e ≢ m) (events_of ks)) named d.0))
              f.0,
          r.fine,
        );
        events = ap (λ l. k.event ∷ l) r.events;
        kept = λ n ne. r.kept n ne.1;
      }

  -- Any number of steps.
  pub record Interleaved (ks : List (Task Schema Ser)) (s : js.State)
      (r : List (Task Schema Ser) × js.State) : Type 0 where
    pub fine : AllFine r.1 r.0
    pub events : events_of r.0 ≡ events_of ks
    pub kept :
        (n : String) → All (λ e. stream_name e ≢ ok n) (events_of ks) → stream r.1 n ≡ stream s n

  pub Interleaved-interleave :
      (order : List ℕ) (ks : List (Task Schema Ser)) (s : js.State)
      → DistinctStreams (events_of ks)
      → AllFine s ks
      → Interleaved ks s (interleave js true order ks s)
  unfolding interleave
  Interleaved-interleave [] ks s d f = record { fine = f; events = refl; kept = λ n ne. refl }
  Interleaved-interleave (i ∷ order) ks s d f =
      let one = Stepped-step_at i ks s d f in
      let r = step_at js true i ks s in
      let rest =
        Interleaved-interleave order r.0 r.1 (subst DistinctStreams (sym one.events) d) one.fine in
      record {
        fine = rest.fine;
        events = rest.events ∙ one.events;
        kept = λ n ne.
            rest.kept n (subst (λ es. All (λ e. stream_name e ≢ ok n) es) (sym one.events) ne)
            ∙ one.kept n ne;
      }

  pub AllFine-create_tasks :
      (es : List (BaseEvent Schema Ser)) (s : js.State) → AllFine s (create_tasks true true es)
  unfolding create_tasks
  AllFine-create_tasks [] s = tt
  AllFine-create_tasks (e ∷ es) s = (tt, AllFine-create_tasks es s)

  All-Registered :
      (ks : List (Task Schema Ser)) (s : js.State)
      → AllDone ks
      → AllFine s ks
      → All (Registered js L s) (events_of ks)
  All-Registered [] s d f = tt
  All-Registered (k ∷ ks) s d f = (subst (Fine js L s k.event) d.0 f.0, All-Registered ks s d.1 f.1)

  -- In whatever order the calls of the tasks of `register` with `create` and `update` come to the server: if
  -- no two events have one stream and all tasks have ended without an exception, then the stream of every
  -- event is on the server with the configuration of the event, and every other stream is as before.
  pub interleaved_stores :
      (order : List ℕ) (es : List (BaseEvent Schema Ser)) (s : js.State)
      → DistinctStreams es
      → AllDone (interleave js true order (create_tasks true true es) s).0
      → let t = (interleave js true order (create_tasks true true es) s).1 in
        All (Registered js L t) es
        × ((n : String) → All (λ e. stream_name e ≢ ok n) es → stream t n ≡ stream s n)
  interleaved_stores order es s d ends =
      let same = events_of-create_tasks es in
      let all =
        Interleaved-interleave order (create_tasks true true es) s
          (subst DistinctStreams (sym same) d) (AllFine-create_tasks es s) in
      let r = interleave js true order (create_tasks true true es) s in
      (
        subst (All (Registered js L r.1)) (all.events ∙ same)
            (All-Registered r.0 r.1 ends all.fine),
        λ n ne. all.kept n (subst (λ l. All (λ e. stream_name e ≢ ok n) l) (sym same) ne),
      )
