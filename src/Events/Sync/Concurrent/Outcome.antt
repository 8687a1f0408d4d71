-- ===== src/Events/Sync/Concurrent/Outcome.antt =====
-- How the tasks of `register` end, in whatever order they go on.
use walnats.Prelude.{
  ℕ, suc, ◌≡◌, ◌≤◌, ◌<◌, ◌⊎◌, inl, inr, sym, refl, ap, ◌∙◌, true, List, [], ◌∷◌, map, All, arith,
  count_if, nat_eq, ◌==◌, length, subst,
}
use walnats.Errors.{JsExc}
use walnats.Events.Event.{BaseEvent}
use walnats.Events.Sync.{JetStream, Reply, done, fail}
use walnats.Events.Sync.Server.{IsJetStream}
use walnats.Events.Sync.Register.{DistinctStreams, Registered}
use walnats.Events.Sync.Concurrent.{over, Task, interleave, create_tasks}
use walnats.Events.Sync.Concurrent.Stored.{Fine}
use walnats.Events.Sync.Concurrent.Orders.{
  AllFine, events_of, events_of-create_tasks, AllFine-create_tasks, Interleaved-interleave,
}
use walnats.Events.Sync.Concurrent.Ends.{phase_at, interleaved_ends}

module _ {Schema Ser : Type 0} (js : JetStream) (L : IsJetStream js) where
  -- A task has ended: with its stream on the server, or with an exception.
  abbrev pub Settled : js.State → Task Schema Ser → Type 0
  Settled s k =
      ((k.phase ≡ over done) × Registered js L s k.event)
      ⊎ ((x : JsExc) × (k.phase ≡ over (fail x)))

  Settled-over :
      (s : js.State) (k : Task Schema Ser) (r : Reply)
      → k.phase ≡ over r
      → Fine js L s k.event (over r)
      → Settled s k
  Settled-over s k done h f = inl (h, f)
  Settled-over s k (fail x) h f = inr (x, h)

  All-Settled :
      (ks : List (Task Schema Ser)) (s : js.State)
      → ((i : ℕ) → i < length ks → (r : Reply) × (phase_at i ks ≡ over r))
      → AllFine js L s ks
      → All (Settled s) ks
  All-Settled [] s ends f = tt
  All-Settled (k ∷ ks) s ends f =
      let (r, h) = ends 0 (omega arith) in
      (
        Settled-over s k r h (subst (Fine js L s k.event) h f.0),
        All-Settled ks s (λ i lt. ends (suc i) (omega arith)) f.1,
      )

  length-events_of : (ks : List (Task Schema Ser)) → length (events_of ks) ≡ length ks
  length-events_of [] = refl
  length-events_of (k ∷ ks) = omega (arith, length-events_of ks)

  -- In whatever order the calls of the tasks of `register` with `create` and `update` come to the server,
  -- if no two events have one stream and every task goes on at least twice: every task has ended, and it
  -- ended with an exception, or the stream of its event is on the server with the event's configuration. The
  -- tasks are those of the events.
  pub interleaved_settles :
      (order : List ℕ) (es : List (BaseEvent Schema Ser)) (s : js.State)
      → DistinctStreams es
      → ((i : ℕ) → i < length es → 2 ≤ count_if (λ j. j == i) order)
      → let r = interleave js true order (create_tasks true true es) s in
        All (Settled r.1) r.0 × (map (λ k. k.event) r.0 ≡ es)
  interleaved_settles order es s d twice =
      let ks = create_tasks true true es in
      let same = events_of-create_tasks es in
      let all =
        Interleaved-interleave js L order ks s (subst DistinctStreams (sym same) d)
          (AllFine-create_tasks js L es s) in
      let r = interleave js true order ks s in
      let events : events_of r.0 ≡ es = all.events ∙ same in
      let count : length r.0 ≡ length es = sym (length-events_of r.0) ∙ ap length events in
      (
        All-Settled r.0 r.1
            (λ i lt. interleaved_ends js true order i ks s (twice i (omega (arith, count))))
            all.fine,
        events,
      )
