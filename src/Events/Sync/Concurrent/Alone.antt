-- ===== src/Events/Sync/Concurrent/Alone.antt =====
-- A task of `register` that runs alone.
use walnats.Prelude.{◌≡◌, refl, Bool, true, false}
use walnats.Errors.{Flow, returned, passed, raised, convert_stream_errors}
use walnats.Events.Event.{BaseEvent}
use walnats.Events.Sync.{JetStream, Reply, call_with, sync_update, sync_after, sync, then_return}
use walnats.Events.Sync.Concurrent.{Phase, over, first_phase, update_phase, added, advance}

module _ {Schema Ser : Type 0} (js : JetStream) (e : BaseEvent Schema Ser) where
  -- The phase and the server of a task that ended with a reply.
  abbrev ended : Reply × js.State → Phase × js.State
  ended r = (over r.0, r.1)

  updating_lem :
      (update : Bool) (s : js.State)
      → advance js update (update_phase update) e s ≡ ended (sync_update js update e s)
  unfolding advance sync_update
  updating_lem true s = refl
  updating_lem false s = refl

  after_lem :
      (update : Bool) (f : Flow) (s : js.State)
      → advance js update (added update f) e s ≡ ended (sync_after js f update e s)
  unfolding advance sync_after
  after_lem update returned s = refl
  after_lem update passed s = updating_lem update s
  after_lem update (raised x) s = refl

  -- Two steps of a task from its start, with no other task between them, end it with the result and the
  -- server of `_sync`.
  pub advance_alone :
      (create update : Bool) (s : js.State)
      → let one = advance js update (first_phase create update) e s in
        advance js update one.0 e one.1 ≡ ended (sync js create update e s)
  unfolding sync advance call_with sync_update
  advance_alone true update s =
      let r = call_with js js.add_stream e s in
      after_lem update (convert_stream_errors update (then_return r.0)) r.1
  advance_alone false true s = refl
  advance_alone false false s = refl
