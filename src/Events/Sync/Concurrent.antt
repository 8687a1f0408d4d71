-- ===== src/Events/Sync/Concurrent.antt =====
-- The tasks of `ConnectedEvents.register` (walnats/_events/_connection.py) as they run: each is a
-- `BaseEvent._sync` (_event.py) and gives way to the others while it awaits a call of the server.
pub mod Alone
pub mod Stored
pub mod Orders
pub mod Ends
pub mod Outcome
pub mod Agreement
use walnats.Prelude.{ℕ, zero, suc, ◌≡◌, All, Bool, List, [], ◌∷◌, if◌then◌else◌}
use walnats.Errors.{Flow, returned, passed, raised, convert_stream_errors}
use walnats.Events.Event.{BaseEvent}
use walnats.Events.Sync.{
  JetStream, Reply, done, fail, then_return, then_pass, as_reply, first_fail, call_with,
}

-- Where a task is: before a call of `add_stream`, before one of `update_stream`, or at its end.
pub data Phase : Type 0 where
  adding updating : Phase
  over : Reply → Phase

pub record Task (Schema Ser : Type 0) : Type 0 where
  pub event : BaseEvent Schema Ser
  pub phase : Phase

abbrev pub update_phase : Bool → Phase
update_phase update = if update then updating else over done

abbrev pub first_phase : (create update : Bool) → Phase
first_phase create update = if create then adding else update_phase update

-- After the block with `add_stream`.
abbrev pub added : Bool → Flow → Phase
added update returned = over done
added update passed = update_phase update
added update (raised e) = over (fail e)

module _ {Schema Ser : Type 0} (js : JetStream) (update : Bool) where
  -- A task goes on to its next call, or to its end.
  unfoldable pub advance : Phase → BaseEvent Schema Ser → js.State → Phase × js.State
  unfolding call_with convert_stream_errors
  advance adding e s =
      let r = call_with js js.add_stream e s in
      (added update (convert_stream_errors update (then_return r.0)), r.1)
  advance updating e s =
      let r = call_with js js.update_stream e s in
      (over (as_reply (convert_stream_errors Bool.false (then_pass r.0))), r.1)
  advance (over r) e s = (over r, s)

  -- The task at a position goes on.
  unfoldable pub step_at : ℕ → List (Task Schema Ser) → js.State → List (Task Schema Ser) × js.State
  step_at i [] s = ([], s)
  step_at zero (k ∷ ks) s =
      let r = advance k.phase k.event s in (record k { phase = r.0 } ∷ ks, r.1)
  step_at (suc i) (k ∷ ks) s = let r = step_at i ks s in (k ∷ r.0, r.1)

  -- The positions of the tasks in the order in which they go on.
  unfoldable pub interleave :
      List ℕ → List (Task Schema Ser) → js.State → List (Task Schema Ser) × js.State
  interleave [] ks s = (ks, s)
  interleave (i ∷ is') ks s = let r = step_at i ks s in interleave is' r.0 r.1

module _ {Schema Ser : Type 0} where
  -- The tasks that `register` creates.
  unfoldable pub create_tasks :
      (create update : Bool) → List (BaseEvent Schema Ser) → List (Task Schema Ser)
  create_tasks create update [] = []
  create_tasks create update (e ∷ es) =
      record { event = e; phase = first_phase create update } ∷ create_tasks create update es

  -- All tasks have ended without an exception.
  abbrev pub AllDone : List (Task Schema Ser) → Type 0
  AllDone ks = All (λ k. k.phase ≡ over done) ks
