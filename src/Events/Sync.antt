-- ===== src/Events/Sync.antt =====
-- `BaseEvent._sync` (walnats/_events/_event.py) and `ConnectedEvents.register` (_connection.py),
-- over a JetStream server that is a parameter.
pub mod Server
pub mod Laws
pub mod Specification
pub mod Register
pub mod Concurrent
use walnats.Prelude.{ℕ, String, Bool, true, false, Option, none, some, List, [], ◌∷◌, if◌then◌else◌}
use walnats.Exceptions.{Result, ok, raise}
use walnats.Errors.{JsExc, other, Flow, returned, passed, raised, convert_stream_errors}
use walnats.Events.Event.{BaseEvent, StreamConfig, assertion_error, stream_config}

-- A call of the JetStream API: done, or an exception.
pub data Reply : Type 0 where
  done : Reply
  fail : JsExc → Reply

-- The two calls that are used.
pub record JetStream : Type 1 where
  pub State : Type 0
  pub add_stream : StreamConfig → State → Reply × State
  pub update_stream : StreamConfig → State → Reply × State

-- What a block ends with after a call, if nothing or a `return` stands behind it.
abbrev pub then_return : Reply → Flow
then_return done = returned
then_return (fail e) = raised e

abbrev pub then_pass : Reply → Flow
then_pass done = passed
then_pass (fail e) = raised e

abbrev pub as_reply : Flow → Reply
as_reply (raised e) = fail e
as_reply flow = done

abbrev pub first_fail : Reply → Reply → Reply
first_fail done r = r
first_fail (fail e) r = fail e

module _ {Schema Ser : Type 0} (js : JetStream) where
  -- `await js.call(self._stream_config)`: the configuration may fail its assertions.
  call_with :
      (StreamConfig → js.State → Reply × js.State)
      → BaseEvent Schema Ser
      → js.State
      → Reply × js.State
  call_with call e s = elim (stream_config e) [
    | ok config ↦ call config s
    | raise exc ↦ (fail (other exc), s)
  ]

  sync_update : Bool → BaseEvent Schema Ser → js.State → Reply × js.State
  sync_update update e s =
      if update
      then (let r = call_with js.update_stream e s in
          (as_reply (convert_stream_errors false (then_pass r.0)), r.1))
      else (done, s)

  sync_after : Flow → Bool → BaseEvent Schema Ser → js.State → Reply × js.State
  sync_after returned update e s = (done, s)
  sync_after passed update e s = sync_update update e s
  sync_after (raised exc) update e s = (fail exc, s)

  unfoldable pub sync : Bool → Bool → BaseEvent Schema Ser → js.State → Reply × js.State
  unfolding call_with sync_update sync_after convert_stream_errors
  sync create update e s =
      if create
      then (let r = call_with js.add_stream e s in
          sync_after (convert_stream_errors update (then_return r.0)) update e r.1)
      else sync_update update e s

  -- The tasks of `register` run to their ends, one after the other, and `gather` raises the first
  -- exception.
  unfoldable pub sync_all : Bool → Bool → List (BaseEvent Schema Ser) → js.State → Reply × js.State
  sync_all create update [] s = (done, s)
  sync_all create update (e ∷ es) s =
      let r = sync create update e s in
      let rest = sync_all create update es r.1 in (first_fail r.0 rest.0, rest.1)

  unfoldable pub register : Bool → Bool → List (BaseEvent Schema Ser) → js.State → Reply × js.State
  register create update [] s = (fail (other assertion_error), s)
  register create update (e ∷ es) s = sync_all create update (e ∷ es) s
