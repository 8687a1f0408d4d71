-- ===== src/Events/Monitor.antt =====
-- `monitor` of `ConnectedEvents` (walnats/_events/_connection.py) and `BaseEvent._monitor`
-- (walnats/_events/_event.py).
pub mod Feed
use walnats.Prelude.{String, Option, none, some, List, [], ◌∷◌, ◌++◌, map}
use walnats.Exceptions.{Result, ok, raise, ◌>>=◌}
use walnats.Effects.{Act, ◌>>=◌ as ◌>>>=◌, ◌>>◌, pure, perform}
use walnats.Serializers.Base.{Serializer}
use walnats.Events.Event.{BaseEvent, subject_name}
use walnats.Events.Codec.{decode}

-- `printed` is `print(sub)`.
pub data Effect (M : Type 0) : Type 0 where
  subscribed : String → Effect M
  printed : Effect M
  queued : M → Effect M

module _ {M Bytes : Type 0} where
  -- `async for`, over the messages that came so far; the queue has no bound. `none` is a loop that waits
  -- for the next message.
  unfoldable pub feed : (Bytes → Result M) → List Bytes → Act (Effect M) (Option (Unit {0}))
  feed read [] = pure none
  feed read (payload ∷ payloads) =
      let rest = feed read payloads in
      let decoded : Act (Effect M) M = (read payload, []) in
      decoded >>>= λ event. perform (queued event) (ok tt) >> rest

module _ {Schema M Bytes : Type 0} where
  -- `_monitor`
  unfoldable pub monitor_event :
      (Schema → Result (Serializer M Bytes))
      → BaseEvent Schema (Serializer M Bytes)
      → (subscription : Result (Unit {0})) → List Bytes
      → Act (Effect M) (Option (Unit {0}))
  monitor_event get_serializer event subscription payloads =
      perform (subscribed (subject_name event)) subscription
      >> (perform printed (ok tt) >> feed (decode get_serializer event) payloads)

-- What `monitor` does with the tasks that run `_monitor`, and its block.
pub data TaskEffect : Type 0 where
  task_created task_cancelled : String → TaskEffect
  entered : TaskEffect

module _ {Schema Ser : Type 0} where
  unfoldable pub monitor :
      List (BaseEvent Schema Ser) → (body : Result (Unit {0})) → Act TaskEffect (Unit {0})
  monitor events body = (
    body,
    map (λ e. task_created e.name) events ++ (entered ∷ map (λ e. task_cancelled e.name) events),
  )
