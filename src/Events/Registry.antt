-- ===== src/Events/Registry.antt =====
-- `Events` (walnats/_events/_registry.py), and what its connection gives (_connection.py).
use walnats.Prelude.{String, Bool, Option, List}
use walnats.Exceptions.{Result}
use walnats.Effects.{Act}
use walnats.Registry
use walnats.Registry.{Nats, Server, Call}
use walnats.Events.Event.{BaseEvent}

-- A connection with the events of a registry. Its clock is an argument where it is used.
pub record ConnectedEvents (Conn Js Item : Type 0) : Type 0 where
  pub nc : Conn
  pub js : Js
  pub events : List Item

module _ {Schema Ser : Type 0} where
  unfoldable pub new : List (BaseEvent Schema Ser) → Result (List (BaseEvent Schema Ser))
  new events = Registry.new events

  unfoldable pub get : List (BaseEvent Schema Ser) → String → Option (BaseEvent Schema Ser)
  get events name = Registry.get (λ e. e.name) events name

  module _ {Conn Js : Type 0} where
    unfoldable pub connect :
        Nats Conn Js
        → List (BaseEvent Schema Ser)
        → (ConnectedEvents Conn Js (BaseEvent Schema Ser) → Result (Unit {0}))
        → Server Conn
        → Bool
        → Act (Call Conn) (Unit {0})
    connect n events body server close =
        Registry.connect n (λ c js. record { nc = c; js = js; events = events }) body server close
