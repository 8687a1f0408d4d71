-- ===== src/Actors/Registry.antt =====
-- `Actors` (walnats/_actors/_registry.py), and what its connection gives (_connection.py).
use walnats.Prelude.{String, Bool, Option, List}
use walnats.Exceptions.{Result}
use walnats.Effects.{Act}
use walnats.Registry
use walnats.Registry.{Nats, Server, Call}
use walnats.Actors.Actor.{Actor}

-- A connection with the actors of a registry.
pub record ConnectedActors (Js Item : Type 0) : Type 0 where
  pub js : Js
  pub actors : List Item

module _ {Schema Ser Handler Mw : Type 0} where
  unfoldable pub new :
      List (Actor Schema Ser Handler Mw) → Result (List (Actor Schema Ser Handler Mw))
  new actors = Registry.new actors

  unfoldable pub get :
      List (Actor Schema Ser Handler Mw) → String → Option (Actor Schema Ser Handler Mw)
  get actors name = Registry.get (λ a. a.name) actors name

  module _ {Conn Js : Type 0} where
    unfoldable pub connect :
        Nats Conn Js
        → List (Actor Schema Ser Handler Mw)
        → (ConnectedActors Js (Actor Schema Ser Handler Mw) → Result (Unit {0}))
        → Server Conn
        → Bool
        → Act (Call Conn) (Unit {0})
    connect n actors body server close =
        Registry.connect n (λ c js. record { js = js; actors = actors }) body server close
