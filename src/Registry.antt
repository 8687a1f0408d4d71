-- ===== src/Registry.antt =====
-- What `Actors` and `Events` (walnats/_actors/_registry.py, walnats/_events/_registry.py) share: the code of
-- the two registries differs in the items and in what a connection gives the block. Actors/Registry and
-- Events/Registry have each. The client of Nats is a parameter.
pub mod Names
pub mod Closing
use walnats.Prelude.{
  String, ◌==◌, string_eq, Bool, true, false, not, Option, none, some, List, [], ◌∷◌, ◌++◌,
  if◌then◌else◌,
}
use walnats.Exceptions.{Result, ok, raise, ◌>>=◌}
use walnats.Effects.{Act, ◌>>=◌ as ◌>>>=◌, ◌>>◌, pure, perform}
use walnats.Events.Event.{assert}

module _ {Item : Type 0} where
  abbrev is_given : List Item → Bool
  is_given [] = false
  is_given (x ∷ xs) = true

  -- `__init__`
  unfoldable pub new : List Item → Result (List Item)
  new items = assert (is_given items) >>= λ _. ok items

  unfoldable pub get : (Item → String) → List Item → String → Option Item
  get name [] k = none
  get name (x ∷ xs) k = if name x == k then some x else get name xs k

-- The client: the outcomes of `nats.connect` for a URL and for a list of them, and the methods of a
-- connection.
pub record Nats (Conn Js : Type 0) : Type 0 where
  pub connect_url : String → Result Conn
  pub connect_urls : List String → Result Conn
  pub is_closed : Conn → Bool
  pub jetstream : Conn → Result Js
  pub close : Conn → Result (Unit {0})

-- The argument `server`.
pub data Server (Conn : Type 0) : Type 0 where
  connection : Conn → Server Conn
  url : String → Server Conn
  urls : List String → Server Conn

-- What `connect` does: it connects, the block inside is entered, and the connection is closed.
pub data Call (Conn : Type 0) : Type 0 where
  connected : Call Conn
  entered closed : Conn → Call Conn

module _ {Conn Js : Type 0} (n : Nats Conn Js) where
  -- An empty URL or list fails its assertion.
  pub open_server : Server Conn → Act (Call Conn) Conn
  open_server (connection c) = pure c
  open_server (url s) =
      let given : Act (Call Conn) (Unit {0}) = (assert (not (s == "")), []) in
      given >> perform connected (n.connect_url s)
  open_server (urls ss) =
      let given : Act (Call Conn) (Unit {0}) = (assert (is_given ss), []) in
      given >> perform connected (n.connect_urls ss)

  -- `try: ... finally: if close: await connection.close()`
  pub closing : Bool → Conn → Act (Call Conn) (Unit {0}) → Act (Call Conn) (Unit {0})
  closing close c m =
      if close
      then (elim (n.close c) [ ok _ ↦ m.0 | raise e ↦ raise e ], m.1 ++ (closed c ∷ []))
      else m

  module _ {Connected : Type 0} (connected_to : Conn → Js → Connected)
      (body : Connected → Result (Unit {0})) where
    -- The `try` block: the body of the `async with` runs at the `yield`.
    pub enter : Conn → Act (Call Conn) (Unit {0})
    enter c = elim (n.jetstream c) [
      | raise e ↦ (raise e, [])
      | ok js ↦ perform (entered c) (body (connected_to c js))
    ]

    unfoldable pub connect : Server Conn → Bool → Act (Call Conn) (Unit {0})
    unfolding open_server enter closing
    connect server close = open_server server >>>= λ c.
        let usable : Act (Call Conn) (Unit {0}) = (assert (not (n.is_closed c)), []) in
        usable >> closing close c (enter c)
