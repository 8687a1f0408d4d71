-- ===== src/Registry/Closing.antt =====
-- The connection that the block in `connect` gets, and its end.
use walnats.Prelude.{
  ℕ, ◌≤◌, ◌≡◌, refl, Bool, true, false, [], ◌∷◌, arith, count_if, count_if-append, inl, inr,
  string_eq,
}
use walnats.Exceptions.{Result, raise, Result-cases}
use walnats.Events.Event.{assertion_error}
use walnats.Effects.{Act}
use walnats.Registry.{
  Nats, Server, connection, url, urls, Call, entered, closed, open_server, closing, enter, connect,
}

module _ {Conn : Type 0} where
  abbrev pub is_entered : Call Conn → Bool
  is_entered (entered c) = true
  is_entered _ = false

  abbrev pub is_closing : Call Conn → Bool
  is_closing (closed c) = true
  is_closing _ = false

module _ {Conn Js Connected : Type 0} (n : Nats Conn Js) (connected_to : Conn → Js → Connected)
    (body : Connected → Result (Unit {0})) where
  -- How often the block is entered, and the connection closed.
  abbrev times : (Call Conn → Bool) → Act (Call Conn) (Unit {0}) → ℕ
  times p m = count_if p m.1

  Quiet : Act (Call Conn) Conn → Type 0
  Quiet m = (count_if is_entered m.1 ≡ 0) × (count_if is_closing m.1 ≡ 0)

  opening-Quiet : (server : Server Conn) → Quiet (open_server n server)
  unfolding open_server Quiet
  opening-Quiet (connection c) = (refl, refl)
  opening-Quiet (url s) = ground arith
  opening-Quiet (urls []) = (refl, refl)
  opening-Quiet (urls (s ∷ ss)) = (refl, refl)

  -- The part of `connect` after the connection is there.
  abbrev rest : Bool → Conn → Act (Call Conn) (Unit {0})
  rest close c = elim (n.is_closed c) [
    | true ↦ (raise assertion_error, [])
    | false ↦ closing n close c (enter n connected_to body c)
  ]

  enter_bounds :
      (c : Conn)
      → (times is_entered (enter n connected_to body c) ≤ 1)
        × (times is_closing (enter n connected_to body c) ≡ 0)
  unfolding enter
  enter_bounds c = ground arith

  rest_bounds :
      (c : Conn)
      → (times is_entered (rest true c) ≤ times is_closing (rest true c))
        × (times is_closing (rest false c) ≡ 0)
  unfolding closing
  rest_bounds c =
      let t = (enter n connected_to body c).1 in
      ground (
        arith,
        enter_bounds c,
        count_if-append is_entered t (closed c ∷ []),
        count_if-append is_closing t (closed c ∷ []),
      )

  -- If `close` is set, the connection is closed at least as often as the block was entered, on every path:
  -- also if the block, `jetstream()` or the closing raises. If it is not set, it is never closed.
  pub connect_closes :
      (server : Server Conn)
      → (times is_entered (connect n connected_to body server true)
          ≤ times is_closing (connect n connected_to body server true))
        × (times is_closing (connect n connected_to body server false) ≡ 0)
  unfolding connect Quiet
  connect_closes server = elim (Result-cases (open_server n server).0) [
    | inl (c, opened) ↦
        let t = (open_server n server).1 in
        ground (
          arith,
          opened,
          rest_bounds c,
          opening-Quiet server,
          count_if-append is_entered t (rest true c).1,
          count_if-append is_closing t (rest true c).1,
          count_if-append is_closing t (rest false c).1,
        )
    | inr (e, failed) ↦ ground (arith, failed, opening-Quiet server)
  ]
