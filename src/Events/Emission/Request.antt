-- ===== src/Events/Emission/Request.antt =====
-- What `request` promises.
use walnats.Prelude.{ℕ, Bool, ◌≡◌, true, false, some, [], ◌∷◌, arith, count_if, inl, inr}
use walnats.Exceptions.{Result, ok, Result-cases}
use walnats.Events.Event.{BaseEvent, subject_name}
use walnats.Events.Headers.{Platform}
use walnats.Events.Emission.{
  Client, Call, js_published, subscribed, awaited, unsubscribed, Options, headers_of, exchange,
  subscription, request,
}

abbrev pub is_subscribed : {Bytes : Type 0} → Call Bytes → Bool
is_subscribed (subscribed i) = true
is_subscribed _ = false

abbrev pub is_unsubscribed : {Bytes : Type 0} → Call Bytes → Bool
is_unsubscribed (unsubscribed i) = true
is_unsubscribed _ = false

module _ {Bytes T Time Schema Ser R : Type 0} (p : Platform Time) (c : Client Bytes)
    (known : BaseEvent Schema Ser → Bool) (event : BaseEvent Schema Ser) (encode : T → Result Bytes)
    (decode_response : Bytes → Result R) (message : T) (o : Options Time) (timeout : ℕ) where
  -- Unless the subscription itself fails, it is ended as often as it is made, whatever else raises.
  pub request_unsubscribes :
      c.subscribe c.new_inbox ≡ ok tt
      → count_if is_subscribed (request p c known event encode decode_response message o timeout).1
        ≡ count_if is_unsubscribed
            (request p c known event encode decode_response message o timeout).1
  unfolding request subscription exchange
  request_unsubscribes h = ground arith

  -- A request that returns has subscribed to its inbox before it published the message with the inbox
  -- in its headers, and waited for the response and ended the subscription after that; what it
  -- returns is decoded from the data of the response.
  pub request_returns :
      (r : R)
      → (request p c known event encode decode_response message o timeout).0 ≡ ok r
      → (payload : Bytes) × (response : Bytes) × (encode message ≡ ok payload)
        × (c.next_msg c.new_inbox timeout ≡ ok response)
        × (decode_response response ≡ ok r)
        × ((request p c known event encode decode_response message o timeout).1 ≡ (
            subscribed c.new_inbox
            ∷ js_published (subject_name event) payload (headers_of p c o (some c.new_inbox))
            ∷ awaited c.new_inbox
            ∷ unsubscribed c.new_inbox
            ∷ []))
  unfolding request subscription exchange
  request_returns r h = elim (Result-cases (encode message)) [
    | inr (x, failed) ↦ absurd (ground (arith, failed))
    | inl (payload, encoded) ↦ elim (Result-cases (c.next_msg c.new_inbox timeout)) [
      | inr (x, failed) ↦ absurd (ground (arith, failed, encoded))
      | inl (response, came) ↦ (
        payload,
        response,
        encoded,
        came,
        ground (arith, encoded, came),
        ground (arith, encoded, came),
      )
    ]
  ]

  -- A request whose calls all succeed gives what is decoded from the data of the response.
  pub request_gets :
      (payload : Bytes) (duplicate : Bool) (response : Bytes)
      → known event ≡ true
      → c.subscribe c.new_inbox ≡ ok tt
      → encode message ≡ ok payload
      → c.js_publish (subject_name event) payload (headers_of p c o (some c.new_inbox))
        ≡ ok duplicate
      → c.next_msg c.new_inbox timeout ≡ ok response
      → c.unsubscribe c.new_inbox ≡ ok tt
      → (request p c known event encode decode_response message o timeout).0
        ≡ decode_response response
  unfolding request subscription exchange
  request_gets payload duplicate response is_known subscribes encoded published came unsubscribes =
      ground (arith, is_known, subscribes, encoded, published, came, unsubscribes)
