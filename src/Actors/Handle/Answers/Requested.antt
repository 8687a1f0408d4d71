-- ===== src/Actors/Handle/Answers/Requested.antt =====
-- From `request` to the handler and back.
use walnats.Prelude.{ℕ, ◌≡◌, ◌∙◌, refl, ap, Bool, true, Option, none, some, string_eq}
use walnats.Exceptions.{exception, Result, ok, raise}
use walnats.Context.{get_header, header_delay}
use walnats.Serializers.Base.{Serializer, RoundTrips}
use walnats.Events.Event.{BaseEvent, EventWithResponse}
use walnats.Events.Codec.{encode, response_serializer_of, encode_response, decode_response}
use walnats.Events.Headers.{Platform}
use walnats.Events.Emission.{Client, Options, headers_of, request}
use walnats.Events.Emission.Request.{request_gets}
use walnats.Actors.Handle.{Job, finished, try_block, handle_due, handle_message}
use walnats.Actors.Handle.Emitted.{respond_to_request}
use walnats.Actors.Handle.Answers.{answer_to, answer-handle_due}

-- What `next_msg` of the client gives: the first response that came to the inbox, or a time-out.
abbrev pub received : {Bytes : Type 0} → Option Bytes → Result Bytes
received none = raise (exception "TimeoutError")
received (some b) = ok b

module _ {Schema M Bytes Time : Type 0} (get_serializer : Schema → Result (Serializer M Bytes))
    (p : Platform Time) (c : Client Bytes) (event : EventWithResponse Schema (Serializer M Bytes))
    (o : Options Time) (j : Job Bytes M M)
    (sent : j.msg.headers ≡ some (headers_of p c o (some c.new_inbox)))
    (not_delayed : get_header j.msg header_delay ≡ none)
    (answers : j.encode_response ≡ some (encode_response get_serializer event))
    (acked : j.acked ≡ ok tt) where
  handled_now : handle_message j ≡ handle_due j
  unfolding handle_message
  handled_now = rw (not_delayed, handle_message) refl

  answered :
      (m r : M) (b : Bytes)
      → (try_block j).0 ≡ ok (finished m r)
      → encode_response get_serializer event r ≡ ok b
      → answer_to c.new_inbox (handle_message j).1 ≡ some b
  answered m r b handled encoded =
      ap (λ t. answer_to c.new_inbox t.1) handled_now
      ∙ answer-handle_due j m r c.new_inbox b j.msg.headers
          (respond_to_request j p o.uid o.trace_id o.delay o.given_meta (some c.new_inbox) sent
            c.new_inbox (encode_response get_serializer event) r b refl answers encoded)
          acked handled

  decoded_response :
      (s : Serializer M Bytes) (r : M) (b : Bytes)
      → response_serializer_of get_serializer event ≡ ok s
      → RoundTrips s
      → encode_response get_serializer event r ≡ ok b
      → decode_response get_serializer event b ≡ ok r
  unfolding encode_response decode_response
  decoded_response s r b chosen trips encoded = rw chosen (trips r b (rw chosen at encoded))

  -- A request returns the value that the handler gave for it: if its calls succeed, a job gets its payload
  -- and its headers and no delay, the handler of the job gives a value, the acknowledgement succeeds,
  -- the client receives the first response that the job publishes to the inbox, and the serializer of the
  -- response makes round trips.
  pub request_answered :
      (known : BaseEvent Schema (Serializer M Bytes) → Bool) (message : M) (timeout : ℕ)
      (s : Serializer M Bytes) (m r : M) (b : Bytes) (duplicate : Bool)
      → known event.event ≡ true
      → c.subscribe c.new_inbox ≡ ok tt
      → c.unsubscribe c.new_inbox ≡ ok tt
      → encode get_serializer event.event message ≡ ok j.msg.payload
      → c.js_publish event.event.name j.msg.payload (headers_of p c o (some c.new_inbox))
        ≡ ok duplicate
      → c.next_msg c.new_inbox timeout ≡ received (answer_to c.new_inbox (handle_message j).1)
      → (try_block j).0 ≡ ok (finished m r)
      → response_serializer_of get_serializer event ≡ ok s
      → RoundTrips s
      → encode_response get_serializer event r ≡ ok b
      → (request p c known event.event
          (encode get_serializer event.event)
          (decode_response get_serializer event)
          message
          o
          timeout).0
        ≡ ok r
  request_answered known message timeout s m r b duplicate is_known subscribed unsubscribed encoded
        published came handled chosen trips response =
      request_gets p c known event.event (encode get_serializer event.event)
        (decode_response get_serializer event) message o timeout j.msg.payload duplicate b is_known
        subscribed encoded published (came ∙ ap received (answered m r b handled response))
        unsubscribed
      ∙ decoded_response s r b chosen trips response
