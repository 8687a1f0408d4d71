-- ===== src/Events/Codec.antt =====
-- Encoding and decoding of messages and responses by `BaseEvent` and `EventWithResponse`
-- (walnats/_events/_event.py). Messages are objects of one type of Python values.
use walnats.Prelude.{none, some}
use walnats.Exceptions.{Result, ok, ◌>>=◌}
use walnats.Serializers.Base.{Serializer}
use walnats.Events.Event.{BaseEvent, EventWithResponse}

module _ {Schema M Bytes : Type 0} (get_serializer : Schema → Result (Serializer M Bytes)) where
  -- `_serializer`, from the function that chooses one for a schema.
  serializer_of : BaseEvent Schema (Serializer M Bytes) → Result (Serializer M Bytes)
  serializer_of event = elim event.serializer [ some s ↦ ok s | none ↦ get_serializer event.schema ]

  unfoldable pub encode : BaseEvent Schema (Serializer M Bytes) → M → Result Bytes
  unfolding serializer_of
  encode event msg = serializer_of event >>= λ s. s.encode msg

  unfoldable pub decode : BaseEvent Schema (Serializer M Bytes) → Bytes → Result M
  unfolding serializer_of
  decode event payload = serializer_of event >>= λ s. s.decode payload

  -- `_response_serializer`
  unfoldable pub response_serializer_of :
      EventWithResponse Schema (Serializer M Bytes) → Result (Serializer M Bytes)
  response_serializer_of event = elim event.response_serializer [
    | some s ↦ ok s
    | none ↦ get_serializer event.response_schema
  ]

  unfoldable pub encode_response : EventWithResponse Schema (Serializer M Bytes) → M → Result Bytes
  unfolding response_serializer_of
  encode_response event msg = response_serializer_of event >>= λ s. s.encode msg

  unfoldable pub decode_response : EventWithResponse Schema (Serializer M Bytes) → Bytes → Result M
  unfolding response_serializer_of
  decode_response event payload = response_serializer_of event >>= λ s. s.decode payload
