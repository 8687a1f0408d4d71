-- ===== src/Events/Emission/Payload.antt =====
-- The payload that `emit` publishes.
use walnats.Prelude.{String, ◌≡◌, refl, inl, inr, Bool, true, false, none, List, [], ◌∷◌}
use walnats.Prelude.Dict.{Dict}
use walnats.Exceptions.{Result, ok, raise, Result-cases}
use walnats.Effects.{Act, ◌>>=◌, ◌>>◌}
use walnats.Serializers.Base.{Serializer}
use walnats.Events.Event.{BaseEvent, assert, subject_name}
use walnats.Events.Headers.{Platform}
use walnats.Events.Emission.{
  Client, Call, js_published, nc_published, Options, emit, publish_sync, headers_of,
}

-- The payloads that calls publish.
abbrev pub payloads_of : {Bytes : Type 0} → List (Call Bytes) → List Bytes
payloads_of [] = []
payloads_of (js_published subject b h ∷ t) = b ∷ payloads_of t
payloads_of (nc_published subject b h ∷ t) = b ∷ payloads_of t
payloads_of (_ ∷ t) = payloads_of t

module _ {Bytes : Type 0} where
  -- A step that fails publishes nothing.
  sent :
      (start : Result (Unit {0})) (encoded : Result Bytes)
      (rest : Bytes → Act (Call Bytes) (Unit {0})) (b : Bytes)
      → ((b' : Bytes) → payloads_of (rest b').1 ≡ b' ∷ [])
      → payloads_of ((start, []) >> ((encoded, []) >>= rest)).1 ≡ b ∷ []
      → encoded ≡ ok b
  sent (raise x) encoded rest b publishes e = cc e
  sent (ok u) (raise x) rest b publishes e = cc e
  sent (ok u) (ok b') rest b publishes e = cc (e, publishes b')

module _ {Bytes Time : Type 0} (p : Platform Time) (c : Client Bytes) where
  payloads_of-publish_sync :
      (subject : String) (b : Bytes) (h : Dict String)
      → payloads_of (publish_sync p c subject b h).1 ≡ b ∷ []
  unfolding publish_sync
  payloads_of-publish_sync subject b h = elim (Result-cases (c.js_publish subject b h)) [
    | inr (e, raised) ↦ rw raised refl
    | inl (true, published) ↦ rw published refl
    | inl (false, published) ↦ rw published refl
  ]

  module _ {T Schema Ser : Type 0} (known : BaseEvent Schema Ser → Bool)
      (event : BaseEvent Schema Ser) (s : Serializer T Bytes) (message : T) (o : Options Time) where
    -- What `emit` publishes is what the serializer makes of the message.
    pub emitted_payload :
        (sync : Bool) (b : Bytes)
        → payloads_of (emit p c known event s.encode message o sync).1 ≡ b ∷ []
        → s.encode message ≡ ok b
    unfolding emit
    emitted_payload true b =
        sent (assert (known event)) (s.encode message) _ b
          (λ b'. payloads_of-publish_sync (subject_name event) b' (headers_of p c o none))
    emitted_payload false b = sent (assert (known event)) (s.encode message) _ b (λ b'. refl)
