-- ===== src/Serializers/Base.antt =====
-- The interface of a serializer (walnats/serializers/_base.py).
use walnats.Prelude.{◌≡◌}
use walnats.Exceptions.{Result, ok}

-- A serializer object: messages to payloads and back. Both may raise.
pub record Serializer (M Bytes : Type 0) : Type 0 where
  pub encode : M → Result Bytes
  pub decode : Bytes → Result M

-- What is encoded is decoded to the same message.
abbrev pub RoundTrips : {M Bytes : Type 0} → Serializer M Bytes → Type 0
RoundTrips {M} {Bytes} s = (m : M) (b : Bytes) → s.encode m ≡ ok b → s.decode b ≡ ok m
