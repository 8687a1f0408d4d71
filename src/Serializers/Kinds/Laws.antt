-- ===== src/Serializers/Kinds/Laws.antt =====
-- Round trips of the serializers, from those of what they use.
use walnats.Prelude.{String, ◌≡◌}
use walnats.Exceptions.{ok, >>=-eq-ok}
use walnats.Serializers.Base.{RoundTrips}
use walnats.Serializers.Kinds.{Utf8, Json, Dataclass, Iso, dataclass, primitive, datetime}

module _ {Bytes : Type 0} (utf8 : Utf8 Bytes) where
  -- `json.loads` reads the encoded text that `json.dumps` gave.
  abbrev pub ReadsJson : {Value : Type 0} → Json Value Bytes → Type 0
  ReadsJson {Value} json =
      (v : Value) (t : String) (b : Bytes)
      → json.dumps v ≡ ok t
      → utf8.encode t ≡ ok b
      → json.loads b ≡ ok v

  pub primitive-RoundTrips :
      {M : Type 0} (json : Json M Bytes) → ReadsJson json → RoundTrips (primitive utf8 json)
  unfolding primitive
  primitive-RoundTrips json reads m b h =
      let (t, dumped, encoded) = >>=-eq-ok (json.dumps m) utf8.encode h in
      reads m t b dumped encoded

  -- A dataclass whose `asdict` gives back the arguments of its constructor makes the round trip.
  pub dataclass_round_trip :
      {M Value : Type 0} (json : Json Value Bytes) (d : Dataclass M Value)
      → ReadsJson json
      → ((m : M) (v : Value) → d.asdict m ≡ ok v → d.construct v ≡ ok m)
      → RoundTrips (dataclass utf8 json d)
  unfolding dataclass primitive
  dataclass_round_trip json d reads constructs m b h =
      let (v, given, rest) = >>=-eq-ok (d.asdict m) _ h in
      rw (primitive-RoundTrips json reads v b rest) (constructs m v given)

  -- A date or a datetime makes the round trip.
  pub datetime_round_trip :
      {M : Type 0} (iso : Iso M)
      → ((t : String) (b : Bytes) → utf8.encode t ≡ ok b → utf8.decode b ≡ ok t)
      → ((m : M) → iso.fromisoformat (iso.isoformat m) ≡ ok m)
      → RoundTrips (datetime utf8 iso)
  unfolding datetime
  datetime_round_trip iso decodes reads m b h = rw (decodes (iso.isoformat m) b h) (reads m)
