-- ===== src/Serializers/Instances.antt =====
-- The serializers that `get_serializer` gives (walnats/serializers/_registry.py): instances of the
-- classes of _serializers.py.
use walnats.Prelude.{String, ◌≡◌, sym, true}
use walnats.Exceptions.{ok, >>=-eq-ok}
use walnats.Serializers.Base.{Serializer, RoundTrips}
use walnats.Serializers.Kinds as Kinds
use walnats.Serializers.Kinds.{Utf8, Json, Dataclass, Iso, Pydantic, Marshmallow, Protobuf}
use walnats.Serializers.Kinds.Laws.{
  ReadsJson, primitive-RoundTrips, dataclass_round_trip, datetime_round_trip,
}
use walnats.Serializers.Registry.{
  Class, class, Installed, Kind, pydantic_model, protobuf_message, dataclass, bytes, datetime,
  primitive, marshmallow_schema, get_serializer,
}
use walnats.Serializers.Registry.Choice.{supports, pick_supported, pick_found}

module _ (Bytes Value : Type 0) (Object : Kind → Type 0) where
  -- The messages of a serializer: bytes, the values of JSON, or objects of the schema.
  abbrev pub MessageOf : Kind → Type 0
  MessageOf bytes = Bytes
  MessageOf primitive = Value
  MessageOf k = Object k

  -- The packages that the serializers call.
  pub record Packages : Type 0 where
    pub utf8 : Utf8 Bytes
    pub json : Json Value Bytes
    pub models : Pydantic (Object pydantic_model) Bytes
    pub protos : Protobuf (Object protobuf_message) Bytes
    pub data_objects : Dataclass (Object dataclass) Value
    pub dates : Iso (Object datetime)
    pub documents : Marshmallow (Object marshmallow_schema)

module _ {Bytes Value : Type 0} {Object : Kind → Type 0} (p : Packages Bytes Value Object) where
  -- `cls(schema)`
  unfoldable pub instance_of : (k : Kind) → Serializer (MessageOf Bytes Value Object k) Bytes
  instance_of pydantic_model = Kinds.pydantic p.utf8 p.models
  instance_of protobuf_message = Kinds.protobuf p.protos
  instance_of dataclass = Kinds.dataclass p.utf8 p.json p.data_objects
  instance_of bytes = Kinds.bytes
  instance_of datetime = Kinds.datetime p.utf8 p.dates
  instance_of primitive = Kinds.primitive p.utf8 p.json
  instance_of marshmallow_schema = Kinds.marshmallow p.utf8 p.documents

  -- What the serializers rely on: each package reads what it wrote.
  pub record ReadsBack : Type 0 where
    pub texts : (t : String) (b : Bytes) → p.utf8.encode t ≡ ok b → p.utf8.decode b ≡ ok t
    pub values : ReadsJson p.utf8 p.json
    pub models :
        (m : Object pydantic_model) (t : String) (b : Bytes)
        → p.models.json m ≡ ok t
        → p.utf8.encode t ≡ ok b
        → p.models.parse_raw b ≡ ok m
    pub protos :
        (m : Object protobuf_message) (b : Bytes)
        → p.protos.serialize m ≡ ok b
        → p.protos.from_string b ≡ ok m
    pub data_objects :
        (m : Object dataclass) (v : Value)
        → p.data_objects.asdict m ≡ ok v
        → p.data_objects.construct v ≡ ok m
    pub dates : (m : Object datetime) → p.dates.fromisoformat (p.dates.isoformat m) ≡ ok m
    pub documents :
        (m : Object marshmallow_schema) (t : String)
        → p.documents.dumps m ≡ ok t
        → p.documents.loads t ≡ ok m

  instance_of-RoundTrips : ReadsBack → (k : Kind) → RoundTrips (instance_of k)
  unfolding instance_of Kinds.pydantic Kinds.protobuf Kinds.bytes Kinds.marshmallow
  instance_of-RoundTrips r pydantic_model m b h =
      let (t, written, encoded) = >>=-eq-ok (p.models.json m) p.utf8.encode h in
      r.models m t b written encoded
  instance_of-RoundTrips r protobuf_message m b h = r.protos m b h
  instance_of-RoundTrips r dataclass m b h =
      dataclass_round_trip p.utf8 p.json p.data_objects r.values r.data_objects m b h
  instance_of-RoundTrips r bytes m b h = sym h
  instance_of-RoundTrips r datetime m b h = datetime_round_trip p.utf8 p.dates r.texts r.dates m b h
  instance_of-RoundTrips r primitive m b h = primitive-RoundTrips p.utf8 p.json r.values m b h
  instance_of-RoundTrips r marshmallow_schema m b h =
      let (t, written, encoded) = >>=-eq-ok (p.documents.dumps m) p.utf8.encode h in
      rw (r.texts t b encoded) (r.documents m t written)

  -- For every class that any serializer is for, whatever is installed, a serializer is picked, it is one
  -- for the class, and what it encodes it decodes to the same message, if the packages read what they
  -- wrote.
  pub get_serializer-RoundTrips :
      ReadsBack
      → (i : Installed) (c : Class) (k : Kind) → supports i k c ≡ true
      → (found : Kind) × (get_serializer i (class c) ≡ ok found)
        × (supports i found c ≡ true)
        × RoundTrips (instance_of found)
  get_serializer-RoundTrips r i c k h =
      let (found, picked) = pick_found i c k h in
      (found, picked, pick_supported i c found picked, instance_of-RoundTrips r found)
