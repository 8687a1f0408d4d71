-- ===== src/Serializers/Kinds.antt =====
-- `encode` and `decode` of the serializer classes of walnats/serializers
-- (_serializers.py, _optional.py). What Python
-- and the packages do with a value is a parameter.
pub mod Laws
use walnats.Prelude.{String}
use walnats.Exceptions.{Result, ok, ◌>>=◌}
use walnats.Serializers.Base.{Serializer}

-- `str.encode(encoding='utf8')` and `bytes.decode(encoding='utf8')`.
pub record Utf8 (Bytes : Type 0) : Type 0 where
  pub encode : String → Result Bytes
  pub decode : Bytes → Result String

-- `json.dumps(value, separators=(',', ':'))`, and `json.loads` of bytes.
pub record Json (Value Bytes : Type 0) : Type 0 where
  pub dumps : Value → Result String
  pub loads : Bytes → Result Value

-- `dataclasses.asdict(message)`, and `self.schema(**payload)`, which raises for what is no dict of the
-- arguments.
pub record Dataclass (M Value : Type 0) : Type 0 where
  pub asdict : M → Result Value
  pub construct : Value → Result M

-- `message.isoformat()` and `self.schema.fromisoformat`.
pub record Iso (M : Type 0) : Type 0 where
  pub isoformat : M → String
  pub fromisoformat : String → Result M

-- `message.json(separators=(',', ':'))` and `self.schema.parse_raw`.
pub record Pydantic (M Bytes : Type 0) : Type 0 where
  pub json : M → Result String
  pub parse_raw : Bytes → Result M

-- `self.schema().dumps` and `self.schema().loads`.
pub record Marshmallow (M : Type 0) : Type 0 where
  pub dumps : M → Result String
  pub loads : String → Result M

-- `message.SerializeToString()` and `self.schema.FromString`.
pub record Protobuf (M Bytes : Type 0) : Type 0 where
  pub serialize : M → Result Bytes
  pub from_string : Bytes → Result M

-- `msgpack.packb` and `msgpack.unpackb`.
pub record MessagePack (M Bytes : Type 0) : Type 0 where
  pub packb : M → Result Bytes
  pub unpackb : Bytes → Result M

module _ {M Value Bytes : Type 0} where
  unfoldable pub dataclass : Utf8 Bytes → Json Value Bytes → Dataclass M Value → Serializer M Bytes
  dataclass utf8 json d = record {
    encode = λ message. d.asdict message >>= λ payload. json.dumps payload >>= utf8.encode;
    decode = λ payload. json.loads payload >>= d.construct;
  }

module _ {M Bytes : Type 0} where
  -- The messages of `PrimitiveSerializer` are the values of JSON.
  unfoldable pub primitive : Utf8 Bytes → Json M Bytes → Serializer M Bytes
  primitive utf8 json = record {
    encode = λ message. json.dumps message >>= utf8.encode;
    decode = λ payload. json.loads payload;
  }

  unfoldable pub datetime : Utf8 Bytes → Iso M → Serializer M Bytes
  datetime utf8 iso = record {
    encode = λ message. utf8.encode (iso.isoformat message);
    decode = λ payload. utf8.decode payload >>= iso.fromisoformat;
  }

  unfoldable pub pydantic : Utf8 Bytes → Pydantic M Bytes → Serializer M Bytes
  pydantic utf8 p = record {
    encode = λ message. p.json message >>= utf8.encode;
    decode = λ payload. p.parse_raw payload;
  }

  unfoldable pub marshmallow : Utf8 Bytes → Marshmallow M → Serializer M Bytes
  marshmallow utf8 m = record {
    encode = λ message. m.dumps message >>= utf8.encode;
    decode = λ payload. utf8.decode payload >>= m.loads;
  }

  unfoldable pub protobuf : Protobuf M Bytes → Serializer M Bytes
  protobuf p = record {
    encode = λ message. p.serialize message;
    decode = λ payload. p.from_string payload;
  }

  unfoldable pub message_pack : MessagePack M Bytes → Serializer M Bytes
  message_pack p = record {
    encode = λ message. p.packb message;
    decode = λ payload. p.unpackb payload;
  }

unfoldable pub bytes : {Bytes : Type 0} → Serializer Bytes Bytes
bytes = record { encode = λ message. ok message; decode = λ payload. ok payload }
