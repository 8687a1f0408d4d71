-- ===== src/Serializers/Registry.antt =====
-- `get_serializer` (walnats/serializers/_registry.py) and the `new` of each serializer class
-- (_serializers.py), over what Python says of a schema.
pub mod Choice
use walnats.Prelude.{
  String, Bool, true, false, not, ◌||◌, Option, none, some, List, [], ◌∷◌, if◌then◌else◌,
}
use walnats.Exceptions.{Result, ok, raise, exception, ◌>>=◌}

-- What `issubclass` and `dataclasses.is_dataclass` say of a class.
pub record Class : Type 0 where
  pub is_pydantic : Bool
  pub is_protobuf : Bool
  pub is_dataclass : Bool
  pub is_bytes : Bool
  pub is_datetime : Bool
  pub is_builtin : Bool
  pub is_none_type : Bool
  pub is_marshmallow : Bool

-- The schema of an event: a class, or the value `None`, which is not one.
pub data Schema : Type 0 where
  class : Class → Schema
  none_value : Schema

-- Which optional packages could be imported.
pub record Installed : Type 0 where
  pub pydantic : Bool
  pub protobuf : Bool
  pub marshmallow : Bool

pub data Kind : Type 0 where
  pydantic_model protobuf_message dataclass bytes datetime primitive marshmallow_schema : Kind

-- `SERIALIZERS`
abbrev pub serializers : List Kind
serializers =
    pydantic_model ∷ protobuf_message ∷ dataclass ∷ bytes ∷ datetime ∷ primitive
    ∷ marshmallow_schema ∷ []

-- `issubclass(schema, ...)` raises if the schema is no class.
abbrev pub issubclass : (Class → Bool) → Schema → Result Bool
issubclass test (class c) = ok (test c)
issubclass test none_value = raise (exception "TypeError")

abbrev pub made_if : Kind → Bool → Result (Option Kind)
made_if k b = ok (if b then some k else none)

abbrev pub is_dataclass : Schema → Bool
is_dataclass (class c) = c.is_dataclass
is_dataclass none_value = false

abbrev pub is_none : Schema → Bool
is_none (class c) = false
is_none none_value = true

-- `new` of each class.
abbrev pub new_pydantic : Installed → Schema → Result (Option Kind)
new_pydantic i s =
    if i.pydantic then (issubclass (λ c. c.is_pydantic) s >>= made_if pydantic_model) else ok none

abbrev pub new_protobuf : Installed → Schema → Result (Option Kind)
new_protobuf i s =
    if i.protobuf then (issubclass (λ c. c.is_protobuf) s >>= made_if protobuf_message) else ok none

abbrev pub new_dataclass : Installed → Schema → Result (Option Kind)
new_dataclass i s = made_if dataclass (is_dataclass s)

abbrev pub new_bytes : Installed → Schema → Result (Option Kind)
new_bytes i s = issubclass (λ c. c.is_bytes) s >>= made_if bytes

abbrev pub new_datetime : Installed → Schema → Result (Option Kind)
new_datetime i s = issubclass (λ c. c.is_datetime) s >>= made_if datetime

abbrev pub new_primitive : Installed → Schema → Result (Option Kind)
new_primitive i s = issubclass (λ c. c.is_builtin) s >>= λ builtin.
    if builtin
    then ok (some primitive)
    else if is_none s
    then ok (some primitive)
    else (issubclass (λ c. c.is_none_type) s >>= made_if primitive)

abbrev pub new_marshmallow : Installed → Schema → Result (Option Kind)
new_marshmallow i s =
    if i.marshmallow
    then (issubclass (λ c. c.is_marshmallow) s >>= made_if marshmallow_schema)
    else ok none

-- `serializer.new(schema)`
unfoldable pub new : Installed → Kind → Schema → Result (Option Kind)
new i pydantic_model s = new_pydantic i s
new i protobuf_message s = new_protobuf i s
new i dataclass s = new_dataclass i s
new i bytes s = new_bytes i s
new i datetime s = new_datetime i s
new i primitive s = new_primitive i s
new i marshmallow_schema s = new_marshmallow i s

pick : Installed → List Kind → Schema → Result Kind
pick i [] s = raise (exception "LookupError")
pick i (k ∷ ks) s =
    let rest = pick i ks s in
    new i k s >>= λ made. elim made [ some found ↦ ok found | none ↦ rest ]

unfoldable pub get_serializer : Installed → Schema → Result Kind
unfolding pick
get_serializer i s = pick i serializers s
