-- ===== src/Services/AsyncApi.antt =====
-- `get_async_api` and `get_async_apis` (walnats/_services.py).
pub mod References
pub mod Combined
use walnats.Prelude.{
  String, ◌<>◌, Bool, true, false, if◌then◌else◌, Option, none, some, List, [], ◌∷◌, map,
}
use walnats.Prelude.Dict.{Dict, insert, update}
use walnats.Context.{truthy}
use walnats.Services.{EventInfo, Service, or_empty}

-- A value of `components.schemas`: `{'type': 'object'}`.
pub data SchemaBody : Type 0 where
  object : SchemaBody

-- An entry of `channels`: the name of the message, the `$ref` of its payload and the description.
pub record Channel : Type 0 where
  pub message_name : String
  pub ref : String
  pub description : Option String

-- The parts of a specification that differ: `info.title`, `info.version`, `channels` and
-- `components.schemas`.
pub record Spec : Type 0 where
  pub title : String
  pub version : String
  pub channels : Dict Channel
  pub schemas : Dict SchemaBody

-- `f'#/components/schemas/{schema_name}'`
abbrev pub ref_of : String → String
ref_of schema_name = "#/components/schemas/" <> schema_name

-- The description is set if it is neither `None` nor empty.
channel_of : EventInfo → Channel
channel_of e = record {
  message_name = e.schema_name;
  ref = ref_of e.schema_name;
  description = if truthy e.description then e.description else none;
}

add_channels : List EventInfo → Dict Channel → Dict Channel
unfolding channel_of
add_channels [] d = d
add_channels (e ∷ es) d = add_channels es (insert e.name (channel_of e) d)

add_schemas : List EventInfo → Dict SchemaBody → Dict SchemaBody
add_schemas [] d = d
add_schemas (e ∷ es) d = add_schemas es (insert e.schema_name object d)

-- `Service.get_async_api`
unfoldable pub service_api : Service → Spec
unfolding add_channels add_schemas
service_api s = record {
  title = s.name;
  version = s.version;
  channels = add_channels (or_empty s.emits) [];
  schemas = add_schemas (or_empty s.emits) [];
}

-- `Services.get_async_apis`
unfoldable pub get_async_apis : List Service → List Spec
unfolding service_api
get_async_apis services = map service_api services

merge : List Service → Spec → Spec
merge [] spec = spec
merge (s ∷ ss) spec =
    let service_spec = service_api s in
    merge ss (record spec {
      channels = update spec.channels service_spec.channels;
      schemas = update spec.schemas service_spec.schemas;
    })

-- `Services.get_async_api`
unfoldable pub get_async_api : List Service → Spec
unfolding merge service_api
get_async_api services =
    merge services
      (record { title = "application"; version = "0.0.0"; channels = []; schemas = [] })
