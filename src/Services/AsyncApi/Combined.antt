-- ===== src/Services/AsyncApi/Combined.antt =====
-- The combined specification of services, against that of one service that emits all events.
use mathlib.Core.Path.{ap₂}
use walnats.Prelude.{String, ◌≡◌, ◌∙◌, refl, ap, sym, none, some, List, [], ◌∷◌, ◌++◌}
use walnats.Prelude.Dict.{Dict, lookup, update}
use walnats.Prelude.Mapping.{
  SameEntries, Mapping, mapping, mapping-eq, set_all, set_all-append, update-set_all,
  set_all-SameEntries,
}
use walnats.Services.{EventInfo, Service, or_empty}
use walnats.Services.AsyncApi.{
  SchemaBody, object, Channel, Spec, channel_of, add_channels, add_schemas, service_api, merge,
  get_async_api,
}

-- The events that services emit, in their order.
abbrev pub all_events : List Service → List EventInfo
all_events [] = []
all_events (s ∷ ss) = or_empty s.emits ++ all_events ss

-- What `channels` and `components.schemas` hold, whatever the order of their entries.
abbrev pub entries : Spec → Mapping Channel × Mapping SchemaBody
entries spec = (mapping spec.channels, mapping spec.schemas)

add_channels_lem :
    (es : List EventInfo) (d : Dict Channel)
    → add_channels es d ≡ set_all (λ e. e.name) channel_of es d
unfolding add_channels
add_channels_lem [] d = refl
add_channels_lem (e ∷ es) d = add_channels_lem es _

add_schemas_lem :
    (es : List EventInfo) (d : Dict SchemaBody)
    → add_schemas es d ≡ set_all (λ e. e.schema_name) (λ e. object) es d
unfolding add_schemas
add_schemas_lem [] d = refl
add_schemas_lem (e ∷ es) d = add_schemas_lem es _

module _ {V : Type 0} (key : EventInfo → String) (value : EventInfo → V) where
  -- The dictionary of a specification of services, from what they set one after the other.
  updates : List Service → Dict V → Dict V
  updates [] d = d
  updates (s ∷ ss) d = updates ss (update d (set_all key value (or_empty s.emits) []))

  updates_at_once :
      (ss : List Service) (d e : Dict V)
      → SameEntries d e
      → SameEntries (updates ss d) (set_all key value (all_events ss) e)
  unfolding updates
  updates_at_once [] d e h k = h k
  updates_at_once (s ∷ ss) d e h k =
      let own = or_empty s.emits in
      updates_at_once ss (update d (set_all key value own [])) (set_all key value own e)
        (λ i. update-set_all key value own d i ∙ set_all-SameEntries key value own d e h i) k
      ∙ ap (λ x. lookup k x) (sym (set_all-append key value own (all_events ss) e))

-- A specification without events.
abbrev empty : String → String → Spec
empty title version = record { title = title; version = version; channels = []; schemas = [] }

-- The specification after one more service.
abbrev after : Service → Spec → Spec
after s spec =
    let own = service_api s in
    record spec {
      channels = update spec.channels own.channels;
      schemas = update spec.schemas own.schemas;
    }

merge-channels :
    (ss : List Service) (spec : Spec)
    → (merge ss spec).channels ≡ updates (λ e. e.name) channel_of ss spec.channels
unfolding merge updates service_api
merge-channels [] spec = refl
merge-channels (s ∷ ss) spec =
    merge-channels ss (after s spec)
    ∙ ap (λ own. updates (λ e. e.name) channel_of ss (update spec.channels own))
        (add_channels_lem (or_empty s.emits) [])

merge-schemas :
    (ss : List Service) (spec : Spec)
    → (merge ss spec).schemas ≡ updates (λ e. e.schema_name) (λ e. object) ss spec.schemas
unfolding merge updates service_api
merge-schemas [] spec = refl
merge-schemas (s ∷ ss) spec =
    merge-schemas ss (after s spec)
    ∙ ap (λ own. updates (λ e. e.schema_name) (λ e. object) ss (update spec.schemas own))
        (add_schemas_lem (or_empty s.emits) [])

-- The combined specification of services holds the same channels and the same schemas, up to the
-- order of the entries, as the specification of one service, of any name and version, that emits
-- the events of all of them in their order: so for a name that several services use, the last
-- event counts.
pub combined_as_one :
    (name version : String) (ss : List Service)
    → entries (get_async_api ss)
      ≡ entries (
          service_api (record {
            name = name;
            version = version;
            emits = some (all_events ss);
            defines = none;
          }))
unfolding get_async_api service_api
combined_as_one name version ss =
    let es = all_events ss in
    ap₂ (λ c d. (c, d))
      (mapping-eq _ _ (λ k.
        ap (λ d. lookup k d) (merge-channels ss (empty "application" "0.0.0"))
        ∙ updates_at_once (λ e. e.name) channel_of ss [] [] (λ i. refl) k
        ∙ ap (λ d. lookup k d) (sym (add_channels_lem es []))))
      (mapping-eq _ _ (λ k.
        ap (λ d. lookup k d) (merge-schemas ss (empty "application" "0.0.0"))
        ∙ updates_at_once (λ e. e.schema_name) (λ e. object) ss [] [] (λ i. refl) k
        ∙ ap (λ d. lookup k d) (sym (add_schemas_lem es []))))
