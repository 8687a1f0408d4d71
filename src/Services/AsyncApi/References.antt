-- ===== src/Services/AsyncApi/References.antt =====
-- The references of a specification.
use walnats.Prelude.{
  String, ◌≡◌, inl, inr, refl, some, List, [], ◌∷◌, arith, All, ◌==◌, string_eq, eq_iff, Bool-cases,
  All-map_of,
}
use walnats.Prelude.Dict.{Dict, lookup, insert, update, lookup-insert}
use walnats.Services.{EventInfo, Service, or_empty}
use walnats.Services.AsyncApi.{
  SchemaBody, object, Channel, Spec, ref_of, channel_of, add_channels, add_schemas, service_api,
  merge, get_async_api,
}

-- A channel refers to a schema of the specification, by the name of its message.
abbrev Resolves : Dict SchemaBody → String × Channel → Type 0
Resolves schemas (k, c) =
    (c.ref ≡ ref_of c.message_name) × (lookup c.message_name schemas ≡ some object)

-- Every channel does.
abbrev IsClosed : Spec → Type 0
IsClosed spec = All (Resolves spec.schemas) spec.channels

has-insert :
    (n k : String) (v : SchemaBody) (d : Dict SchemaBody)
    → lookup n d ≡ some object
    → lookup n (insert k v d) ≡ some object
has-insert n k object d h = ground (arith, lookup-insert k n object d)

has-update :
    (n : String) (d e : Dict SchemaBody)
    → lookup n d ≡ some object
    → lookup n (update d e) ≡ some object
unfolding update
has-update n d [] h = h
has-update n d ((k, v) ∷ e) h = has-update n (insert k v d) e (has-insert n k v d h)

has-update_right :
    (n : String) (d e : Dict SchemaBody)
    → lookup n e ≡ some object
    → lookup n (update d e) ≡ some object
unfolding update lookup
has-update_right n d [] h = absurd (cc h)
has-update_right n d ((k, object) ∷ e) h = elim (Bool-cases (k == n)) [
  | inl same ↦ has-update n (insert k object d) e (ground (arith, same, lookup-insert k n object d))
  | inr other ↦ has-update_right n (insert k object d) e (rw other at h)
]

module _ {V : Type 0} (P : String × V → Type 0) where
  All-insert : (k : String) (v : V) (d : Dict V) → P (k, v) → All P d → All P (insert k v d)
  unfolding insert
  All-insert k v [] p a = (p, tt)
  All-insert k v ((j, w) ∷ d) p a = elim (Bool-cases (j == k)) [
    | inl same ↦ rw same (p, a.1)
    | inr other ↦ rw other (a.0, All-insert k v d p a.1)
  ]

  All-update : (d e : Dict V) → All P d → All P e → All P (update d e)
  unfolding update
  All-update d [] a b = a
  All-update d ((k, v) ∷ e) a b = All-update (insert k v d) e (All-insert k v d b.0 a) b.1

Resolves-insert :
    (k : String) (v : SchemaBody) (schemas : Dict SchemaBody) (x : String × Channel)
    → Resolves schemas x
    → Resolves (insert k v schemas) x
Resolves-insert k v schemas (j, c) r = (r.0, has-insert c.message_name k v schemas r.1)

add-Resolves :
    (es : List EventInfo) (channels : Dict Channel) (schemas : Dict SchemaBody)
    → All (Resolves schemas) channels
    → All (Resolves (add_schemas es schemas)) (add_channels es channels)
unfolding add_channels add_schemas
add-Resolves [] channels schemas a = a
add-Resolves (e ∷ es) channels schemas a =
    let schemas' = insert e.schema_name object schemas in
    add-Resolves es (insert e.name (channel_of e) channels) schemas' (
      All-insert (Resolves schemas') e.name (channel_of e) channels
        (
          refl,
          ground (
            arith,
            lookup-insert e.schema_name e.schema_name object schemas,
            eq_iff e.schema_name e.schema_name,
          ),
        )
        (All-map_of (Resolves-insert e.schema_name object schemas) channels a))

-- In the specification of a service every channel refers to a schema that is there.
service_api-IsClosed : (s : Service) → IsClosed (service_api s)
unfolding service_api
service_api-IsClosed s = add-Resolves (or_empty s.emits) [] [] tt

merge-IsClosed : (ss : List Service) (spec : Spec) → IsClosed spec → IsClosed (merge ss spec)
unfolding merge
merge-IsClosed [] spec closed = closed
merge-IsClosed (s ∷ ss) spec closed =
    let own = service_api s in
    let schemas = update spec.schemas own.schemas in
    merge-IsClosed ss
      (record spec { channels = update spec.channels own.channels; schemas = schemas })
      (All-update (Resolves schemas) spec.channels own.channels
        (All-map_of (λ x r. (r.0, has-update x.1.message_name spec.schemas own.schemas r.1))
          spec.channels closed)
        (All-map_of (λ x r. (r.0, has-update_right x.1.message_name spec.schemas own.schemas r.1))
          own.channels (service_api-IsClosed s)))

-- In the combined specification of any services every channel refers to a schema that is there.
get_async_api-IsClosed : (ss : List Service) → IsClosed (get_async_api ss)
unfolding get_async_api
get_async_api-IsClosed ss = merge-IsClosed ss _ tt
