-- ===== src/Serializers/Registry/Choice.antt =====
-- Which serializer `get_serializer` picks.
use walnats.Prelude.{
  ◌≡◌, refl, Bool, true, false, ◌||◌, ◌&&◌, none, some, List, [], ◌∷◌, arith, any, inl, inr,
  if◌then◌else◌,
}
use walnats.Exceptions.{Exc, ok, raise, exception, Result-cases}
use walnats.Serializers.Registry.{
  Class, class, none_value, Installed, Kind, pydantic_model, protobuf_message, dataclass, bytes,
  datetime, primitive, marshmallow_schema, new, pick, serializers, get_serializer,
}

-- The classes that a serializer is for, with its package at hand.
abbrev pub supports : Installed → Kind → Class → Bool
supports i pydantic_model c = i.pydantic && c.is_pydantic
supports i protobuf_message c = i.protobuf && c.is_protobuf
supports i dataclass c = c.is_dataclass
supports i bytes c = c.is_bytes
supports i datetime c = c.is_datetime
supports i primitive c = c.is_builtin || c.is_none_type
supports i marshmallow_schema c = i.marshmallow && c.is_marshmallow

module _ (i : Installed) (c : Class) where
  new-class : (k : Kind) → new i k (class c) ≡ ok (if supports i k c then some k else none)
  unfolding new
  new-class pydantic_model = ground arith
  new-class primitive = ground arith
  new-class _ = ground arith

  pick-cons :
      (k : Kind) (ks : List Kind)
      → pick i (k ∷ ks) (class c) ≡ (if supports i k c then ok k else pick i ks (class c))
  unfolding pick
  pick-cons k ks = rw new-class (ground arith)

  supported_of_pick :
      (ks : List Kind) (k : Kind) → pick i ks (class c) ≡ ok k → supports i k c ≡ true
  supported_of_pick [] k h = absurd (unfold pick in cc h)
  supported_of_pick (x ∷ ks) k h = ground (arith, pick-cons x ks, supported_of_pick ks k)

  -- Only a class that no serializer is for gets none.
  none_of_pick :
      (ks : List Kind) (e : Exc)
      → pick i ks (class c) ≡ raise e
      → any (λ k. supports i k c) ks ≡ false
  none_of_pick [] e h = refl
  none_of_pick (x ∷ ks) e h = ground (arith, pick-cons x ks, none_of_pick ks e)

  supported_any : (k : Kind) → supports i k c ≡ true → any (λ x. supports i x c) serializers ≡ true
  supported_any pydantic_model h = ground arith
  supported_any protobuf_message h = ground arith
  supported_any _ h = ground arith

  -- The serializer that is picked for a class is one for the class.
  pub pick_supported : (k : Kind) → get_serializer i (class c) ≡ ok k → supports i k c ≡ true
  unfolding get_serializer
  pick_supported k h = supported_of_pick serializers k h

  -- A class that any serializer is for gets one.
  pub pick_found :
      (k : Kind) → supports i k c ≡ true → (found : Kind) × (get_serializer i (class c) ≡ ok found)
  unfolding get_serializer
  pick_found k h = elim (Result-cases (pick i serializers (class c))) [
    | inl found ↦ found
    | inr (e, failed) ↦ cc (none_of_pick serializers e failed, supported_any k h)
  ]

-- The value `None` as a schema always raises `TypeError`, whatever is installed.
pub none_value_raises :
    (i : Installed) → get_serializer i none_value ≡ raise (exception "TypeError")
unfolding get_serializer new
none_value_raises i = ground arith
