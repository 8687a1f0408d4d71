-- ===== src/Services.antt =====
-- `Services` and `Service` (walnats/_services.py): diagrams and specifications of a system.
pub mod AsyncApi
pub mod Diagram
pub mod Example
use walnats.Prelude.{String, Bool, Option, none, some, List, [], ◌∷◌, ◌++◌}

-- What is read of an event: `event.name`, `event.schema.__name__` and `event.description`.
pub record EventInfo : Type 0 where
  pub name : String
  pub schema_name : String
  pub description : Option String

-- What is read of an actor: `a.name` and `a.event.name`.
pub record ActorInfo : Type 0 where
  pub name : String
  pub event_name : String

pub record Service : Type 0 where
  pub name : String
  pub version : String
  pub emits : Option (List EventInfo)
  pub defines : Option (List ActorInfo)

-- `Services.add`, on the list of services.
unfoldable pub add :
    String
    → String
    → Option (List EventInfo)
    → Option (List ActorInfo)
    → List Service
    → List Service
add name version emits defines services =
    services ++ (record { name = name; version = version; emits = emits; defines = defines } ∷ [])

-- `self.emits or []`
abbrev pub or_empty {ℓ} : {A : Type ℓ} → Option (List A) → List A
or_empty none = []
or_empty (some xs) = xs
