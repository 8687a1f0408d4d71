-- ===== src/Services/Diagram.antt =====
-- `get_d2` and `d2_iter_lines` (walnats/_services.py).
use walnats.Prelude.{String, ◌<>◌, Bool, true, false, List, [], ◌∷◌, ◌++◌, if◌then◌else◌}
use walnats.Services.{EventInfo, ActorInfo, Service, or_empty}

abbrev pub actor_style : String
actor_style = "{stroke: \"#2980b9\"; fill: \"#e9f2fb\"}"

abbrev pub service_style : String
service_style = "{stroke: \"#f39c12\"; fill: \"#fef4e6\"}"

abbrev pub event_style : String
event_style = "{stroke: \"#e74c3c\"; fill: \"#fcebea\"}"

abbrev pub arrow_style : String
arrow_style = "{style: {stroke: \"#2c3e50\"}}"

-- `if colors: yield line`
abbrev pub coloured : Bool → String → List String
coloured true line = line ∷ []
coloured false line = []

event_lines : Bool → String → List EventInfo → List String
event_lines colors service [] = []
event_lines colors service (e ∷ es) =
    (e.name <> ".shape: oval")
    ∷ (coloured colors (e.name <> ".style: " <> event_style)
        ++ ((service <> " -> " <> e.name <> ": " <> e.schema_name) ∷ event_lines colors service es))

actor_lines : Bool → String → List ActorInfo → List String
actor_lines colors service [] = []
actor_lines colors service (a ∷ as') =
    (if colors
      then a.event_name <> " -> " <> service <> "." <> a.name <> ": " <> arrow_style
      else a.event_name <> " -> " <> service <> "." <> a.name)
    ∷ (coloured colors (service <> "." <> a.name <> ".style: " <> actor_style)
        ++ actor_lines colors service as')

-- `Service.d2_iter_lines`
unfoldable pub service_lines : Bool → Service → List String
unfolding event_lines actor_lines
service_lines colors s =
    coloured colors (s.name <> ".style: " <> service_style)
    ++ (event_lines colors s.name (or_empty s.emits)
        ++ actor_lines colors s.name (or_empty s.defines))

all_lines : Bool → List Service → List String
all_lines colors [] = []
all_lines colors (s ∷ ss) = service_lines colors s ++ all_lines colors ss

-- `Services._d2_iter_lines`
unfoldable pub d2_lines : String → Bool → List Service → List String
unfolding all_lines service_lines
d2_lines direction colors services = ("direction: " <> direction) ∷ all_lines colors services

-- `'\n'.join(lines)`
abbrev pub join_lines : List String → String
join_lines [] = ""
join_lines (l ∷ []) = l
join_lines (l ∷ ls) = l <> "\n" <> join_lines ls

-- `Services.get_d2`
unfoldable pub get_d2 : String → Bool → List Service → String
unfolding d2_lines
get_d2 direction colors services = join_lines (d2_lines direction colors services)
