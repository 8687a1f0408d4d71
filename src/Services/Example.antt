-- ===== src/Services/Example.antt =====
-- The architecture that the repository draws as an example (examples/diagram.py).
use walnats.Prelude.{String, none, some, List, [], ◌∷◌}
use walnats.Services.{EventInfo, ActorInfo, Service, add}

abbrev pub user_created : EventInfo
user_created = record { name = "user-created"; schema_name = "User"; description = none }

abbrev pub user_updated : EventInfo
user_updated = record { name = "user-updated"; schema_name = "User"; description = none }

abbrev pub email_sent : EventInfo
email_sent = record { name = "email-sent"; schema_name = "Email"; description = none }

-- `walnats.Actor(name, event, noop)`
abbrev pub actor_of : String → EventInfo → ActorInfo
actor_of name event = record { name = name; event_name = event.name }

abbrev users : List Service → List Service
users services = add "users" "0.0.0" (some (user_created ∷ user_updated ∷ [])) none services

abbrev notifications : List Service → List Service
notifications services =
    add "notifications" "0.0.0" (some (email_sent ∷ []))
      (some (
        actor_of "send-email" user_created
        ∷ actor_of "send-email" user_updated
        ∷ actor_of "send-sms" user_created
        ∷ actor_of "send-sms" user_updated
        ∷ []))
      services

abbrev audit_log : List Service → List Service
audit_log services =
    add "audit-log" "0.0.0" none
      (some (actor_of "record" user_created ∷ actor_of "record" email_sent ∷ [])) services

-- `services`, after the three calls of `add`.
abbrev pub services : List Service
services = audit_log (notifications (users []))
