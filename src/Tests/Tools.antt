-- ===== src/Tests/Tools.antt =====
-- The theorems about the linter, the services and the decorators of walnats at concrete data.
use walnats.Prelude.Dict.{Dict, insert, update}
use walnats.Prelude.{
  map, String, ◌≡◌, ◌≢◌, All, arith, string_eq, eq_iff, refl, false, none, some, List, [], ◌∷◌,
}
use walnats.Exceptions.{ok}
use walnats.Events.Event.{BaseEvent, no_limits, stream_name, subject_name}
use walnats.Linter.Tree.{
  Expr, Place, arg, no_args, no_kwargs, call, attribute, name, constant, text_value, unary_op,
  keyword, get_class_name, get_arg,
}
use walnats.Linter.Finders.{check_name, get_violations, message, check_names, check_limits}
use walnats.Linter.Finders.Streams.{clean-DistinctStreams}
use walnats.Events.Sync.Register.{DistinctStreams}
use walnats.Linter.Checker.{run, two_digits}
use walnats.Services.{add}
use walnats.Services.Example.{user_created, user_updated, email_sent, services}
use walnats.Services.AsyncApi.{get_async_api, service_api}
use walnats.Services.AsyncApi.Combined.{entries, combined_as_one}
use walnats.Services.Diagram.{d2_lines}
use walnats.Decorators.FilterTime.{FilterTime, TimeTuple, anything, exactly, one_of}

abbrev here : Place
here = record { lineno = 3; col_offset = 4 }

abbrev text : String → Expr
text s = constant here (text_value s)

-- `walnats.Event('bad name')` and `walnats.Limits(age=-1)`.
abbrev nodes : List Expr
nodes =
    call here (attribute here (name here "walnats") "Event") (arg (text "bad name") no_args)
      no_kwargs
    ∷ call here (attribute here (name here "walnats") "Limits") no_args
        (keyword "age" (unary_op here) no_kwargs)
    ∷ []

rows_of_nodes : run nodes ≡ (
    some (record { lineno = 3; col_offset = 4; content = "WNS003 event name has invalid symbols" })
    ∷ some (record { lineno = 3; col_offset = 4; content = "WNS011 limit must be positive" })
    ∷ [])
unfolding run get_violations get_class_name get_arg message two_digits check_name check_names
    check_limits
rows_of_nodes = refl

abbrev event : BaseEvent String String
event = record {
  name = "user-created";
  schema = "User";
  description = none;
  serializer = none;
  limits = no_limits;
}

abbrev events : List (BaseEvent String String)
events = record event { name = "email-sent" } ∷ event ∷ []

other_name : event.name ≢ "email-sent"
other_name e = ground (arith, eq_iff "user-created" "email-sent", e)

clean-DistinctStreams_example :
    DistinctStreams events × All (λ v. stream_name v ≡ ok (subject_name v)) events
unfolding check_name
clean-DistinctStreams_example =
    clean-DistinctStreams 0 (text "user-created") events (refl, (refl, tt))
      ((other_name, tt), (tt, tt))

-- The names of the events that have a channel, and of the schemas.
abbrev names_of : {V : Type 0} → Dict V → List String
names_of d = map (λ e. e.0) d

-- `get_d2` without colours, on the system that the example draws.
diagram :
    d2_lines "right" false services
    ≡ "direction: right" ∷ "user-created.shape: oval" ∷ "users -> user-created: User"
      ∷ "user-updated.shape: oval" ∷ "users -> user-updated: User" ∷ "email-sent.shape: oval"
      ∷ "notifications -> email-sent: Email" ∷ "user-created -> notifications.send-email"
      ∷ "user-updated -> notifications.send-email" ∷ "user-created -> notifications.send-sms"
      ∷ "user-updated -> notifications.send-sms" ∷ "user-created -> audit-log.record"
      ∷ "email-sent -> audit-log.record" ∷ []
unfolding d2_lines add
diagram = refl

channels :
    names_of (get_async_api services).channels ≡ "user-created" ∷ "user-updated" ∷ "email-sent" ∷ []
unfolding get_async_api add update insert
channels = refl

combined_as_one_example :
    entries (get_async_api services)
    ≡ entries (
        service_api (record {
          name = "all";
          version = "0.0.0";
          emits = some (user_created ∷ user_updated ∷ email_sent ∷ []);
          defines = none;
        }))
unfolding add
combined_as_one_example = combined_as_one "all" "0.0.0" services

-- At noon on workdays.
abbrev noon : FilterTime
noon = record {
  year = anything;
  month = one_of (1 ∷ 2 ∷ []);
  day = one_of [];
  hour = exactly 12;
  minute = exactly 0;
}

abbrev some_day : TimeTuple
some_day = record { year = 2023; month = 2; day = 17; hour = 12; minute = 0 }
