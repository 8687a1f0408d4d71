-- ===== src/Tests/Events.antt =====
-- The theorems about walnats/_events at concrete data, over a server that keeps its streams in memory.
use walnats.Prelude.{
  String, ◌≡◌, ◌≢◌, ◌⊎◌, inr, eq_iff, ap, refl, Bool, true, false, inl, none, some, List, [], ◌∷◌,
  arith, string_eq, if◌then◌else◌, All,
}
use mathlib.Core.Logic.{ite, if_pos}
use walnats.Prelude.Dict.{Dict, lookup, insert, lookup-insert}
use walnats.Exceptions.{ok-injective, exception}
use walnats.Errors.{other, ApiError, bad_request, server_error, stream_exists, stream_config}
use walnats.Events.Event.{
  BaseEvent, StreamConfig, no_limits, stream_name, stream_config as configuration,
}
use walnats.Events.Sync.{JetStream, Reply, done, fail, sync, sync_all, register}
use walnats.Events.Sync.Server.{IsJetStream, Stored, Refused}
use walnats.Events.Sync.Specification.{Config-discrete, Allowed, sync-Allowed}

abbrev exists_error : ApiError
exists_error = record {
  code = some 400;
  err_code = some 10058;
  description = none;
  stream = none;
  seq = none;
}

unfoldable pub add : StreamConfig → Dict StreamConfig → Reply × Dict StreamConfig
add c s = elim (lookup c.name s) [
  | none ↦ (done, insert c.name c s)
  | some old ↦ ite (Config-discrete old c) (done, s) (fail (bad_request exists_error), s)
]

-- A locked server refuses every update.
abbrev config_error : ApiError
config_error = record exists_error { code = some 500; err_code = some 10052 }

unfoldable pub update_to : Bool → StreamConfig → Dict StreamConfig → Reply × Dict StreamConfig
update_to locked c s = elim (lookup c.name s) [
  | none ↦ (fail (other (exception "NotFoundError")), s)
  | some old ↦ if locked then (fail (server_error config_error), s) else (done, insert c.name c s)
]

abbrev pub memory : Bool → JetStream
memory locked = record {
  State = Dict StreamConfig;
  add_stream = add;
  update_stream = update_to locked;
}

updates :
    (locked : Bool) (c old : StreamConfig) (s : Dict StreamConfig)
    → lookup c.name s ≡ some old
    → Stored (memory locked) (λ t n. lookup n t) c s (update_to locked c s)
      ⊎ ((e : ApiError) × (e.err_code ≡ some 10052)
          × Refused (memory locked) (λ t n. lookup n t) (server_error e) s (update_to locked c s))
unfolding update_to
updates true c old s there =
    inr (config_error, refl, record { reply = ground (arith, there); same = ground (arith, there) })
updates false c old s there = inl (record {
  reply = ground (arith, there);
  content = λ n. ground (arith, there, lookup-insert c.name n c s);
})

pub memory-IsJetStream : (locked : Bool) → IsJetStream (memory locked)
unfolding add update_to
memory-IsJetStream locked = record {
  stream = λ s n. lookup n s;
  add_new = λ c s absent. inl (record {
    reply = ground (arith, absent);
    content = λ n. ground (arith, absent, lookup-insert c.name n c s);
  });
  add_same = λ c s there. rw (there, add) (rw (if_pos (Config-discrete c c) refl) refl);
  add_other = λ c old s there differ.
      (exists_error, refl, record { reply = ground (arith, there); same = ground (arith, there) });
  update_old = λ c old s there. updates locked c old s there;
  update_new = λ c s absent. (
    exception "NotFoundError",
    record { reply = ground (arith, absent); same = ground (arith, absent) },
  );
}

abbrev pub event : String → BaseEvent String String
event name = record {
  name = name;
  schema = "int";
  serializer = none;
  description = none;
  limits = no_limits;
}

abbrev pub config : String → String → StreamConfig
config name subject = record {
  name = name;
  subjects = subject ∷ [];
  description = none;
  max_age = none;
  max_consumers = none;
  max_msgs = none;
  max_bytes = none;
  max_msg_size = none;
}

abbrev pub both : List (BaseEvent String String)
both = event "user.created" ∷ event "mail-sent" ∷ []

-- Registration of two events on an empty server.
registered : register (memory false) true true both [] ≡ (
  done,
  ("user-created", config "user-created" "user.created")
      ∷ ("mail-sent", config "mail-sent" "mail-sent")
      ∷ [],
)
unfolding register sync_all sync add update_to lookup insert configuration stream_name
registered = refl

pub distinct :
    All (λ f. stream_name f ≢ stream_name (event "user.created")) (event "mail-sent" ∷ [])
unfolding stream_name
distinct = (λ e. ground (arith, eq_iff "mail-sent" "user-created", ok-injective e), tt)

abbrev pub old_streams : Dict StreamConfig
old_streams = ("mail-sent", config "mail-sent" "mail") ∷ []

pub differs : config "mail-sent" "mail" ≢ config "mail-sent" "mail-sent"
differs e = ground (arith, eq_iff "mail" "mail-sent", ap (λ (c : StreamConfig). c.subjects) e)

-- With `create` alone: the stream that is there has another subject.
sync-Allowed_example :
    Allowed
      (memory false)
      (memory-IsJetStream false)
      (config "mail-sent" "mail-sent")
      old_streams
      (sync (memory false) true false (event "mail-sent") old_streams)
      true
      false
      (some (config "mail-sent" "mail"))
unfolding configuration stream_name lookup memory-IsJetStream
sync-Allowed_example =
    sync-Allowed (memory false) (memory-IsJetStream false) (event "mail-sent")
      (config "mail-sent" "mail-sent") refl old_streams true false

stream_taken :
    (sync (memory false) true false (event "mail-sent") old_streams).0
    ≡ fail (stream_exists (record exists_error { code = some 400 }))
unfolding sync add lookup configuration stream_name
stream_taken = ground (arith, differs)

-- A locked server refuses the changed configuration.
refused :
    sync (memory true) true true (event "mail-sent") old_streams
    ≡ (fail (stream_config config_error), old_streams)
unfolding sync add update_to lookup configuration stream_name
refused = ground (arith, differs)

-- The state that a registration leaves.
abbrev one_stream : Dict StreamConfig
one_stream = (sync (memory false) true true (event "mail-sent") []).1
