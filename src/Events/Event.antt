-- ===== src/Events/Event.antt =====
-- `BaseEvent`, `Event`, `EventWithResponse` (walnats/_events/_event.py) and `Limits` (_limits.py).
use walnats.Prelude.{
  ℕ, String, Bool, true, false, ◌&&◌, Option, none, some, List, [], ◌∷◌, ltb, leb, if◌then◌else◌,
}
use walnats.Prelude.Text.{str_len, replace_char}
use walnats.Exceptions.{Exc, exception, Result, ok, raise, ◌>>=◌}

-- A limit that is `None` is not set. Ages and sizes are natural numbers.
pub record Limits : Type 0 where
  pub age : Option ℕ
  pub consumers : Option ℕ
  pub messages : Option ℕ
  pub bytes : Option ℕ
  pub message_size : Option ℕ

-- The keyword arguments of `evolve`: `none` for a field that is not named.
pub record Changes : Type 0 where
  pub age : Option (Option ℕ)
  pub consumers : Option (Option ℕ)
  pub messages : Option (Option ℕ)
  pub bytes : Option (Option ℕ)
  pub message_size : Option (Option ℕ)

abbrev pub changed : Option (Option ℕ) → Option ℕ → Option ℕ
changed none old = old
changed (some new) old = new

unfoldable pub evolve : Limits → Changes → Limits
evolve l c = record {
  age = changed c.age l.age;
  consumers = changed c.consumers l.consumers;
  messages = changed c.messages l.messages;
  bytes = changed c.bytes l.bytes;
  message_size = changed c.message_size l.message_size;
}

-- The default `Limits()`.
abbrev pub no_limits : Limits
no_limits = record {
  age = none;
  consumers = none;
  messages = none;
  bytes = none;
  message_size = none;
}

-- `Schema` stands for Python types, `Ser` for serializer objects.
pub record BaseEvent (Schema Ser : Type 0) : Type 0 where
  pub name : String
  pub schema : Schema
  pub serializer : Option Ser
  pub description : Option String
  pub limits : Limits

pub record EventWithResponse (Schema Ser : Type 0) : Type 0 where
  pub event : BaseEvent Schema Ser
  pub response_schema : Schema
  pub response_serializer : Option Ser

-- `nats.js.api.StreamConfig`, with the fields that the code sets. `retention` is always INTEREST.
pub record StreamConfig : Type 0 where
  pub name : String
  pub subjects : List String
  pub description : Option String
  pub max_age : Option ℕ
  pub max_consumers : Option ℕ
  pub max_msgs : Option ℕ
  pub max_bytes : Option ℕ
  pub max_msg_size : Option ℕ

abbrev pub assertion_error : Exc
assertion_error = exception "AssertionError"

-- `assert b`
abbrev pub assert : Bool → Result (Unit {0})
assert true = ok tt
assert false = raise assertion_error

abbrev pub short_description : Option String → Bool
short_description none = true
short_description (some d) = leb (str_len d) 4096

module _ {Schema Ser : Type 0} where
  abbrev pub subject_name : BaseEvent Schema Ser → String
  subject_name e = e.name

  unfoldable pub stream_name : BaseEvent Schema Ser → Result String
  stream_name e =
      if ltb 0 (str_len e.name) && leb (str_len e.name) 255
      then ok (replace_char b'.' "-" e.name)
      else raise assertion_error

  unfoldable pub stream_config : BaseEvent Schema Ser → Result StreamConfig
  stream_config e = assert (short_description e.description) >>= λ _. stream_name e >>= λ name.
      ok (record {
        name = name;
        subjects = subject_name e ∷ [];
        description = e.description;
        max_age = e.limits.age;
        max_consumers = e.limits.consumers;
        max_msgs = e.limits.messages;
        max_bytes = e.limits.bytes;
        max_msg_size = e.limits.message_size;
      })

  -- `Event.with_response`
  unfoldable pub with_response :
      BaseEvent Schema Ser → Schema → Option Ser → EventWithResponse Schema Ser
  with_response e schema serializer = record {
    event = record {
      name = e.name;
      schema = e.schema;
      serializer = e.serializer;
      description = e.description;
      limits = e.limits;
    };
    response_schema = schema;
    response_serializer = serializer;
  }
