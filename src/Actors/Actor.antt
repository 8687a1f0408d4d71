-- ===== src/Actors/Actor.antt =====
-- The settings of `Actor` (walnats/_actors/_actor.py) and the small functions on them. Delays and
-- other times are natural numbers of milliseconds.
pub mod Delays
use walnats.Prelude.{
  ℕ, zero, suc, String, ◌+◌, Bool, true, false, not, Option, none, some, List, [], ◌∷◌, leb, length,
  get_or, ◌==◌, string_eq, if◌then◌else◌,
}
use walnats.Exceptions.{Result, ok, raise, ◌>>=◌}
use walnats.Events.Event.{BaseEvent, assertion_error, assert, stream_name}
use walnats.Actors.Priority.{Priority}

-- _execute_in.py
pub data ExecuteIn : Type 0 where
  main thread process : ExecuteIn

pub record Actor (Schema Ser Handler Mw : Type 0) : Type 0 where
  pub name : String
  pub event : BaseEvent Schema Ser
  pub handler : Handler
  pub description : Option String
  pub ack_wait : ℕ
  pub max_attempts : Option ℕ
  pub max_ack_pending : ℕ
  pub middlewares : List Mw
  pub max_jobs : ℕ
  pub job_timeout : ℕ
  pub execute_in : ExecuteIn
  pub retry_delay : List ℕ
  pub pulse : Bool
  pub priority : Priority

-- `nats.js.api.ConsumerConfig`, with the fields that the code sets.
pub record ConsumerConfig : Type 0 where
  pub durable_name : String
  pub description : Option String
  pub ack_wait : ℕ
  pub max_deliver : Option ℕ
  pub max_ack_pending : ℕ

-- `delays[-1]` of a list with the first element `d`.
abbrev pub last_or : ℕ → List ℕ → ℕ
last_or d [] = d
last_or d (x ∷ xs) = last_or x xs

-- `_get_nak_delay`; an attempt is a natural number, so its assertion holds.
unfoldable pub get_nak_delay : List ℕ → Option ℕ → ℕ
get_nak_delay [] attempt = 0
get_nak_delay (d ∷ ds) none = d
get_nak_delay (d ∷ ds) (some n) =
    if leb (length (d ∷ ds)) n then last_or d ds else get_or (d ∷ ds) n 0

module _ {Schema Ser Handler Mw : Type 0} where
  unfoldable pub consumer_name : Actor Schema Ser Handler Mw → Result String
  consumer_name a = assert (not (a.name == "")) >>= λ _. ok a.name

  unfoldable pub consumer_config : Actor Schema Ser Handler Mw → Result ConsumerConfig
  unfolding consumer_name
  consumer_config a = consumer_name a >>= λ name. ok (record {
    durable_name = name;
    description = a.description;
    ack_wait = a.ack_wait;
    max_deliver = a.max_attempts;
    max_ack_pending = a.max_ack_pending;
  })

  -- `_add`: the arguments of the call of `js.add_consumer`.
  unfoldable pub add_arguments : Actor Schema Ser Handler Mw → Result (String × ConsumerConfig)
  unfolding consumer_config
  add_arguments a = stream_name a.event >>= λ s. consumer_config a >>= λ c. ok (s, c)
