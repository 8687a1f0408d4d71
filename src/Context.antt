-- ===== src/Context.antt =====
-- The contexts that hooks are given (walnats/_context.py), with what they read of the message.
pub mod Attempts
use walnats.Prelude.{
  ℕ, zero, suc, String, ◌-◌, Bool, true, false, Option, none, some, leb, ◌==◌, string_eq,
  if◌then◌else◌, not,
}
use walnats.Prelude.Dict.{Dict, lookup}
use walnats.Exceptions.{Exc}

-- `HEADER_DELAY`, `HEADER_TRACE` and `HEADER_REPLY` of _constants.py.
abbrev pub header_delay : String
header_delay = "Walnats-Delay"

abbrev pub header_trace : String
header_trace = "Walnats-Trace"

abbrev pub header_reply : String
header_reply = "Walnats-Reply"

-- The parts of `nats.aio.msg.Msg` that the code reads: `metadata.num_delivered`,
-- `metadata.sequence.stream`, `headers` and `data`.
pub record Msg (Bytes : Type 0) : Type 0 where
  pub num_delivered : Option ℕ
  pub sequence : Option ℕ
  pub headers : Option (Dict String)
  pub payload : Bytes

-- The two names of an actor that hooks read: `actor.name` and `actor.event.name`.
pub record ActorNames : Type 0 where
  pub name : String
  pub event_name : String

-- `bool(x)` of a text or `None`.
abbrev pub truthy : Option String → Bool
truthy none = false
truthy (some s) = not (s == "")

-- `(msg.headers or {}).get(key)`
unfoldable pub get_header : {Bytes : Type 0} → Msg Bytes → String → Option String
get_header m key = elim m.headers [ none ↦ none | some h ↦ lookup key h ]

-- `seq_number`
unfoldable pub seq_number : {Bytes : Type 0} → Msg Bytes → ℕ
seq_number m = elim m.sequence [ none ↦ 0 | some s ↦ s ]

-- `num_delivered or 1`: zero is replaced too.
abbrev pub delivered : Option ℕ → ℕ
delivered none = 1
delivered (some zero) = 1
delivered (some (suc n)) = suc n

-- `attempts`
unfoldable pub attempts : {Bytes : Type 0} → Msg Bytes → ℕ
attempts m =
    let n = delivered m.num_delivered in
    if leb 2 n then (if truthy (get_header m header_delay) then n - 1 else n) else n

-- `trace_id`
unfoldable pub trace_id : {Bytes : Type 0} → Msg Bytes → Option String
trace_id m = elim m.headers [ none ↦ none | some h ↦ lookup header_trace h ]

module _ (Bytes T : Type 0) where
  pub record Context : Type 0 where
    pub actor : ActorNames
    pub msg : Msg Bytes
    pub message : T

  -- The message is missing if the payload was not decoded.
  pub record ErrorContext : Type 0 where
    pub actor : ActorNames
    pub msg : Msg Bytes
    pub message : Option T
    pub exc : Exc

  pub record OkContext : Type 0 where
    pub actor : ActorNames
    pub msg : Msg Bytes
    pub message : T
    pub duration : ℕ
