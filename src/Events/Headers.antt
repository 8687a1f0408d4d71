-- ===== src/Events/Headers.antt =====
-- Emission: `_make_headers`, `emit` and `request` of `ConnectedEvents` (_connection.py). The name of
-- the header for deduplication is the library's, times are natural numbers, and the text of a time is
-- a parameter.
pub mod Laws
pub mod Sent
use walnats.Prelude.{
  ℕ, String, ◌+◌, Bool, Option, none, some, List, [], ◌∷◌, contains, string_eq, if◌then◌else◌,
}
use walnats.Prelude.Dict.{Dict, insert}
use walnats.Context.{header_delay, header_trace, header_reply}
use walnats.Events.CloudEvent.{CloudEvent, Printing, as_headers}

-- What the code takes from elsewhere: `nats.js.api.Header.MSG_ID.value`, the clock, and `str` of a
-- float.
pub record Platform (Time : Type 0) : Type 0 where
  pub header_id : String
  pub now : ℕ
  pub str_float : ℕ → String
  pub printing : Printing Time

-- The argument `meta`.
pub data Meta (Time : Type 0) : Type 0 where
  absent : Meta Time
  headers : Dict String → Meta Time
  cloud : CloudEvent Time → Meta Time

-- `if v is not None: headers[k] = v`
abbrev pub set_if : String → Option String → Dict String → Dict String
set_if k none d = d
set_if k (some v) d = insert k v d

module _ {Time : Type 0} (p : Platform Time) where
  -- The headers that `meta` gives, and the ID that it has of its own.
  unfoldable pub meta_headers : Meta Time → Dict String
  meta_headers absent = []
  meta_headers (headers d) = d
  meta_headers (cloud e) = as_headers p.printing e

  abbrev pub meta_id : Meta Time → Option String
  meta_id (cloud e) = some e.id
  meta_id _ = none

  abbrev pub id_of : Option String → Meta Time → Option String
  id_of none m = meta_id m
  id_of (some uid) m = some uid

  -- `f'{self._now() + delay}'`
  abbrev pub until : Option ℕ → Option String
  until none = none
  until (some delay) = some (p.str_float (p.now + delay))

  unfoldable pub make_headers :
      Option String → Option String → Option ℕ → Meta Time → Option String → Dict String
  make_headers uid trace_id delay m reply = set_if header_reply reply (
      set_if header_delay (until delay)
        (set_if header_trace trace_id (set_if p.header_id (id_of uid m) (meta_headers m))))
