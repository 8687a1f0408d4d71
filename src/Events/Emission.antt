-- ===== src/Events/Emission.antt =====
-- `emit` and `request` of `ConnectedEvents` (walnats/_events/_connection.py), from the outcomes of the
-- calls of the client. An outcome is a parameter; every call that is made stands in the trace.
pub mod Request
pub mod Payload
pub mod Subject
use walnats.Prelude.{
  ℕ, String, Bool, true, false, Option, none, some, List, [], ◌∷◌, ◌++◌, if◌then◌else◌,
}
use walnats.Prelude.Dict.{Dict}
use walnats.Exceptions.{Result, ok, raise}
use walnats.Effects.{Act, ◌>>=◌, ◌>>◌, pure, perform}
use walnats.Events.Event.{BaseEvent, assert, subject_name}
use walnats.Events.Headers.{Platform, Meta, make_headers}

-- The connection: `nc.new_inbox()`, `js.publish` with `ack.duplicate`, `nc.publish`, `nc.subscribe`, and
-- `next_msg` with its data and `unsubscribe` of the subscription.
pub record Client (Bytes : Type 0) : Type 0 where
  pub new_inbox : String
  pub js_publish : String → Bytes → Dict String → Result Bool
  pub nc_publish : String → Bytes → Option (Dict String) → Result (Unit {0})
  pub subscribe : String → Result (Unit {0})
  pub next_msg : String → ℕ → Result Bytes
  pub unsubscribe : String → Result (Unit {0})

pub data Call (Bytes : Type 0) : Type 0 where
  js_published : String → Bytes → Dict String → Call Bytes
  nc_published : String → Bytes → Option (Dict String) → Call Bytes
  duplicate_logged : Call Bytes
  subscribed : String → Call Bytes
  awaited : String → Call Bytes
  unsubscribed : String → Call Bytes

-- The keyword arguments that both take.
pub record Options (Time : Type 0) : Type 0 where
  pub uid : Option String
  pub trace_id : Option String
  pub delay : Option ℕ
  pub given_meta : Meta Time

-- `headers or None`
abbrev pub or_none : Dict String → Option (Dict String)
or_none [] = none
or_none (h ∷ hs) = some (h ∷ hs)

-- `try: body finally: last`: an exception of the last step takes the place of another.
abbrev pub finally {ℓ κ} : {E : Type ℓ} {A : Type κ} → Act E A → Act E (Unit {0}) → Act E A
finally body last = (elim last.0 [ ok _ ↦ body.0 | raise e ↦ raise e ], body.1 ++ last.1)

module _ {Bytes Time : Type 0} (p : Platform Time) (c : Client Bytes) where
  -- The headers of a message with or without an inbox for the response.
  abbrev pub headers_of : Options Time → Option String → Dict String
  headers_of o reply = make_headers p o.uid o.trace_id o.delay o.given_meta reply

  publish_sync : String → Bytes → Dict String → Act (Call Bytes) (Unit {0})
  publish_sync subject payload headers =
      perform (js_published subject payload headers) (c.js_publish subject payload headers)
      >>= λ duplicate. if duplicate then perform duplicate_logged (ok tt) else pure tt

  -- The `try` of `request`, under the subscription.
  exchange : String → Bytes → Dict String → ℕ → Act (Call Bytes) Bytes
  exchange subject payload headers timeout =
      perform (js_published subject payload headers) (c.js_publish subject payload headers) >>= λ _.
      perform (awaited c.new_inbox) (c.next_msg c.new_inbox timeout)

  subscription : String → Bytes → Dict String → ℕ → Act (Call Bytes) Bytes
  unfolding exchange
  subscription subject payload headers timeout =
      perform (subscribed c.new_inbox) (c.subscribe c.new_inbox)
      >> finally (exchange subject payload headers timeout)
          (perform (unsubscribed c.new_inbox) (c.unsubscribe c.new_inbox))

  module _ {T Schema Ser : Type 0} where
    -- `known` is `event in self._events`.
    unfoldable pub emit :
        (BaseEvent Schema Ser → Bool)
        → BaseEvent Schema Ser
        → (T → Result Bytes)
        → T
        → Options Time
        → Bool
        → Act (Call Bytes) (Unit {0})
    unfolding publish_sync
    emit known event encode message o sync =
        let start : Act (Call Bytes) (Unit {0}) = (assert (known event), []) in
        let encoded : Act (Call Bytes) Bytes = (encode message, []) in
        start
        >> (encoded >>= λ payload.
            let headers = headers_of o none in
            if sync
            then publish_sync (subject_name event) payload headers
            else perform (nc_published (subject_name event) payload (or_none headers))
                (c.nc_publish (subject_name event) payload (or_none headers)))

    unfoldable pub request :
        {R : Type 0}
        → (BaseEvent Schema Ser → Bool)
        → BaseEvent Schema Ser
        → (T → Result Bytes)
        → (Bytes → Result R)
        → T
        → Options Time
        → ℕ
        → Act (Call Bytes) R
    unfolding subscription
    request known event encode decode_response message o timeout =
        let start : Act (Call Bytes) (Unit {0}) = (assert (known event), []) in
        let encoded : Act (Call Bytes) Bytes = (encode message, []) in
        start
        >> (encoded >>= λ payload.
            subscription (subject_name event) payload (headers_of o (some c.new_inbox)) timeout
            >>= λ data'. (decode_response data', []))
