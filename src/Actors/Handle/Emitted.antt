-- ===== src/Actors/Handle/Emitted.antt =====
-- Messages that come from `emit` and `request`: what the handling makes of the headers they set.
use walnats.Prelude.{
  ℕ, String, ◌+◌, ◌-◌, ◌<◌, ◌≡◌, true, false, Option, some, arith, string_eq, ltb, if◌then◌else◌,
  refl, ◌∙◌, ◌≤◌, lt→ltb,
}
use walnats.Exceptions.{Result, ok}
use walnats.Effects.{perform}
use walnats.Context.{get_header, header_delay, header_reply, truthy}
use walnats.Events.Headers.{Platform, Meta, make_headers}
use walnats.Events.Headers.Laws.{lookup-make_headers}
use walnats.Actors.Handle.{Job, nak, responded, respond, handle_delayed, handle_due, handle_message}

module _ {Bytes T R Time : Type 0} (j : Job Bytes T R) (p : Platform Time)
    (uid trace_id : Option String) (delay : Option ℕ) (m : Meta Time) (reply : Option String)
    (sent : j.msg.headers ≡ some (make_headers p uid trace_id delay m reply)) where
  -- The response to a request is published to its inbox, whatever headers its sender gave.
  pub respond_to_request :
      (inbox : String) (encode_response : R → Result Bytes) (r : R) (payload : Bytes)
      → reply ≡ some inbox
      → j.encode_response ≡ some encode_response
      → encode_response r ≡ ok payload
      → respond j r ≡ perform (responded inbox payload j.msg.headers) (ok tt)
  unfolding respond get_header
  respond_to_request inbox encode_response r payload asked encodes encoded =
      ground (arith, lookup-make_headers p uid trace_id delay m reply header_reply)

  delayed_exact :
      (d : ℕ)
      → delay ≡ some d
      → truthy (some (p.str_float (p.now + d))) ≡ true
      → j.float (p.str_float (p.now + d)) ≡ ok (p.now + d)
      → handle_message j ≡ (
          if ltb (j.now + 1) (p.now + d)
          then perform (nak (p.now + d - j.now)) j.naked
          else handle_due j)
  unfolding handle_message handle_delayed get_header
  delayed_exact d delays printed read =
      ground (arith, lookup-make_headers p uid trace_id delay m reply header_delay)

module _ {Bytes T R Time : Type 0} (p : Platform Time) (uid trace_id : Option String)
    (m : Meta Time) (reply : Option String) (d : ℕ)
    (printed : truthy (some (p.str_float (p.now + d))) ≡ true) where
  -- A message that was emitted with a delay and comes to an actor while more than a millisecond of it is left
  -- is put back for the time that is left. If it does not come again before that time is over, the next
  -- job handles it.
  pub delayed_until :
      (j k : Job Bytes T R)
      → j.msg.headers ≡ some (make_headers p uid trace_id (some d) m reply)
      → k.msg.headers ≡ j.msg.headers
      → j.float (p.str_float (p.now + d)) ≡ ok (p.now + d)
      → k.float (p.str_float (p.now + d)) ≡ ok (p.now + d)
      → j.now + 1 < p.now + d
      → j.now + (p.now + d - j.now) ≤ k.now
      → (handle_message j ≡ perform (nak (p.now + d - j.now)) j.naked)
        × (handle_message k ≡ handle_due k)
  delayed_until j k sent same read_first read_again early later =
      let over : ltb (k.now + 1) (p.now + d) ≡ false = ground (arith, early, later) in
      (
        delayed_exact j p uid trace_id (some d) m reply sent d refl printed read_first
            ∙ rw (lt→ltb (j.now + 1) (p.now + d) early) refl,
        delayed_exact k p uid trace_id (some d) m reply (same ∙ sent) d refl printed read_again
            ∙ rw over refl,
      )
