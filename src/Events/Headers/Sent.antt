-- ===== src/Events/Headers/Sent.antt =====
-- The headers of a message that is emitted with a `CloudEvent`.
use mathlib.Core.Option
use Prim.Native.Char.{code}
use text.Mathlib.TextLemmas.{cons-append}
use walnats.Prelude.{
  sym, ◌+◌, ap, nat_eq, ℕ, String, ◌<>◌, ◌≡◌, ◌≢◌, ◌∙◌, refl, subst, Option, none, some, false,
  arith, ◌==◌, string_eq, eq_iff,
}
use walnats.Prelude.Dict.{lookup}
use walnats.Context.{header_delay, header_trace, header_reply}
use walnats.Events.CloudEvent.{CloudEvent, as_headers}
use walnats.Events.CloudEvent.Laws.{HasAttributes, header, header_values, no_header}
use walnats.Events.Headers.{Platform, cloud, meta_headers, id_of, until, make_headers}
use walnats.Events.Headers.Laws.{given, lookup-make_headers}

abbrev pub first_code : String → ℕ
first_code String.[] = 0
first_code (String.◌∷◌ c s) = code c

-- A header of an event is none of those of the library.
pub ce_apart : (n k : String) → (first_code n == 99) ≡ false → ("ce-" <> k) ≢ n
ce_apart n k other h =
    let same : 99 ≡ first_code n = ap first_code (sym (cons-append "c" "e-" k) ∙ h) in
    absurd (ground (arith, same, other))

module _ {Time : Type 0} (p : Platform Time) where
  -- The header of the ID is none of the others (in Nats it is `Nats-Msg-Id`).
  pub record IsApart : Type 0 where
    pub reply : header_reply ≢ p.header_id
    pub delay : header_delay ≢ p.header_id
    pub trace : header_trace ≢ p.header_id
    pub event : (k : String) → ("ce-" <> k) ≢ p.header_id

  -- The ID that is given, or that of the event.
  abbrev pub id_for : Option String → CloudEvent Time → String
  id_for none e = e.id
  id_for (some uid) e = uid

  module _ (apart : IsApart) (uid trace_id : Option String) (delay : Option ℕ) (e : CloudEvent Time)
      (reply : Option String) where
    -- The value of a header of the message.
    abbrev pub sent : String → Option String
    sent k = lookup k (make_headers p uid trace_id delay (cloud e) reply)

    made :
        (k : String)
        → sent k
          ≡ given (header_reply == k) reply (
              given (header_delay == k) (until p delay) (
                given (header_trace == k) trace_id (
                  given
                    (p.header_id == k)
                    (id_of p uid (cloud e))
                    (lookup k (as_headers p.printing e)))))
    unfolding meta_headers
    made k = lookup-make_headers p uid trace_id delay (cloud e) reply k

    sent_reply : sent header_reply ≡ reply
    sent_reply = ground (
      arith,
      made header_reply,
      no_header p.printing e header_reply (λ k. ce_apart header_reply k refl),
      eq_iff p.header_id header_reply,
      apart.reply,
    )

    sent_delay : sent header_delay ≡ Option.map (λ d. p.str_float (p.now + d)) delay
    sent_delay = ground (
      arith,
      made header_delay,
      no_header p.printing e header_delay (λ k. ce_apart header_delay k refl),
      eq_iff p.header_id header_delay,
      apart.delay,
    )

    sent_trace : sent header_trace ≡ trace_id
    sent_trace = ground (
      arith,
      made header_trace,
      no_header p.printing e header_trace (λ k. ce_apart header_trace k refl),
      eq_iff p.header_id header_trace,
      apart.trace,
    )

    sent_id : sent p.header_id ≡ some (id_for uid e)
    sent_id = ground (
      arith,
      made p.header_id,
      eq_iff header_reply p.header_id,
      apart.reply,
      eq_iff header_delay p.header_id,
      apart.delay,
      eq_iff header_trace p.header_id,
      apart.trace,
      eq_iff p.header_id p.header_id,
    )

    sent_attribute : (k : String) → sent ("ce-" <> k) ≡ header p.printing e k
    sent_attribute k = ground (
      arith,
      made ("ce-" <> k),
      eq_iff header_reply ("ce-" <> k),
      ce_apart header_reply k refl,
      eq_iff header_delay ("ce-" <> k),
      ce_apart header_delay k refl,
      eq_iff header_trace ("ce-" <> k),
      ce_apart header_trace k refl,
      eq_iff p.header_id ("ce-" <> k),
      apart.event k,
    )

    -- If the header of the ID is none of the others: a message that is emitted with a `CloudEvent`, whatever
    -- else is given with it, has the inbox, the time until which it is delayed and the trace ID, each
    -- exactly if it is given; the ID that is given, or else that of the event; and every attribute of the
    -- event that is set, under its name, and none that is not.
    pub cloud_headers :
        (sent header_reply ≡ reply)
        × (sent header_delay ≡ Option.map (λ d. p.str_float (p.now + d)) delay)
        × (sent header_trace ≡ trace_id)
        × (sent p.header_id ≡ some (id_for uid e))
        × HasAttributes p.printing e (λ k. sent ("ce-" <> k))
    cloud_headers = (
      sent_reply,
      sent_delay,
      sent_trace,
      sent_id,
      subst (HasAttributes p.printing e) (λ i k. sym (sent_attribute k) i)
          (header_values p.printing e),
    )
