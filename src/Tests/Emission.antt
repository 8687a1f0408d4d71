-- ===== src/Tests/Emission.antt =====
-- The theorems about headers and the clock of walnats/_events at concrete data.
use walnats.Events.Clock.{Clock, run, wait_delay}
use walnats.Events.Clock.Ticks.{Increases, Rounds, moments, run-Increases}
use walnats.Prelude.{
  eq_iff, ◌<>◌, Option, ◌+◌, arith, [], ◌∷◌, ◌/◌, false, map, ℕ, String, ◌≡◌, refl, ap, sym, ◌∙◌,
  none, some, string_eq,
}
use walnats.Prelude.Text.{str_len}
use walnats.Prelude.Dict.{lookup, insert}
use walnats.Context.{header_delay}
use walnats.Events.CloudEvent.{CloudEvent, Printing, as_headers, as_dict}
use walnats.Events.Headers.{Platform, cloud, make_headers, meta_headers}
use walnats.Events.Headers.Sent.{IsApart, ce_apart, cloud_headers}
use walnats.Events.CloudEvent.Laws.{HasAttributes}

-- A printing that keeps numbers apart.
unfoldable pub tally : ℕ → String
tally ℕ.zero = ""
tally (ℕ.suc n) = String.◌∷◌ "I" (tally n)

str_len-tally : (n : ℕ) → str_len (tally n) ≡ n
unfolding tally
str_len-tally ℕ.zero = refl
str_len-tally (ℕ.suc n) = ap ℕ.suc (str_len-tally n)

tally_distinct : (a b : ℕ) → tally a ≡ tally b → a ≡ b
tally_distinct a b e = sym (str_len-tally a) ∙ (ap str_len e ∙ str_len-tally b)

abbrev printing : Printing ℕ
printing = record { isoformat = tally; str_time = tally; str_int = tally }

abbrev pub platform : Platform ℕ
platform = record { header_id = "Nats-Msg-Id"; now = 2; str_float = tally; printing = printing }

abbrev cloud_event : CloudEvent ℕ
cloud_event = record {
  id = "1";
  source = "shop";
  kind = "order";
  specversion = "1.0";
  datacontenttype = none;
  dataschema = none;
  subject = some "cart";
  time = some 2;
  dataref = none;
  partitionkey = none;
  sampledrate = some 3;
  sequence = none;
  traceparent = none;
  tracestate = none;
}

-- The ID of the event is the message's, and the delay counts from now.
delayed_headers :
    (lookup "Nats-Msg-Id" (make_headers platform none (some "t") (some 1) (cloud cloud_event) none)
      ≡ some "1")
    × (lookup header_delay (make_headers platform none (some "t") (some 1) (cloud cloud_event) none)
        ≡ some "III")
unfolding make_headers lookup as_headers as_dict insert tally meta_headers
delayed_headers = (refl, refl)

msg_id_apart : IsApart platform
msg_id_apart = record {
  reply = λ h. ground (arith, eq_iff "Walnats-Reply" "Nats-Msg-Id", h);
  delay = λ h. ground (arith, eq_iff "Walnats-Delay" "Nats-Msg-Id", h);
  trace = λ h. ground (arith, eq_iff "Walnats-Trace" "Nats-Msg-Id", h);
  event = λ k. ce_apart "Nats-Msg-Id" k refl;
}

-- A message with a trace ID, a delay and no ID of its own.
abbrev with_event : String → Option String
with_event k = lookup k (make_headers platform none (some "t") (some 1) (cloud cloud_event) none)

cloud_headers_example :
    (with_event "Walnats-Reply" ≡ none)
    × (with_event "Walnats-Delay" ≡ some (tally (2 + 1)))
    × (with_event "Walnats-Trace" ≡ some "t")
    × (with_event "Nats-Msg-Id" ≡ some "1")
    × HasAttributes printing cloud_event (λ k. with_event ("ce-" <> k))
cloud_headers_example =
    cloud_headers platform msg_id_apart none (some "t") (some 1) cloud_event none

-- A clock that is started at 5 and ticks every 60 milliseconds: the second wait takes longer than it should.
abbrev clock : Clock
clock = record { event = "minute-passed"; meta = none; period = 60 }

long_waits : Rounds 60 5 ((5, 61) ∷ (63, 125) ∷ [])
unfolding wait_delay
long_waits = (omega arith, omega arith, (omega arith, omega arith, tt))

run-Increases_example :
    Increases
      (5 / 60)
      (map (λ now. now / 60) (moments (run tally clock false (5, 61) ((63, 125) ∷ []))))
run-Increases_example =
    run-Increases tally clock (omega arith) false 5 (5, 61) ((63, 125) ∷ []) long_waits
