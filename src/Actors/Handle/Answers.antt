-- ===== src/Actors/Handle/Answers.antt =====
-- The response in the trace of a job.
pub mod Requested
use walnats.Prelude.{
  ℕ, String, ◌≡◌, ◌∙◌, sym, refl, ap, Bool, true, false, Option, none, some, List, [], ◌∷◌, ◌++◌,
  arith, count_if, if◌then◌else◌, ◌==◌, string_eq, eq_iff, inl, inr,
}
use walnats.Prelude.Dict.{Dict, lookup}
use walnats.Exceptions.{Exc, exception, Result, ok, raise, Result-cases}
use walnats.Effects.{Act, ◌>>◌, perform}
use walnats.Context.{get_header, header_delay, header_reply}
use walnats.Serializers.Base.{Serializer, RoundTrips}
use walnats.Events.Event.{BaseEvent, EventWithResponse}
use walnats.Events.Codec.{encode, decode, response_serializer_of, encode_response, decode_response}
use walnats.Events.Headers.{Platform, Meta, make_headers, meta_headers}
use walnats.Events.Headers.Laws.{lookup-make_headers}
use walnats.Events.Emission.{Client, Options, headers_of, request}
use walnats.Actors.Handle.{
  Effect, nak, ack, pulse_started, pulse_cancelled, sem, decoded, called, logged, hook, spawned,
  responded, Job, Ended, finished, cancel_pulse, respond, after_ack, after_success, after_try,
  try_block, handle_due, handle_message,
}
use walnats.Actors.Handle.Counts.{Lacks, IgnoresTry, Lacks-try_block}
use walnats.Actors.Handle.Emitted.{respond_to_request}

module _ {Bytes : Type 0} where
  abbrev is_response : Effect Bytes → Bool
  is_response (responded i b h) = true
  is_response _ = false

  -- The first response that is published to an inbox.
  abbrev pub answer_to : String → List (Effect Bytes) → Option Bytes
  answer_to inbox [] = none
  answer_to inbox (responded i b h ∷ t) =
      let rest = answer_to inbox t in if i == inbox then some b else rest
  answer_to inbox (_ ∷ t) = answer_to inbox t

  skip :
      (inbox : String) (t u : List (Effect Bytes))
      → Lacks is_response t
      → answer_to inbox (t ++ u) ≡ answer_to inbox u
  skip inbox [] u h = refl
  skip inbox (responded i b h' ∷ t) u h = absurd (ground (arith, h))
  skip inbox (nak d ∷ t) u h = skip inbox t u (ground (arith, h))
  skip inbox (ack ∷ t) u h = skip inbox t u (ground (arith, h))
  skip inbox (pulse_started ∷ t) u h = skip inbox t u (ground (arith, h))
  skip inbox (pulse_cancelled ∷ t) u h = skip inbox t u (ground (arith, h))
  skip inbox (sem s ∷ t) u h = skip inbox t u (ground (arith, h))
  skip inbox (decoded ∷ t) u h = skip inbox t u (ground (arith, h))
  skip inbox (called ∷ t) u h = skip inbox t u (ground (arith, h))
  skip inbox (logged ∷ t) u h = skip inbox t u (ground (arith, h))
  skip inbox (hook w k ∷ t) u h = skip inbox t u (ground (arith, h))
  skip inbox (spawned w k ∷ t) u h = skip inbox t u (ground (arith, h))

  is_response-IgnoresTry : IgnoresTry is_response
  is_response-IgnoresTry = record {
    hooks = record { at_hook = λ w i. refl; at_spawned = λ w i. refl };
    at_sem = λ s. refl;
    at_decoded = refl;
    at_called = refl;
  }

  first_answer :
      (inbox : String) (b : Bytes) (m n : Act (Effect Bytes) (Unit {0})) (h : Option (Dict String))
      → m ≡ perform (responded inbox b h) (ok tt)
      → answer_to inbox (m >> n).1 ≡ some b
  first_answer inbox b m n h e = rw e (ground (arith, eq_iff inbox inbox))

starts_quiet :
    (Bytes : Type 0) (pulse : Bool)
    → Lacks {Bytes = Bytes} is_response (if pulse then pulse_started ∷ [] else [])
starts_quiet Bytes true = refl
starts_quiet Bytes false = refl

module _ {Bytes T R : Type 0} (j : Job Bytes T R) (m : T) (r : R) (inbox : String) (b : Bytes)
    (h : Option (Dict String)) (responds : respond j r ≡ perform (responded inbox b h) (ok tt))
    (acked : j.acked ≡ ok tt) (handled : (try_block j).0 ≡ ok (finished m r)) where
  trace_due :
      (handle_due j).1
      ≡ (if j.pulse then pulse_started ∷ [] else [])
        ++ ((try_block j).1 ++ (after_try j (finished m r)).1)
  unfolding handle_due
  trace_due = ground (arith, handled)

  trace_success : (after_try j (finished m r)).1 ≡ cancel_pulse j ++ (ack ∷ (after_ack j m r).1)
  unfolding after_try after_success
  trace_success = ground (arith, acked)

  cancel_quiet : Lacks is_response (cancel_pulse j)
  unfolding cancel_pulse
  cancel_quiet = ground arith

  answer-after_ack : answer_to inbox (after_ack j m r).1 ≡ some b
  unfolding after_ack
  answer-after_ack = first_answer inbox b (respond j r) _ h responds

  pub answer-handle_due : answer_to inbox (handle_due j).1 ≡ some b
  answer-handle_due =
      ap (answer_to inbox) trace_due
      ∙ (skip inbox (if j.pulse then pulse_started ∷ [] else []) _ (starts_quiet Bytes j.pulse)
          ∙ (skip inbox (try_block j).1 _ (Lacks-try_block is_response is_response-IgnoresTry j)
              ∙ (ap (answer_to inbox) trace_success
                  ∙ (skip inbox (cancel_pulse j) _ cancel_quiet ∙ answer-after_ack))))
