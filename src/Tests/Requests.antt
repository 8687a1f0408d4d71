-- ===== src/Tests/Requests.antt =====
-- Requests and delayed messages of walnats, from the connection to the actor.
use walnats.Prelude.{
  ℕ, ap, sym, String, ◌+◌, ◌-◌, ◌≡◌, refl, true, false, none, some, [], ◌∷◌, arith,
}
use walnats.Prelude.Dict.{insert, lookup}
use walnats.Exceptions.{exception, ok, raise, ok-injective}
use walnats.Effects.{perform}
use walnats.Events.Event.{EventWithResponse, BaseEvent, no_limits}
use walnats.Events.Headers.{absent, make_headers, meta_headers}
use walnats.Events.Emission.{
  Client, Options, subscribed, js_published, awaited, unsubscribed, nc_published, duplicate_logged,
  emit, request,
}
use walnats.Serializers.Base.{Serializer}
use walnats.Events.Codec.{encode, encode_response, response_serializer_of, decode_response}
use walnats.Actors.Handle.Answers.Requested.{request_answered}
use walnats.Context.{get_header}
use walnats.Actors.Priority.{with_sem, acquire, turns}
use walnats.Actors.Handle.Delivery.{GetsIn, event_of, emitted_handled}
use walnats.Actors.Handle.{
  run_hooks, Ended, try_block, Job, nak, respond, handle_message, handle_due,
}
use walnats.Actors.Handle.Emitted.{delayed_until}
use walnats.Tests.Actors.{job}
use walnats.Tests.Emission.{platform, tally}

-- A client that answers every request with 5, and finds every message a duplicate.
abbrev pub client : Client ℕ
client = record {
  new_inbox = "inbox";
  js_publish = λ subject payload headers. ok true;
  nc_publish = λ subject payload headers. ok tt;
  subscribe = λ inbox. ok tt;
  next_msg = λ inbox timeout. ok 5;
  unsubscribe = λ inbox. ok tt;
}

-- One on which the wait for the response times out.
abbrev silent : Client ℕ
silent = record client { next_msg = λ inbox timeout. raise (exception "TimeoutError") }

abbrev event : BaseEvent String String
event = record {
  name = "asked";
  schema = "int";
  description = none;
  serializer = none;
  limits = no_limits;
}

abbrev pub options : Options ℕ
options = record { uid = none; trace_id = none; delay = none; given_meta = absent }

unanswered : request platform silent (λ e. true) event (λ n. ok n) (λ n. ok n) 3 options 4 ≡ (
  raise (exception "TimeoutError"),
  subscribed "inbox"
      ∷ js_published "asked" 3 (("Walnats-Reply", "inbox") ∷ [])
      ∷ awaited "inbox"
      ∷ unsubscribed "inbox"
      ∷ [],
)
unfolding request make_headers meta_headers insert
unanswered = refl

published :
    emit platform client (λ e. true) event (λ n. ok n) 3 options false
    ≡ (ok tt, nc_published "asked" 3 none ∷ [])
unfolding emit make_headers meta_headers
published = refl

duplicate :
    emit platform client (λ e. true) event (λ n. ok n) 3 options true
    ≡ (ok tt, js_published "asked" 3 [] ∷ duplicate_logged ∷ [])
unfolding emit make_headers meta_headers
duplicate = refl

abbrev asked : Job ℕ ℕ ℕ
asked = record job {
  msg = record job.msg {
    headers = some (make_headers platform none none none absent (some "inbox"));
  };
}

-- The platform's clock says 2, so that the message is for the moment 202, which the actor reads as such.
abbrev early : Job ℕ ℕ ℕ
early = record job {
  msg = record job.msg { headers = some (make_headers platform none none (some 200) absent none) };
  float = λ s. ok 202;
}

abbrev again : Job ℕ ℕ ℕ
again = record early { now = 203 }

delayed_until_example :
    (handle_message early ≡ perform (nak (2 + 200 - 100)) (ok tt))
    × (handle_message again ≡ handle_due again)
unfolding tally
delayed_until_example =
    delayed_until platform none none absent none 200 refl early again refl refl refl refl
      (omega arith) (omega arith)

-- A serializer that passes numbers on, and a job that gets what is emitted.
abbrev plain_numbers : Serializer ℕ ℕ
plain_numbers = record { encode = λ m. ok m; decode = λ b. ok b }

-- The handler raises.
abbrev raising : Job ℕ ℕ ℕ
raising = record job { handler = λ t. raise (exception "ZeroDivisionError") }

raising-GetsIn : GetsIn raising
unfolding turns with_sem
raising-GetsIn = record { actor_free = refl; turns_end = refl; global_free = refl }

emitted_handled_example :
    (raising.decode 21 ≡ ok 21)
    × (e : Ended ℕ ℕ) × ((try_block raising).0 ≡ ok e)
    × (event_of e ≡ some 21)
unfolding emit make_headers meta_headers
emitted_handled_example =
    emitted_handled platform client (λ e. true) event plain_numbers 21 options raising true
      (λ m b e. ap ok (sym (ok-injective e))) (λ b. refl) refl raising-GetsIn

abbrev answered : EventWithResponse String (Serializer ℕ ℕ)
answered = record {
  event = record {
    name = "asked";
    schema = "int";
    description = none;
    serializer = some plain_numbers;
    limits = no_limits;
  };
  response_schema = "int";
  response_serializer = some plain_numbers;
}

-- A client that receives what `asked` publishes.
abbrev receiving : Client ℕ
receiving = record client { next_msg = λ inbox timeout. ok 42 }

request_answered_example :
    (request platform receiving
      (λ e. true)
      answered.event
      (encode (λ s. ok plain_numbers) answered.event)
      (decode_response (λ s. ok plain_numbers) answered)
      21
      options
      4).0
    ≡ ok 42
unfolding encode encode_response response_serializer_of make_headers meta_headers insert lookup
    get_header handle_message with_sem acquire turns run_hooks try_block respond
request_answered_example =
    request_answered (λ s. ok plain_numbers) platform receiving answered options asked refl refl
      refl refl (λ e. true) 21 4 plain_numbers 21 42 42 true refl refl refl refl refl refl refl refl
      (λ m b e. ap ok (sym (ok-injective e))) refl
