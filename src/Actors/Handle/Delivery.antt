-- ===== src/Actors/Handle/Delivery.antt =====
-- From `emit` to the handler: the event that a job has is the message that was emitted.
use walnats.Prelude.{Option, arith, ◌≡◌, refl, ◌∙◌, Bool, some, [], ◌∷◌}
use walnats.Exceptions.{Result, ok, raise}
use walnats.Serializers.Base.{Serializer, RoundTrips}
use walnats.Events.Event.{BaseEvent}
use walnats.Events.Headers.{Platform}
use walnats.Events.Emission.{Client, Options, emit}
use walnats.Events.Emission.Payload.{payloads_of, emitted_payload}
use walnats.Actors.Priority.{with_sem, turns, acquire, value}
use walnats.Actors.Handle.{
  Effect, sem, Job, Ended, finished, failed, run_event, run_block, try_block,
}

-- What the hooks after a job are told of its event.
abbrev pub event_of : {T R : Type 0} → Ended T R → Option T
event_of (finished event r) = some event
event_of (failed event e) = event

-- The job gets its semaphores.
pub record GetsIn {Bytes T R : Type 0} (j : Job Bytes T R) : Type 0 where
  pub actor_free : j.take_actor ≡ ok tt
  pub turns_end : (turns {E = Effect Bytes} sem (value j.priority) j.take_turn).0 ≡ ok tt
  pub global_free : j.take_global ≡ ok tt

module _ {Bytes T R : Type 0} (j : Job Bytes T R) (m : T)
    (read : j.decode j.msg.payload ≡ ok m) where
  -- A result of the block, with the event.
  abbrev Has : Result (Ended T R) → Type 0
  Has r = (e : Ended T R) × (r ≡ ok e) × (event_of e ≡ some m)

  Has-ended :
      (r : Result R) → Has (ok (elim r [ ok x ↦ finished m x | raise e ↦ failed (some m) e ]))
  Has-ended (ok x) = (finished m x, refl, refl)
  Has-ended (raise e) = (failed (some m) e, refl, refl)

  Has-run_event : Has (run_event j m).0
  unfolding run_event
  Has-run_event = Has-ended _

  Has-run_block : Has (run_block j).0
  unfolding run_block
  Has-run_block = rw (read, run_block) Has-run_event

  Has-try_block : GetsIn j → Has (try_block j).0
  unfolding try_block acquire with_sem
  Has-try_block gets =
      let (e, ends, event) = Has-run_block in
      (e, ground (arith, gets.actor_free, gets.turns_end, gets.global_free, ends), event)

module _ {Bytes Time T Schema Ser : Type 0} (p : Platform Time) (c : Client Bytes)
    (known : BaseEvent Schema Ser → Bool) (event : BaseEvent Schema Ser) (s : Serializer T Bytes)
    (message : T) (o : Options Time) where
  -- A payload that `emit` publishes, handed to a job of an actor with a serializer that makes round
  -- trips, is decoded to the message that was emitted; and if the job gets its semaphores, then its `try`
  -- block ends with this message as the event, whether a middleware or the handler raises or not.
  pub emitted_handled :
      {R : Type 0} (j : Job Bytes T R) (sync : Bool)
      → RoundTrips s
      → ((b : Bytes) → j.decode b ≡ s.decode b)
      → payloads_of (emit p c known event s.encode message o sync).1 ≡ j.msg.payload ∷ []
      → GetsIn j
      → (j.decode j.msg.payload ≡ ok message)
        × (e : Ended T R) × ((try_block j).0 ≡ ok e)
        × (event_of e ≡ some message)
  emitted_handled j sync trips reads published gets =
      let read : j.decode j.msg.payload ≡ ok message =
        reads j.msg.payload
        ∙ trips message j.msg.payload
            (emitted_payload p c known event s message o sync j.msg.payload published) in
      let (e, ends, has) = Has-try_block j message read gets in (read, e, ends, has)
