-- ===== src/Actors/Connection/Routing.antt =====
-- From the stream of an event to the listeners of its actors: what `register` of both connections, `emit`
-- and `_listen` agree on.
use mathlib.Core.Option.{some-injective}
use walnats.Prelude.{
  subst, ℕ, zero, suc, String, ◌≡◌, ◌∙◌, refl, ap, sym, Bool, true, some, List, [], ◌∷◌, All,
  get_elem?, arith,
}
use walnats.Exceptions.{Result, ok, raise, >>=-eq-ok, ok-injective}
use walnats.Events.Event.{BaseEvent, StreamConfig, stream_config, stream_name, subject_name}
use walnats.Events.Headers.{Platform}
use walnats.Events.Emission.{Client, Options, emit}
use walnats.Events.Emission.Subject.{To, emit-All}
use walnats.Events.Sync.{JetStream, done, register}
use walnats.Events.Sync.Server.{IsJetStream}
use walnats.Events.Sync.Register.{DistinctStreams, Registered, name_of_config, register_stores}
use walnats.Actors.Actor.{Actor, ConsumerConfig, consumer_name, consumer_config, add_arguments}
use walnats.Actors.Connection as Actors
use walnats.Actors.Listen.{Effect, subscribed, Round, listen}

-- The first effect is the binding to a consumer.
abbrev pub Binds : {Msg : Type 0} → (durable stream : String) → ℕ → List (Effect Msg) → Type 0
Binds {Msg} durable stream batch t =
    (rest : List (Effect Msg)) × (t ≡ subscribed durable stream batch ∷ rest)

module _ {A : Type 0} (P : A → Type 0) where
  All-at : (xs : List A) (i : ℕ) (x : A) → All P xs → get_elem? xs i ≡ some x → P x
  All-at [] i x all h = absurd (cc h)
  All-at (y ∷ ys) zero x all h = subst P (some-injective _ _ h) all.0
  All-at (y ∷ ys) (suc i) x all h = All-at ys i x all.1 h

module _ {Schema Ser Handler Mw : Type 0} where
  -- Every actor has its consumer, at its place.
  registered_at :
      (add_consumer : String × ConsumerConfig → Result (Unit {0}))
      (actors : List (Actor Schema Ser Handler Mw)) (cs : List (String × ConsumerConfig)) (i : ℕ)
      (a : Actor Schema Ser Handler Mw)
      → Actors.register add_consumer actors ≡ ok cs
      → get_elem? actors i ≡ some a
      → (c : String × ConsumerConfig) × (add_arguments a ≡ ok c) × (get_elem? cs i ≡ some c)
  unfolding Actors.register
  registered_at add_consumer [] cs i a h at = absurd (cc at)
  registered_at add_consumer (x ∷ xs) cs zero a h at =
      let (c, added, others) = >>=-eq-ok (add_arguments x) _ h in
      let (u, done', rest) = >>=-eq-ok (add_consumer c) _ others in
      let (cs', found, equal) = >>=-eq-ok (Actors.register add_consumer xs) _ rest in
      (
        c,
        ap add_arguments (sym (some-injective _ _ at)) ∙ added,
        ap (λ l. get_elem? l 0) (sym (ok-injective equal)),
      )
  registered_at add_consumer (x ∷ xs) cs (suc i) a h at =
      let (c, added, others) = >>=-eq-ok (add_arguments x) _ h in
      let (u, done', rest) = >>=-eq-ok (add_consumer c) _ others in
      let (cs', found, equal) = >>=-eq-ok (Actors.register add_consumer xs) _ rest in
      let (d, added', there) = registered_at add_consumer xs cs' i a found at in
      (d, added', ap (λ l. get_elem? l (suc i)) (sym (ok-injective equal)) ∙ there)

  consumer_of :
      (a : Actor Schema Ser Handler Mw) (c : String × ConsumerConfig)
      → add_arguments a ≡ ok c
      → (stream_name a.event ≡ ok c.0) × (consumer_name a ≡ ok c.1.durable_name)
  unfolding add_arguments consumer_config
  consumer_of a c h =
      let (stream, named, rest) = >>=-eq-ok (stream_name a.event) _ h in
      let (config, made, equal) = >>=-eq-ok (consumer_config a) _ rest in
      let (durable, called, built) = >>=-eq-ok (consumer_name a) _ made in
      (
        named ∙ ap (λ (x : String × ConsumerConfig). ok x.0) (ok-injective equal),
        called
            ∙ ap (λ (x : ConsumerConfig). ok x.durable_name) (ok-injective built)
            ∙ ap (λ (x : String × ConsumerConfig). ok x.1.durable_name) (ok-injective equal),
      )

  listen-Binds :
      {Msg : Type 0} (a : Actor Schema Ser Handler Mw) (burst : Bool) (batch : ℕ)
      (subscription waited unsubscription : Result (Unit {0})) (r : Round Msg)
      (rs : List (Round Msg)) (durable stream : String)
      → consumer_name a ≡ ok durable
      → stream_name a.event ≡ ok stream
      → Binds durable stream batch (listen a burst batch subscription waited unsubscription r rs).1
  unfolding listen
  listen-Binds a burst batch (ok u) waited unsubscription r rs durable stream d s =
      rw (d, s) (_, refl)
  listen-Binds a burst batch (raise e) waited unsubscription r rs durable stream d s =
      rw (d, s) (_, refl)

module _ {Schema Ser : Type 0} (js : JetStream) (L : IsJetStream js) where
  open L use {stream}

  subjects_of_config :
      (e : BaseEvent Schema Ser) (c : StreamConfig)
      → stream_config e ≡ ok c
      → c.subjects ≡ subject_name e ∷ []
  unfolding stream_config
  subjects_of_config e c h = ground arith

  -- Streams, consumers and subjects agree from the emission of an event to the listeners of its actors.
  -- Let `register` of the events with `create` and `update` be done on a server, no two of them with one stream, and let `register` of the actors add
  -- consumers. Then for every actor of those whose event is one of these: its listener first binds to
  -- the consumer that was added for the actor, by its name and its stream; that stream is on the server,
  -- and takes the subject of the event and no other; and all that `emit` publishes of the event goes to
  -- this subject.
  pub event_routed :
      {Handler Mw Bytes Time T Msg : Type 0} (events : List (BaseEvent Schema Ser)) (s : js.State)
      (add_consumer : String × ConsumerConfig → Result (Unit {0}))
      (actors : List (Actor Schema Ser Handler Mw)) (cs : List (String × ConsumerConfig)) (i k : ℕ)
      (a : Actor Schema Ser Handler Mw) (p : Platform Time) (c : Client Bytes)
      (known : BaseEvent Schema Ser → Bool) (encode : T → Result Bytes) (message : T)
      (o : Options Time) (sync burst : Bool) (batch : ℕ)
      (subscription waited unsubscription : Result (Unit {0})) (r : Round Msg)
      (rs : List (Round Msg))
      → DistinctStreams events
      → (register js true true events s).0 ≡ done
      → Actors.register add_consumer actors ≡ ok cs
      → get_elem? actors i ≡ some a
      → get_elem? events k ≡ some a.event
      → (name : String) × (consumer : ConsumerConfig) × (config : StreamConfig) × (get_elem? cs i
          ≡ some (name, consumer))
        × Binds consumer.durable_name name batch
            (listen a burst batch subscription waited unsubscription r rs).1
        × (stream (register js true true events s).1 name ≡ some config)
        × (config.subjects ≡ subject_name a.event ∷ [])
        × All (To (subject_name a.event)) (emit p c known a.event encode message o sync).1
  event_routed events s add_consumer actors cs i k a p c known encode message o sync burst batch
        subscription waited unsubscription r rs distinct all_done added at among =
      let ((name, consumer), given, there) = registered_at add_consumer actors cs i a added at in
      let (of_stream, of_consumer) = consumer_of a (name, consumer) given in
      let (config, made, stored) =
        All-at (Registered js L (register js true true events s).1) events k a.event
          (register_stores js L events s distinct all_done) among in
      let same : config.name ≡ name =
        ok-injective (sym (name_of_config a.event config made) ∙ of_stream) in
      (
        name,
        consumer,
        config,
        there,
        listen-Binds a burst batch subscription waited unsubscription r rs consumer.durable_name
            name of_consumer of_stream,
        subst (λ n. stream (register js true true events s).1 n ≡ some config) same stored,
        subjects_of_config a.event config made,
        emit-All p c known a.event encode message o sync,
      )
