-- ===== src/Tests/Routing.antt =====
-- The way of an emitted message to the listener of its actor, at a server in memory.
use walnats.Prelude.{String, ℕ, ◌≡◌, refl, true, false, some, List, [], ◌∷◌, All, get_elem?}
use walnats.Prelude.Dict.{lookup, insert}
use walnats.Exceptions.{ok}
use walnats.Events.Event.{StreamConfig, stream_name, stream_config as configuration}
use walnats.Events.Emission.{emit}
use walnats.Events.Emission.Subject.{To}
use walnats.Events.Sync.{sync, sync_all, register}
use walnats.Actors.Actor.{Actor, ConsumerConfig, add_arguments, consumer_config, consumer_name}
use walnats.Actors.Connection as Actors
use walnats.Actors.Connection.Routing.{Binds, event_routed}
use walnats.Actors.Listen.{listen}
use walnats.Tests.Emission.{platform}
use walnats.Tests.Events.{memory, memory-IsJetStream, add, update_to, event, both, distinct}
use walnats.Tests.Listening.{worker, quiet}
use walnats.Tests.Requests.{client, options}

abbrev mailer : Actor String String ℕ ℕ
mailer = record worker { event = event "user.created" }

abbrev consumers : List (String × ConsumerConfig)
consumers =
    (
      "user-created",
      record {
        durable_name = "mail";
        description = mailer.description;
        ack_wait = 16000;
        max_deliver = mailer.max_attempts;
        max_ack_pending = 1000;
      },
    )
    ∷ []

consumers_added : Actors.register (λ c. ok tt) (mailer ∷ []) ≡ ok consumers
unfolding Actors.register add_arguments consumer_config consumer_name stream_name
consumers_added = refl

event_routed_example :
    (name : String) × (consumer : ConsumerConfig) × (config : StreamConfig) × (get_elem? consumers 0
      ≡ some (name, consumer))
    × Binds consumer.durable_name name 5 (listen mailer false 5 (ok tt) (ok tt) (ok tt) quiet []).1
    × ((memory-IsJetStream false).stream (register (memory false) true true both []).1 name
        ≡ some config)
    × (config.subjects ≡ "user.created" ∷ [])
    × All
        (To "user.created")
        (emit platform client (λ e. true) mailer.event (λ n. ok n) 3 options true).1
unfolding register sync_all sync add update_to lookup insert configuration stream_name
event_routed_example =
    event_routed (memory false) (memory-IsJetStream false) both [] (λ c. ok tt) (mailer ∷ [])
      consumers 0 0 mailer platform client (λ e. true) (λ n. ok n) 3 options true false 5 (ok tt)
      (ok tt) (ok tt) quiet [] (distinct, (tt, tt)) refl consumers_added refl refl
