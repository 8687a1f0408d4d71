-- ===== src/Events/Monitor/Feed.antt =====
-- What comes to the queue of a monitor.
use walnats.Prelude.{◌≡◌, refl, List, [], ◌∷◌, ◌++◌, map}
use walnats.Exceptions.{Exc, Result, ok, raise}
use walnats.Serializers.Base.{Serializer}
use walnats.Events.Event.{BaseEvent, subject_name}
use walnats.Events.Codec.{decode}
use walnats.Events.Monitor.{subscribed, printed, queued, feed, monitor_event}

module _ {M Bytes : Type 0} (read : Bytes → Result M) where
  -- The payloads are decoded to the messages.
  abbrev pub Decodes : List Bytes → List M → Type 0
  Decodes [] [] = Unit
  Decodes (b ∷ bs) (m ∷ ms) = (read b ≡ ok m) × Decodes bs ms
  Decodes [] (m ∷ ms) = ⊥
  Decodes (b ∷ bs) [] = ⊥

  feed_stops :
      (before : List Bytes) (msgs : List M) (bad : Bytes) (after : List Bytes) (e : Exc)
      → Decodes before msgs
      → read bad ≡ raise e
      → feed read (before ++ (bad ∷ after)) ≡ (raise e, map queued msgs)
  unfolding feed
  feed_stops [] [] bad after e d h = rw h refl
  feed_stops (b ∷ bs) (m ∷ ms) bad after e d h = rw (d.0, feed_stops bs ms bad after e d.1 h) refl
  feed_stops [] (m ∷ ms) bad after e d h = absurd d
  feed_stops (b ∷ bs) [] bad after e d h = absurd d

module _ {Schema M Bytes : Type 0} (get_serializer : Schema → Result (Serializer M Bytes))
    (event : BaseEvent Schema (Serializer M Bytes)) where
  -- A payload that is not decoded ends the feed of an event: the messages before it are queued in their
  -- order, and none after it.
  monitor_stops :
      (before : List Bytes) (msgs : List M) (bad : Bytes) (after : List Bytes) (e : Exc)
      → Decodes (decode get_serializer event) before msgs
      → decode get_serializer event bad ≡ raise e
      → monitor_event get_serializer event (ok tt) (before ++ (bad ∷ after))
        ≡ (raise e, subscribed (subject_name event) ∷ (printed ∷ map queued msgs))
  unfolding monitor_event
  monitor_stops before msgs bad after e d h =
      rw (feed_stops (decode get_serializer event) before msgs bad after e d h) refl
