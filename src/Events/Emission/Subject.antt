-- ===== src/Events/Emission/Subject.antt =====
-- The subject to which `emit` publishes.
use walnats.Prelude.{String, ◌≡◌, refl, inl, inr, Bool, true, false, none, All, Bool-cases}
use walnats.Prelude.Dict.{Dict}
use walnats.Exceptions.{Result, ok, Result-cases}
use walnats.Events.Event.{BaseEvent, subject_name}
use walnats.Events.Headers.{Platform}
use walnats.Events.Emission.{
  Client, Call, js_published, nc_published, Options, emit, publish_sync, headers_of,
}

-- A call that publishes does so to the subject.
abbrev pub To : {Bytes : Type 0} → String → Call Bytes → Type 0
To subject (js_published s payload headers) = s ≡ subject
To subject (nc_published s payload headers) = s ≡ subject
To subject _ = Unit

module _ {Bytes Time : Type 0} (p : Platform Time) (c : Client Bytes) where
  publish_sync-All :
      (subject : String) (b : Bytes) (h : Dict String)
      → All (To subject) (publish_sync p c subject b h).1
  unfolding publish_sync
  publish_sync-All subject b h = elim (Result-cases (c.js_publish subject b h)) [
    | inr (e, raised) ↦ rw raised (refl, tt)
    | inl (true, published) ↦ rw published (refl, (tt, tt))
    | inl (false, published) ↦ rw published (refl, tt)
  ]

  module _ {T Schema Ser : Type 0} (known : BaseEvent Schema Ser → Bool)
      (event : BaseEvent Schema Ser) (encode : T → Result Bytes) where
    -- Whatever `emit` publishes, it publishes to the subject of the event.
    pub emit-All :
        (message : T) (o : Options Time) (sync : Bool)
        → All (To (subject_name event)) (emit p c known event encode message o sync).1
    unfolding emit
    emit-All message o sync = elim (Bool-cases (known event)) [
      | inr unknown ↦ rw unknown tt
      | inl found ↦ elim (Result-cases (encode message)) [
        | inr (e, raised) ↦ rw (found, raised) tt
        | inl (b, encoded) ↦ rw (found, encoded) (by_mode sync b)
      ]
    ]
      where
        by_mode :
            (sync : Bool) (b : Bytes)
            → All
                (To (subject_name event))
                (emit p c (λ e. true) event (λ m. ok b) message o sync).1
        by_mode true b = publish_sync-All event.name b (headers_of p c o none)
        by_mode false b = (refl, tt)
