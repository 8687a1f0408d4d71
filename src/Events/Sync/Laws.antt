-- ===== src/Events/Sync/Laws.antt =====
-- What `_sync` and `register` leave on a JetStream server.
use walnats.Prelude.{
  String, refl, ◌≡◌, ◌≢◌, Bool, true, false, some, ◌==◌, arith, string_eq, if◌then◌else◌, eq_iff,
}
use walnats.Events.Sync.Specification.{sync-Allowed, content_of}
use walnats.Exceptions.{ok}
use walnats.Errors.{ApiError, stream_exists}
use walnats.Events.Event.{BaseEvent, StreamConfig, stream_config}
use walnats.Events.Sync.{JetStream, Reply, done, fail, sync}
use walnats.Events.Sync.Server.{IsJetStream}

module _ {Schema Ser : Type 0} (js : JetStream) (L : IsJetStream js) where
  open L use {stream}

  module _ (e : BaseEvent Schema Ser) (c : StreamConfig) (config : stream_config e ≡ ok c)
      (s : js.State) where
    -- Registration with `create` alone of a stream that is there with another configuration raises
    -- `StreamExistsError`, and the server is as before.
    sync_exists :
        (old : StreamConfig)
        → stream s c.name ≡ some old
        → old ≢ c
        → (x : ApiError) × (sync js true false e s ≡ (fail (stream_exists x), s))
    unfolding sync
    sync_exists old there differ =
        let (x, code, r) = L.add_other c old s there differ in
        (record x { code = some 400 }, ground (arith, config, code, r.reply, r.same))

    abbrev pub outcome : Reply × js.State
    outcome = sync js true true e s

    -- If registration with `create` and `update` is done, the stream of the event is on the server with
    -- the configuration of the event, and the other streams are as before.
    pub sync_stores :
        outcome.0 ≡ done
        → (n : String) → stream outcome.1 n ≡ (if c.name == n then some c else stream s n)
    sync_stores d n =
        content_of js L c s outcome true true _ (sync-Allowed js L e c config s true true) refl refl
          d n

    -- What was registered can be registered again, with `update` or without: that is done and changes
    -- nothing.
    pub sync_again :
        (update : Bool) → outcome.0 ≡ done → sync js true update e outcome.1 ≡ (done, outcome.1)
    sync_again update d =
        let there : stream outcome.1 c.name ≡ some c =
          ground (arith, sync_stores d c.name, eq_iff c.name c.name) in
        again update outcome.1 there
      where
        again :
            (update : Bool) (t : js.State)
            → stream t c.name ≡ some c
            → sync js true update e t ≡ (done, t)
        again update t there = unfold sync in ground (arith, config, L.add_same c t there)
