-- ===== src/Events/Sync/Register.antt =====
-- `ConnectedEvents.register` on a JetStream server.
use walnats.Prelude.{
  String, ◌≡◌, ◌≢◌, ◌∙◌, subst, inl, inr, refl, true, some, List, [], ◌∷◌, arith, string_eq, eq_iff,
  All,
}
use walnats.Exceptions.{ok, Result-cases}
use walnats.Events.Event.{BaseEvent, StreamConfig, stream_config, stream_name}
use walnats.Events.Sync.{JetStream, done, sync, sync_all, register}
use walnats.Events.Sync.Server.{IsJetStream}
use walnats.Events.Sync.Laws.{sync_stores}

module _ {Schema Ser : Type 0} where
  -- No two events have one stream.
  abbrev pub DistinctStreams : List (BaseEvent Schema Ser) → Type 0
  DistinctStreams [] = Unit
  DistinctStreams (e ∷ es) = All (λ f. stream_name f ≢ stream_name e) es × DistinctStreams es

  pub name_of_config :
      (e : BaseEvent Schema Ser) (c : StreamConfig)
      → stream_config e ≡ ok c
      → stream_name e ≡ ok c.name
  unfolding stream_config
  name_of_config e c h = ground arith

module _ {Schema Ser : Type 0} (js : JetStream) (L : IsJetStream js) where
  open L use {stream}

  -- The stream of the event is on the server with the configuration of the event.
  abbrev pub Registered : js.State → BaseEvent Schema Ser → Type 0
  Registered t e = (c : StreamConfig) × (stream_config e ≡ ok c) × (stream t c.name ≡ some c)

  config_of_done :
      (e : BaseEvent Schema Ser) (s : js.State)
      → (sync js true true e s).0 ≡ done
      → (c : StreamConfig) × (stream_config e ≡ ok c)
  unfolding sync
  config_of_done e s d = elim (Result-cases (stream_config e)) [
    | inl found ↦ found
    | inr (exc, bad) ↦ absurd (ground (arith, bad))
  ]

  parts_of_done :
      (e : BaseEvent Schema Ser) (es : List (BaseEvent Schema Ser)) (s : js.State)
      → (sync_all js true true (e ∷ es) s).0 ≡ done
      → ((sync js true true e s).0 ≡ done)
        × ((sync_all js true true es (sync js true true e s).1).0 ≡ done)
  unfolding sync_all
  parts_of_done e es s d = ground arith

  pub others_kept :
      (n : String) (es : List (BaseEvent Schema Ser)) (s : js.State)
      → All (λ f. stream_name f ≢ ok n) es
      → (sync_all js true true es s).0 ≡ done
      → stream (sync_all js true true es s).1 n ≡ stream s n
  unfolding sync_all
  others_kept n [] s ne d = refl
  others_kept n (e ∷ es) s ne d =
      let (d1, d2) = parts_of_done e es s d in
      let t = (sync js true true e s).1 in
      let (c, config) = config_of_done e s d1 in
      let step : stream t n ≡ stream s n = ground (
        arith,
        sync_stores js L e c config s d1 n,
        eq_iff c.name n,
        name_of_config e c config,
        ne.0,
      ) in
      others_kept n es t ne.1 d2 ∙ step

  All-stored :
      (es : List (BaseEvent Schema Ser)) (s : js.State)
      → DistinctStreams es
      → (sync_all js true true es s).0 ≡ done
      → All (Registered (sync_all js true true es s).1) es
  unfolding sync_all
  All-stored [] s u d = tt
  All-stored (e ∷ es) s u d =
      let (d1, d2) = parts_of_done e es s d in
      let t = (sync js true true e s).1 in
      let (c, config) = config_of_done e s d1 in
      let mine : stream t c.name ≡ some c =
        ground (arith, sync_stores js L e c config s d1 c.name, eq_iff c.name c.name) in
      let named = name_of_config e c config in
      let others : All (λ f. stream_name f ≢ ok c.name) es =
        subst (λ n. All (λ f. stream_name f ≢ n) es) named u.0 in
      ((c, config, others_kept c.name es t others d2 ∙ mine), All-stored es t u.1 d2)

  -- If no two events have one stream and `register` with `create` and `update` is done, then the stream
  -- of every event is on the server with the configuration of the event.
  pub register_stores :
      (es : List (BaseEvent Schema Ser)) (s : js.State)
      → DistinctStreams es
      → (register js true true es s).0 ≡ done
      → All (Registered (register js true true es s).1) es
  unfolding register
  register_stores [] s u d = tt
  register_stores (e ∷ es) s u d = All-stored (e ∷ es) s u d
