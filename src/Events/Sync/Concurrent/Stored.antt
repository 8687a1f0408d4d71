-- ===== src/Events/Sync/Concurrent/Stored.antt =====
-- What one step of a task of `register` does to a JetStream server.
use walnats.Prelude.{
  String, ◌≡◌, ◌≢◌, ◌∙◌, ap, refl, inl, inr, true, some, arith, string_eq, eq_iff, Option-cases,
}
use walnats.Exceptions.{Exc, ok, raise, Result-cases}
use walnats.Errors.{JsExc, other, stream_config as stream_config_error}
use walnats.Events.Event.{BaseEvent, StreamConfig, stream_config, stream_name}
use walnats.Events.Sync.{JetStream, Reply, done, fail}
use walnats.Events.Sync.Server.{IsJetStream, Stored}
use walnats.Events.Sync.Specification.{Config-discrete}
use walnats.Events.Sync.Register.{Registered, name_of_config}
use walnats.Events.Sync.Concurrent.{Phase, adding, updating, over, advance}

module _ {Schema Ser : Type 0} (js : JetStream) (L : IsJetStream js) where
  open L use {stream}

  -- What a task knows of the server at its phase.
  abbrev pub Fine : js.State → BaseEvent Schema Ser → Phase → Type 0
  Fine s e adding = Unit
  Fine s e updating =
      (c : StreamConfig) × (stream_config e ≡ ok c)
      × (old : StreamConfig) × (stream s c.name ≡ some old)
  Fine s e (over done) = Registered js L s e
  Fine s e (over (fail x)) = Unit

  -- A step of the task of an event: what it knows then, and the streams of others, which it left alone.
  pub record Moved (s : js.State) (e : BaseEvent Schema Ser) (r : Phase × js.State) : Type 0 where
    pub fine : Fine r.1 e r.0
    pub kept : (n : String) → stream_name e ≢ ok n → stream r.1 n ≡ stream s n

  module _ (e : BaseEvent Schema Ser) (s : js.State) where
    -- The task ends with an exception, and the server is as before.
    Moved-fail : (x : JsExc) → Moved s e (over (fail x), s)
    Moved-fail x = record { fine = tt; kept = λ n ne. refl }

    module _ (c : StreamConfig) (config : stream_config e ≡ ok c) where
      Moved-Stored : (r : Reply × js.State) → Stored js stream c s r → Moved s e (over done, r.1)
      Moved-Stored r st = record {
        fine = (c, config, ground (arith, st.content c.name, eq_iff c.name c.name));
        kept = λ n ne. ground (arith, st.content n, eq_iff c.name n, name_of_config e c config, ne);
      }

      Moved-adding : Moved s e (advance js true adding e s)
      unfolding advance
      Moved-adding = elim (Option-cases (stream s c.name)) [
        | inl absent ↦ elim (L.add_new c s absent) [
          | inl st ↦
              let same : advance js true adding e s ≡ (over done, (js.add_stream c s).1) =
                ground (arith, config, st.reply) in
              rw same (Moved-Stored (js.add_stream c s) st)
          | inr (x, code, r) ↦
              let same : advance js true adding e s
                  ≡ (over (fail (stream_config_error (record x { code = some 500 }))), s) =
                ground (arith, config, code, r.reply, r.same) in
              rw same (Moved-fail _)
        ]
        | inr (old, there) ↦ elim (Config-discrete old c) [
          | yes equal ↦
              let there' : stream s c.name ≡ some c = there ∙ ap some equal in
              let same : advance js true adding e s ≡ (over done, s) =
                ground (arith, config, L.add_same c s there') in
              rw same (record { fine = (c, config, there'); kept = λ n ne. refl })
          | no differ ↦
              let (x, code, r) = L.add_other c old s there differ in
              let same : advance js true adding e s ≡ (updating, s) =
                ground (arith, config, code, r.reply, r.same) in
              rw same (record { fine = (c, config, old, there); kept = λ n ne. refl })
        ]
      ]

      Moved-updating :
          (old : StreamConfig)
          → stream s c.name ≡ some old
          → Moved s e (advance js true updating e s)
      unfolding advance
      Moved-updating old there = elim (L.update_old c old s there) [
        | inl st ↦
            let same : advance js true updating e s ≡ (over done, (js.update_stream c s).1) =
              ground (arith, config, st.reply) in
            rw same (Moved-Stored (js.update_stream c s) st)
        | inr (x, code, r) ↦
            let same : advance js true updating e s
                ≡ (over (fail (stream_config_error (record x { code = some 500 }))), s) =
              ground (arith, config, code, r.reply, r.same) in
            rw same (Moved-fail _)
      ]

    Moved-unnamed : (x : Exc) → stream_config e ≡ raise x → Moved s e (advance js true adding e s)
    unfolding advance
    Moved-unnamed x bad =
        let same : advance js true adding e s ≡ (over (fail (other x)), s) = ground (arith, bad) in
        rw same (Moved-fail _)

    pub Moved-advance : (ph : Phase) → Fine s e ph → Moved s e (advance js true ph e s)
    Moved-advance adding f = elim (Result-cases (stream_config e)) [
      | inl (c, config) ↦ Moved-adding c config
      | inr (x, bad) ↦ Moved-unnamed x bad
    ]
    Moved-advance updating (c, config, old, there) = Moved-updating c config old there
    Moved-advance (over r) f = unfold advance in record { fine = f; kept = λ n ne. refl }
