-- ===== src/Events/Sync/Specification.antt =====
-- What `BaseEvent._sync` promises, whatever its flags and whatever is on the server.
use native.Mathlib.Decide.{ℕ_discrete}
use walnats.Prelude.{
  String, Eq-discrete, ◌||◌, eq_iff, ◌≡◌, ◌≢◌, ◌∙◌, refl, ap, inl, inr, Bool, true, false, Option,
  none, some, arith, ◌==◌, string_eq, if◌then◌else◌, Option-cases,
}
use walnats.Exceptions.{Exc, ok}
use walnats.Errors.{JsExc, ApiError, other, stream_exists, stream_config as stream_config_error}
use walnats.Events.Event.{BaseEvent, StreamConfig, stream_config}
use walnats.Events.Sync.{JetStream, Reply, done, fail, sync}
use walnats.Events.Sync.Server.{IsJetStream, Stored}

String-discrete : Discrete String
String-discrete = Eq-discrete

pub Config-discrete : Discrete StreamConfig
Config-discrete = hlevel (String-discrete, ℕ_discrete)

module _ (js : JetStream) (L : IsJetStream js) where
  open L use {stream}

  -- The results that are allowed, by `create`, by `update`, and by what the server has of the stream:
  -- nothing, the same configuration, or another one. Only the stream of the configuration changes, and
  -- only if the call is done.
  pub data Allowed (c : StreamConfig) (s : js.State) (r : Reply × js.State)
      : Bool → Bool → Option StreamConfig → Type 0 where
    idle : {old : Option StreamConfig} → r ≡ (done, s) → Allowed c s r false false old
    stored : {update : Bool} → Stored js stream c s r → Allowed c s r true update none
    refused :
        {update : Bool} (x : ApiError)
        → r ≡ (fail (stream_config_error x), s)
        → Allowed c s r true update none
    kept : {update : Bool} → r ≡ (done, s) → Allowed c s r true update (some c)
    taken :
        {old : StreamConfig} (x : ApiError)
        → old ≢ c
        → r ≡ (fail (stream_exists x), s)
        → Allowed c s r true false (some old)
    changed :
        {create : Bool} {old : StreamConfig}
        → (create ≡ true → old ≢ c)
        → Stored js stream c s r
        → Allowed c s r create true (some old)
    unchangeable :
        {create : Bool} {old : StreamConfig} (x : ApiError)
        → (create ≡ true → old ≢ c)
        → r ≡ (fail (stream_config_error x), s)
        → Allowed c s r create true (some old)
    missing : (x : Exc) → r ≡ (fail (other x), s) → Allowed c s r false true none

  module _ {Schema Ser : Type 0} (e : BaseEvent Schema Ser) (c : StreamConfig)
      (config : stream_config e ≡ ok c) (s : js.State) where
    created :
        (update : Bool)
        → stream s c.name ≡ none
        → Allowed c s (sync js true update e s) true update none
    unfolding sync
    created update absent = elim (L.add_new c s absent) [
      | inl st ↦
          let same : sync js true update e s ≡ js.add_stream c s =
            ground (arith, config, st.reply) in
          stored (rw same st)
      | inr (x, code, r) ↦
          refused (record x { code = some 500 }) (ground (arith, config, code, r.reply, r.same))
    ]

    differing :
        (update : Bool) (old : StreamConfig)
        → stream s c.name ≡ some old
        → old ≢ c
        → Allowed c s (sync js true update e s) true update (some old)
    unfolding sync
    differing false old there differ =
        let (x, code, r) = L.add_other c old s there differ in
        taken (record x { code = some 400 }) differ (ground (arith, config, code, r.reply, r.same))
    differing true old there differ =
        let (x, code, r) = L.add_other c old s there differ in
        elim (L.update_old c old s there) [
          | inl st ↦
              let same : sync js true true e s ≡ js.update_stream c s =
                ground (arith, config, code, r.reply, r.same, st.reply) in
              changed (λ _. differ) (rw same st)
          | inr (y, code', r') ↦
              unchangeable (record y { code = some 500 }) (λ _. differ)
                (ground (arith, config, code, r.reply, r.same, code', r'.reply, r'.same))
        ]

    existing :
        (update : Bool) (old : StreamConfig)
        → stream s c.name ≡ some old
        → Allowed c s (sync js true update e s) true update (some old)
    unfolding sync
    existing update old there = elim (Config-discrete old c) [
      | yes same ↦
          let there' : stream s c.name ≡ some c = there ∙ ap some same in
          rw same (kept (ground (arith, config, L.add_same c s there')))
      | no differ ↦ differing update old there differ
    ]

    updated :
        (old : Option StreamConfig)
        → stream s c.name ≡ old
        → Allowed c s (sync js false true e s) false true old
    unfolding sync
    updated none absent =
        let (x, r) = L.update_new c s absent in missing x (ground (arith, config, r.reply, r.same))
    updated (some old) there = elim (L.update_old c old s there) [
      | inl st ↦
          let same : sync js false true e s ≡ js.update_stream c s =
            ground (arith, config, st.reply) in
          changed (λ h. absurd (cc h)) (rw same st)
      | inr (x, code, r) ↦
          unchangeable (record x { code = some 500 }) (λ h. absurd (cc h))
            (ground (arith, config, code, r.reply, r.same))
    ]

    -- Whatever the flags are and whatever the server has, the result of a registration is an allowed one.
    -- Without flags nothing happens. With `create`, a new stream is stored or its configuration is refused,
    -- one with the same configuration is left as it is, and one with another configuration raises
    -- `StreamExistsError`, unless `update` is set as well. With `update`, a stream that is there is stored
    -- or its configuration is refused, and one that is not there raises, unless `create` is set as well.
    -- What is not done leaves the server as before.
    pub sync-Allowed :
        (create update : Bool)
        → Allowed c s (sync js create update e s) create update (stream s c.name)
    unfolding sync
    sync-Allowed false false = idle refl
    sync-Allowed false true = updated (stream s c.name) refl
    sync-Allowed true update = elim (Option-cases (stream s c.name)) [
      | inl absent ↦ rw absent (created update absent)
      | inr (old, there) ↦ rw there (existing update old there)
    ]

  module _ (c : StreamConfig) (s : js.State) where
    pub content_of :
        (r : Reply × js.State) (create update : Bool) (old : Option StreamConfig)
        → Allowed c s r create update old
        → (create || update) ≡ true
        → stream s c.name ≡ old
        → r.0 ≡ done
        → (n : String) → stream r.1 n ≡ (if c.name == n then some c else stream s n)
    content_of r create update old (idle same) some_flag there d n = absurd (cc some_flag)
    content_of r create update old (stored st) some_flag there d n = st.content n
    content_of r create update old (refused x same) some_flag there d n = absurd (cc (same, d))
    content_of r create update old (kept same) some_flag there d n =
        ground (arith, there, same, eq_iff c.name n)
    content_of r create update old (taken x differ same) some_flag there d n = absurd (cc (same, d))
    content_of r create update old (changed differ st) some_flag there d n = st.content n
    content_of r create update old (unchangeable x differ same) some_flag there d n =
        absurd (cc (same, d))
    content_of r create update old (missing x same) some_flag there d n = absurd (cc (same, d))

    unchanged_of :
        (r : Reply × js.State) {create update : Bool} {old : Option StreamConfig} {x : JsExc}
        → Allowed c s r create update old
        → r.0 ≡ fail x
        → r.1 ≡ s
    unchanged_of r (idle same) f = cc same
    unchanged_of r (stored st) f = cc (st.reply, f)
    unchanged_of r (refused x same) f = cc same
    unchanged_of r (kept same) f = cc same
    unchanged_of r (taken x differ same) f = cc same
    unchanged_of r (changed differ st) f = cc (st.reply, f)
    unchanged_of r (unchangeable x differ same) f = cc same
    unchanged_of r (missing x same) f = cc same

  module _ {Schema Ser : Type 0} (e : BaseEvent Schema Ser) (c : StreamConfig)
      (config : stream_config e ≡ ok c) (s : js.State) where
    -- If the registration of a stream raises, whatever its flags are, then the server is as before.
    sync_atomic :
        (create update : Bool) {x : JsExc}
        → (sync js create update e s).0 ≡ fail x
        → (sync js create update e s).1 ≡ s
    sync_atomic create update f = unchanged_of c s _ (sync-Allowed e c config s create update) f
