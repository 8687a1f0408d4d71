-- ===== src/Middlewares/Threshold/Laws.antt =====
-- The counters of `ErrorThresholdMiddleware` against the history of its calls.
use walnats.Prelude.{
  ℕ, suc, ◌+◌, ◌≤◌, ◌<◌, ◌≡◌, ◌⊎◌, refl, String, ◌||◌, none, some, List, [], ◌∷◌, arith, eq_iff,
  ◌==◌, string_eq, if◌then◌else◌, ltb,
}
use walnats.Prelude.Dict.{Dict, lookup, lookup-insert, value_at, value_at-erase, value_at-insert}
use walnats.Context.{ErrorContext, OkContext, attempts}
use walnats.Middlewares.Base.{Middleware, actor_key}
use walnats.Middlewares.Threshold.{ErrorThreshold, setdefault, on_success, on_failure}

-- A call of a hook, and a history of calls with the newest first.
pub data Call (Bytes T : Type 0) : Type 0 where
  succeeded : OkContext Bytes T → Call Bytes T
  failed : ErrorContext Bytes T → Call Bytes T

module _ {Bytes T : Type 0} where
  -- Failures since the last success of any actor.
  abbrev pub total_since : List (Call Bytes T) → ℕ
  total_since [] = 0
  total_since (succeeded c ∷ h) = 0
  total_since (failed c ∷ h) = suc (total_since h)

  -- Failures of an actor since its own last success.
  abbrev pub actor_since : String → List (Call Bytes T) → ℕ
  actor_since k [] = 0
  actor_since k (succeeded c ∷ h) = if actor_key c.actor == k then 0 else actor_since k h
  actor_since k (failed c ∷ h) =
      if actor_key c.actor == k then suc (actor_since k h) else actor_since k h

-- A middleware that has just been made.
abbrev pub fresh : {S : Type 0} → S → ℕ → ℕ → ℕ → ErrorThreshold S
fresh s total actor message = record {
  inner = s;
  total_failures = total;
  actor_failures = actor;
  message_failures = message;
  overall = 0;
  per_actor = [];
}

value_at-setdefault : (k j : String) (d : Dict ℕ) → value_at j (setdefault k d) ≡ value_at j d
unfolding value_at setdefault
value_at-setdefault k j d = ground (arith, lookup-insert k j 0 d, eq_iff k j)

module _ {Bytes T Coro : Type 0} (M : Middleware Bytes T Coro) where
  abbrev State : Type 0
  State = ErrorThreshold M.State

  -- The object after a history of calls.
  abbrev pub run : State → List (Call Bytes T) → State
  run s [] = s
  run s (succeeded c ∷ h) = (on_success M c (run s h)).0
  run s (failed c ∷ h) = (on_failure M c (run s h)).0

  module _ (s : M.State) (total actor message : ℕ) where
    abbrev after : List (Call Bytes T) → State
    after h = run (fresh s total actor message) h

    limits_kept :
        (h : List (Call Bytes T))
        → ((after h).total_failures ≡ total)
          × ((after h).actor_failures ≡ actor)
          × ((after h).message_failures ≡ message)
    unfolding on_failure on_success
    limits_kept [] = (refl, refl, refl)
    limits_kept (succeeded c ∷ h) = limits_kept h
    limits_kept (failed c ∷ h) = ground (arith, limits_kept h)

    overall-le : (h : List (Call Bytes T)) → (after h).overall ≤ total_since h
    unfolding on_failure on_success
    overall-le [] = omega arith
    overall-le (succeeded c ∷ h) = omega arith
    overall-le (failed c ∷ h) = ground (arith, overall-le h)

    per_actor-le :
        (k : String) (h : List (Call Bytes T)) → value_at k (after h).per_actor ≤ actor_since k h
    unfolding on_failure on_success
    per_actor-le k [] = unfold value_at lookup in omega arith
    per_actor-le k (succeeded c ∷ h) =
        let key = actor_key c.actor in
        ground (arith, per_actor-le k h, value_at-erase key k (after h).per_actor)
    per_actor-le k (failed c ∷ h) =
        let key = actor_key c.actor in
        let d = (after h).per_actor in
        ground (
          arith,
          per_actor-le k h,
          eq_iff key k,
          value_at-insert key k (setdefault key d) (value_at key (setdefault key d) + 1),
          value_at-setdefault key k d,
        )

    -- The wrapped hook gives a coroutine only if a limit was passed: by the failures since the last
    -- success, by those of the actor since its own last success, or by the attempts.
    pub alert_sound :
        (h : List (Call Bytes T)) (c : ErrorContext Bytes T) {coro : Coro}
        → (on_failure M c (after h)).1 ≡ some coro
        → (total < total_since h)
          ⊎ (actor < actor_since (actor_key c.actor) h)
          ⊎ (message < attempts c.msg)
    unfolding on_failure
    alert_sound h c e =
        let key = actor_key c.actor in
        ground (
          arith,
          limits_kept h,
          overall-le h,
          per_actor-le key h,
          value_at-setdefault key key (after h).per_actor,
        )

    -- No failure in the history came after a limit had been passed.
    abbrev pub Quiet : List (Call Bytes T) → Type 0
    Quiet [] = Unit
    Quiet (succeeded c ∷ h) = Quiet h
    Quiet (failed c ∷ h) =
        (total_since h ≤ total)
        × (actor_since (actor_key c.actor) h ≤ actor)
        × (attempts c.msg ≤ message)
        × Quiet h

    Quiet-counts :
        (h : List (Call Bytes T))
        → Quiet h
        → ((after h).overall ≡ total_since h)
          × ((k : String) → value_at k (after h).per_actor ≡ actor_since k h)
    unfolding on_failure on_success
    Quiet-counts [] q = (refl, λ k. unfold value_at lookup in refl)
    Quiet-counts (succeeded c ∷ h) q = (
      refl,
      λ k.
          ground (
            arith,
            (Quiet-counts h q).1 k,
            value_at-erase (actor_key c.actor) k (after h).per_actor,
          ),
    )
    Quiet-counts (failed c ∷ h) q =
        let key = actor_key c.actor in
        let d = (after h).per_actor in
        let ih = Quiet-counts h q.3 in
        (
          ground (arith, limits_kept h, ih.0, ih.1 key, value_at-setdefault key key d),
          λ k. ground (
            arith,
            limits_kept h,
            ih.0,
            ih.1 k,
            ih.1 key,
            eq_iff key k,
            value_at-insert key k (setdefault key d) (value_at key (setdefault key d) + 1),
            value_at-setdefault key k d,
            value_at-setdefault key key d,
          ),
        )

    -- While no limit was passed before, the next failure reaches the wrapped hook exactly if one is
    -- passed now, and the answer is then the hook's.
    pub alert_exact :
        (h : List (Call Bytes T)) (c : ErrorContext Bytes T)
        → Quiet h
        → (on_failure M c (after h)).1 ≡ (
            if ltb total (total_since h)
              || ltb actor (actor_since (actor_key c.actor) h)
              || ltb message (attempts c.msg)
            then (M.on_failure c (after h).inner).1
            else none)
    unfolding on_failure
    alert_exact h c q =
        let key = actor_key c.actor in
        let ih = Quiet-counts h q in
        ground
          (arith, limits_kept h, ih.0, ih.1 key, value_at-setdefault key key (after h).per_actor)
