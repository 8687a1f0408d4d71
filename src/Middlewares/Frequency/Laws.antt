-- ===== src/Middlewares/Frequency/Laws.antt =====
-- How often `FrequencyMiddleware` calls the middleware that it wraps, over any calls of its hooks.
use walnats.Prelude.{
  ℕ, ◌+◌, ◌<◌, ◌≡◌, refl, ◌∙◌, String, true, ◌&&◌, List, [], ◌∷◌, arith, eq_iff, ltb, ◌==◌,
  string_eq, if◌then◌else◌, inl, inr, Bool-cases, subst,
}
use walnats.Prelude.Dict.{lookup, value_at}
use walnats.Actors.Handle.{Hook}
use walnats.Middlewares.Base.{Middleware}
use walnats.Middlewares.Frequency.{Frequency, reported_at}
use walnats.Middlewares.Frequency.Calls.{
  Call, same_hook, same_hook_refl, same_hook-eq, hook_of, key_of, given, last_of, call, Answers,
  call-NoneReported, call-timeframe, call_alerts, call_notes,
}

abbrev pub fresh : {S : Type 0} → S → ℕ → Frequency S
fresh s timeframe = record {
  inner = s;
  timeframe = timeframe;
  last_trigger_start = [];
  last_trigger_ok = [];
  last_trigger_err = [];
  reported_errors = [];
}

abbrev pub head_or : ℕ → List ℕ → ℕ
head_or d [] = d
head_or d (t ∷ ts) = t

-- Each time is more than the timeframe after the one before it. The newest stands first.
abbrev pub Spaced : ℕ → List ℕ → Type 0
Spaced frame [] = Unit
Spaced frame (t ∷ ts) = (head_or 0 ts + frame < t) × Spaced frame ts

module _ {Bytes T Coro : Type 0} (M : Middleware Bytes T Coro) (s : M.State) (frame : ℕ) where
  -- The object after calls of its hooks, the newest first.
  abbrev pub after : List (ℕ × Call Bytes T) → Frequency M.State
  after [] = fresh s frame
  after ((now, c) ∷ h) = (call M now c (after h)).0

  -- The times at which a call of a hook for an actor gave a coroutine.
  abbrev pub alerts : Hook → String → List (ℕ × Call Bytes T) → List ℕ
  alerts w k [] = []
  alerts w k ((now, c) ∷ h) =
      if given (call M now c (after h)).1 && (same_hook (hook_of c) w && (key_of c == k))
      then now ∷ alerts w k h
      else alerts w k h

  timeframe-after : (h : List (ℕ × Call Bytes T)) → (after h).timeframe ≡ frame
  timeframe-after [] = refl
  timeframe-after ((now, c) ∷ h) = call-timeframe M now c (after h) ∙ timeframe-after h

  -- Whatever is handled, the set of reported errors of every actor stays empty.
  pub reported-empty :
      (k : String) (h : List (ℕ × Call Bytes T)) → reported_at k (after h).reported_errors ≡ []
  reported-empty k [] = unfold reported_at lookup in refl
  reported-empty k ((now, c) ∷ h) = call-NoneReported M now c (after h) (λ j. reported-empty j h) k

  module _ (A : Answers M) where
    last-eq-head :
        (w : Hook) (k : String) (h : List (ℕ × Call Bytes T))
        → value_at k (last_of w (after h)) ≡ head_or 0 (alerts w k h)
    last-eq-head Hook.on_start k [] = unfold value_at lookup in refl
    last-eq-head Hook.on_failure k [] = unfold value_at lookup in refl
    last-eq-head Hook.on_success k [] = unfold value_at lookup in refl
    last-eq-head w k ((now, c) ∷ h) =
        ground
          (arith, call_notes M A w k now c (after h) (λ j. reported-empty j h), last-eq-head w k h)

    -- If the wrapped hooks always give a coroutine: a call of a hook gives one exactly if more than the
    -- timeframe has passed since the last one of this hook for this actor, whatever other hooks and other
    -- actors gave meanwhile, and for a failure whether or not the class of its error was reported before.
    pub alerts_exact :
        (h : List (ℕ × Call Bytes T)) (now : ℕ) (c : Call Bytes T)
        → let alerted = alerts (hook_of c) (key_of c) h in
          alerts (hook_of c) (key_of c) ((now, c) ∷ h)
          ≡ (if ltb (head_or 0 alerted + frame) now then now ∷ alerted else alerted)
    alerts_exact h now c = ground (
      arith,
      same_hook_refl (hook_of c),
      eq_iff (key_of c) (key_of c),
      timeframe-after h,
      last-eq-head (hook_of c) (key_of c) h,
      call_alerts M A now c (after h) (λ j. reported-empty j h),
    )

    later :
        (h : List (ℕ × Call Bytes T)) (now : ℕ) (c : Call Bytes T)
        → given (call M now c (after h)).1 ≡ true
        → head_or 0 (alerts (hook_of c) (key_of c) h) + frame < now
    later h now c alert = ground (
      arith,
      timeframe-after h,
      last-eq-head (hook_of c) (key_of c) h,
      call_alerts M A now c (after h) (λ j. reported-empty j h),
    )

    -- If the wrapped hooks always give a coroutine, the alerts of a hook for an actor are more than the
    -- timeframe apart, and the first comes after one timeframe, whatever calls of all hooks are made.
    pub alerts-Spaced :
        (w : Hook) (k : String) (h : List (ℕ × Call Bytes T)) → Spaced frame (alerts w k h)
    alerts-Spaced w k [] = tt
    alerts-Spaced w k ((now, c) ∷ h) =
        let gives = given (call M now c (after h)).1 in
        elim (Bool-cases (gives && (same_hook (hook_of c) w && (key_of c == k)))) [
          | inr other ↦ rw other (alerts-Spaced w k h)
          | inl alert ↦
              let hook = same_hook-eq (hook_of c) w (ground (arith, alert)) in
              let key = (eq_iff (key_of c) k).0 (ground (arith, alert)) in
              let late = later h now c (ground (arith, alert)) in
              rw alert (
                subst (λ v. head_or 0 (alerts v k h) + frame < now) hook
                    (subst (λ i. head_or 0 (alerts (hook_of c) i h) + frame < now) key late),
                alerts-Spaced w k h,
              )
        ]
