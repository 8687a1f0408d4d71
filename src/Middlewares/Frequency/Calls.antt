-- ===== src/Middlewares/Frequency/Calls.antt =====
-- One call of a hook of `FrequencyMiddleware`: when it gives an alert, and what it notes.
use walnats.Prelude.{
  ℕ, ◌+◌, ◌≡◌, ◌≢◌, refl, String, Bool, true, false, ◌&&◌, Option, none, some, List, [], arith,
  eq_iff, ltb, ◌==◌, string_eq, if◌then◌else◌,
}
use walnats.Prelude.Dict.{Dict, insert, value_at, value_at-insert, lookup-insert}
use walnats.Context.{Context, ErrorContext, OkContext}
use walnats.Actors.Handle.{Hook}
use walnats.Middlewares.Base.{Middleware, actor_key}
use walnats.Middlewares.Frequency.{Frequency, reported_at, on_start, on_failure, on_success}

reported_at-insert :
    (k j : String) (errors : List String) (d : Dict (List String))
    → reported_at j (insert k errors d) ≡ (if k == j then errors else reported_at j d)
unfolding reported_at
reported_at-insert k j errors d = ground (arith, lookup-insert k j errors d)

-- A call of a hook, with what it is given.
pub data Call (Bytes T : Type 0) : Type 0 where
  starts : Context Bytes T → Call Bytes T
  fails : ErrorContext Bytes T → Call Bytes T
  succeeds : OkContext Bytes T → Call Bytes T

abbrev pub same_hook : Hook → Hook → Bool
same_hook Hook.on_start Hook.on_start = true
same_hook Hook.on_failure Hook.on_failure = true
same_hook Hook.on_success Hook.on_success = true
same_hook _ _ = false

pub same_hook_refl : (w : Hook) → same_hook w w ≡ true
same_hook_refl Hook.on_start = refl
same_hook_refl Hook.on_failure = refl
same_hook_refl Hook.on_success = refl

pub same_hook-eq : (v w : Hook) → same_hook v w ≡ true → v ≡ w
same_hook-eq Hook.on_start Hook.on_start h = refl
same_hook-eq Hook.on_failure Hook.on_failure h = refl
same_hook-eq Hook.on_success Hook.on_success h = refl
same_hook-eq _ _ h = absurd (cc h)

module _ {Bytes T : Type 0} where
  abbrev pub hook_of : Call Bytes T → Hook
  hook_of (starts c) = Hook.on_start
  hook_of (fails c) = Hook.on_failure
  hook_of (succeeds c) = Hook.on_success

  abbrev pub key_of : Call Bytes T → String
  key_of (starts c) = actor_key c.actor
  key_of (fails c) = actor_key c.actor
  key_of (succeeds c) = actor_key c.actor

abbrev pub given : {Coro : Type 0} → Option Coro → Bool
given none = false
given (some c) = true

-- The times of the last alerts of a hook.
abbrev pub last_of : {S : Type 0} → Hook → Frequency S → Dict ℕ
last_of Hook.on_start s = s.last_trigger_start
last_of Hook.on_failure s = s.last_trigger_err
last_of Hook.on_success s = s.last_trigger_ok

module _ {Bytes T Coro : Type 0} (M : Middleware Bytes T Coro) where
  unfoldable pub call : ℕ → Call Bytes T → Frequency M.State → Frequency M.State × Option Coro
  call now (starts c) s = on_start M now c s
  call now (fails c) s = on_failure M now c s
  call now (succeeds c) s = on_success M now c s

  -- Every hook of the wrapped middleware gives a coroutine.
  pub record Answers : Type 0 where
    pub at_start : (c : Context Bytes T) (i : M.State) → (M.on_start c i).1 ≢ none
    pub at_failure : (c : ErrorContext Bytes T) (i : M.State) → (M.on_failure c i).1 ≢ none
    pub at_success : (c : OkContext Bytes T) (i : M.State) → (M.on_success c i).1 ≢ none

  abbrev pub NoneReported : Frequency M.State → Type 0
  NoneReported s = (k : String) → reported_at k s.reported_errors ≡ []

  pub call-NoneReported :
      (now : ℕ) (c : Call Bytes T) (s : Frequency M.State)
      → NoneReported s
      → NoneReported (call now c s).0
  unfolding call on_start on_failure on_success
  call-NoneReported now (starts c) s h k = ground (arith, h k)
  call-NoneReported now (succeeds c) s h k = ground (arith, h k)
  call-NoneReported now (fails c) s h k =
      let key = actor_key c.actor in
      let d = s.reported_errors in
      ground (arith, eq_iff key k, h k, h key, reported_at-insert key k (reported_at key d) d)

  pub call-timeframe :
      (now : ℕ) (c : Call Bytes T) (s : Frequency M.State)
      → (call now c s).0.timeframe ≡ s.timeframe
  unfolding call on_start on_failure on_success
  call-timeframe now (starts c) s = ground arith
  call-timeframe now (fails c) s = ground arith
  call-timeframe now (succeeds c) s = ground arith

  module _ (A : Answers) where
    -- When a call gives an alert.
    pub call_alerts :
        (now : ℕ) (c : Call Bytes T) (s : Frequency M.State)
        → NoneReported s
        → given (call now c s).1
          ≡ ltb (value_at (key_of c) (last_of (hook_of c) s) + s.timeframe) now
    unfolding call on_start on_failure on_success
    call_alerts now (starts c) s h = ground (arith, A.at_start c s.inner)
    call_alerts now (fails c) s h = ground (arith, A.at_failure c s.inner, h (actor_key c.actor))
    call_alerts now (succeeds c) s h = ground (arith, A.at_success c s.inner)

    -- What a call notes: its time, if it gives an alert, for its own hook and actor.
    pub call_notes :
        (w : Hook) (k : String) (now : ℕ) (c : Call Bytes T) (s : Frequency M.State)
        → NoneReported s
        → value_at k (last_of w (call now c s).0) ≡ (
            if given (call now c s).1 && (same_hook (hook_of c) w && (key_of c == k))
            then now
            else value_at k (last_of w s))
    unfolding call on_start on_failure on_success
    call_notes Hook.on_start k now (starts c) s h = ground (
      arith,
      A.at_start c s.inner,
      value_at-insert (actor_key c.actor) k s.last_trigger_start now,
    )
    call_notes _ k now (starts c) s h = ground arith
    call_notes Hook.on_failure k now (fails c) s h = ground (
      arith,
      A.at_failure c s.inner,
      h (actor_key c.actor),
      value_at-insert (actor_key c.actor) k s.last_trigger_err now,
    )
    call_notes _ k now (fails c) s h = ground (arith, h (actor_key c.actor))
    call_notes Hook.on_success k now (succeeds c) s h =
        ground (
          arith,
          A.at_success c s.inner,
          value_at-insert (actor_key c.actor) k s.last_trigger_ok now,
        )
    call_notes _ k now (succeeds c) s h = ground arith
