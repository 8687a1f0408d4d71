-- ===== src/Actors/Pulse/Signals.antt =====
-- How often the pulse tells the server that a message is in progress.
use walnats.Prelude.{
  suc, ◌≡◌, refl, count_if, Bool, true, false, ℕ, ◌+◌, ◌*◌, ◌≤◌, List, [], ◌∷◌, All, arith,
}
use walnats.Exceptions.{Result, ok, raise}
use walnats.Actors.Pulse.{Effect, slept, in_progress, pulse}

-- The moments at which the signals of a trace are sent, from the moment at which it begins and what each
-- effect takes: a sleep what it takes longer than it should, a signal what its call takes. After the last of
-- these the trace is cut.
abbrev pub signals : ℕ → List Effect → List ℕ → List ℕ
signals now [] late = []
signals now (e ∷ t) [] = []
signals now (slept d ∷ t) (x ∷ late) = signals (now + d + x) t late
signals now (in_progress ∷ t) (x ∷ late) = now ∷ signals (now + x) t late

-- The moment at which the trace ends.
abbrev pub ends_at : ℕ → List Effect → List ℕ → ℕ
ends_at now [] late = now
ends_at now (e ∷ t) [] = now
ends_at now (slept d ∷ t) (x ∷ late) = ends_at (now + d + x) t late
ends_at now (in_progress ∷ t) (x ∷ late) = ends_at (now + x) t late

-- Each moment comes no later than that time after the one before it, and so does the end.
abbrev pub Close : ℕ → ℕ → List ℕ → ℕ → Type 0
Close within last [] end = end ≤ last + within
Close within last (t ∷ ts) end = (t ≤ last + within) × Close within t ts end

abbrev pub is_signal : Effect → Bool
is_signal in_progress = true
is_signal (slept d) = false

-- The rounds that come to the end of their sleep: all up to the first sleep or call that raises.
abbrev pub slept_rounds : List (Result (Unit {0}) × Result (Unit {0})) → ℕ
slept_rounds [] = 0
slept_rounds ((raise e, r) ∷ rs) = 0
slept_rounds ((ok u, raise e) ∷ rs) = 1
slept_rounds ((ok u, ok v) ∷ rs) = suc (slept_rounds rs)

module _ (half_wait : ℕ) where
  signals-Close :
      (rs : List (Result (Unit {0}) × Result (Unit {0}))) (last now : ℕ) (late : List ℕ)
      → 2 * now ≤ 2 * last + half_wait
      → All (λ x. 2 * x ≤ half_wait) late
      → Close
          (2 * half_wait)
          last
          (signals now (pulse half_wait rs).1 late)
          (ends_at now (pulse half_wait rs).1 late)
  unfolding pulse
  signals-Close [] last now late near prompt = omega (arith, near)
  signals-Close ((raise e, r) ∷ rs) last now [] near prompt = omega (arith, near)
  signals-Close ((raise e, r) ∷ rs) last now (x ∷ late) near prompt = omega (arith, near, prompt.0)
  signals-Close ((ok u, r) ∷ rs) last now [] near prompt = cut r
    where
      cut :
          (r : Result (Unit {0}))
          → Close
              (2 * half_wait)
              last
              (signals now (pulse half_wait ((ok u, r) ∷ rs)).1 [])
              (ends_at now (pulse half_wait ((ok u, r) ∷ rs)).1 [])
      cut (ok v) = omega (arith, near)
      cut (raise e) = omega (arith, near)
  signals-Close ((ok u, raise e) ∷ rs) last now (x ∷ []) near prompt = omega (arith, near, prompt.0)
  signals-Close ((ok u, raise e) ∷ rs) last now (x ∷ y ∷ late) near prompt =
      (omega (arith, near, prompt.0), omega (arith, prompt.1.0))
  signals-Close ((ok u, ok v) ∷ rs) last now (x ∷ []) near prompt = omega (arith, near, prompt.0)
  signals-Close ((ok u, ok v) ∷ rs) last now (x ∷ y ∷ late) near prompt = (
    omega (arith, near, prompt.0),
    signals-Close rs (now + half_wait + x) (now + half_wait + x + y) late
        (omega (arith, prompt.1.0)) prompt.1.1,
  )

  signals_sent :
      (rs : List (Result (Unit {0}) × Result (Unit {0})))
      → count_if is_signal (pulse half_wait rs).1 ≡ slept_rounds rs
  unfolding pulse
  signals_sent [] = refl
  signals_sent ((raise e, r) ∷ rs) = refl
  signals_sent ((ok u, raise e) ∷ rs) = refl
  signals_sent ((ok u, ok v) ∷ rs) = omega (arith, signals_sent rs)

  -- The server hears of a message at least once in every `ack_wait` while its pulse goes on: if no sleep takes
  -- more than a quarter of `ack_wait` longer than it should, and no call more than a quarter of it, then the
  -- first signal is sent no later than `ack_wait` after the start of the pulse, every other no later than
  -- `ack_wait` after the one before it, and the pulse ends no later than `ack_wait` after the last one, or
  -- after its start if there is none. There is one signal for every sleep that returns, until a sleep or a
  -- call raises.
  pub pulse-Close :
      (rs : List (Result (Unit {0}) × Result (Unit {0}))) (now : ℕ) (late : List ℕ)
      → All (λ x. 2 * x ≤ half_wait) late
      → Close
          (2 * half_wait)
          now
          (signals now (pulse half_wait rs).1 late)
          (ends_at now (pulse half_wait rs).1 late)
        × (count_if is_signal (pulse half_wait rs).1 ≡ slept_rounds rs)
  pulse-Close rs now late prompt =
      (signals-Close rs now now late (omega arith) prompt, signals_sent rs)
