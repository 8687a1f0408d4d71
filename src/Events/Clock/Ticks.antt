-- ===== src/Events/Clock/Ticks.antt =====
-- When a clock ticks, and what the IDs of its messages tell apart.
use walnats.Prelude.{
  ℕ, String, ◌+◌, ◌*◌, ◌/◌, ◌%◌, ◌≤◌, ◌<◌, ◌≡◌, ap, refl, sym, subst, arith, List, [], ◌∷◌, ◌++◌,
  Option, none, some, collect, map, Bool, true, false,
}
use native.Mathlib.Nat.{mod-lt, div-add-mod', add-mul-mod_self_right, le-div_iff_mul-le}
use walnats.Events.Clock.{
  Clock, Tick, emitted, cancelled, Round, run, rounds_of, tick, wait_delay, emit_uid,
}

module _ (period now : ℕ) (positive : 0 < period) where
  -- A wait ends one millisecond after the next multiple of the period, and takes no longer than the
  -- period and a millisecond.
  pub wait_until :
      (now + wait_delay period now ≡ (now / period + 1) * period + 1)
      × (wait_delay period now ≤ period + 1)
      × (1 < wait_delay period now)
  unfolding wait_delay
  wait_until =
      let below = mod-lt now positive in
      (omega (arith, div-add-mod' now period, below), omega arith, omega (arith, below))

-- The rounds of one clock: no wait is shorter than its delay, and each begins when the one before it is
-- over, or later.
abbrev pub Rounds : ℕ → ℕ → List Round → Type 0
Rounds period start [] = Unit
Rounds period start ((began, woke) ∷ rs) =
    (start ≤ began) × (began + wait_delay period began ≤ woke) × Rounds period woke rs

-- Each number is greater than the one before it.
abbrev pub Increases : ℕ → List ℕ → Type 0
Increases below [] = Unit
Increases below (n ∷ ns) = (below < n) × Increases n ns

-- The moments at which messages are emitted.
abbrev moment_of : Tick → Option ℕ
moment_of (emitted now uid meta) = some now
moment_of _ = none

abbrev pub moments : List Tick → List ℕ
moments t = collect moment_of t

module _ (str_float : ℕ → String) (c : Clock) (positive : 0 < c.period) where
  next_period :
      (began woke : ℕ)
      → began + wait_delay c.period began ≤ woke
      → began / c.period < woke / c.period
  next_period began woke h =
      (le-div_iff_mul-le positive).1 (omega (arith, wait_until c.period began positive))

  same_or_later : (s t : ℕ) → s ≤ t → s / c.period ≤ t / c.period
  same_or_later s t h = (le-div_iff_mul-le positive).1 (omega (arith, div-add-mod' s c.period))

  -- The periods in which the waits of the rounds are over.
  abbrev periods : List Round → List ℕ
  periods rs = map (λ r. r.1 / c.period) rs

  periods-Increases :
      (below start : ℕ) (rs : List Round)
      → below ≤ start / c.period
      → Rounds c.period start rs
      → Increases below (periods rs)
  periods-Increases below start [] h waits = tt
  periods-Increases below start ((began, woke) ∷ rs) h (later, long, waits) = (
    omega (arith, same_or_later start began later, next_period began woke long),
    periods-Increases (woke / c.period) woke rs (omega arith) waits,
  )

  emitting : List Tick → List ℕ
  emitting t = map (λ now. now / c.period) (moments t)

  emitting-rounds_of :
      (rs : List Round) → emitting (rounds_of str_float c rs ++ (cancelled ∷ [])) ≡ periods rs
  unfolding rounds_of tick emitting
  emitting-rounds_of [] = refl
  emitting-rounds_of (r ∷ rs) = ap (λ l. r.1 / c.period ∷ l) (emitting-rounds_of rs)

  -- A clock emits at most one message in a period: if the loop waits at least as long as it asks for, the
  -- first message is in a later period than the one in which the clock was started, and every other is in a
  -- later period than the message before it.
  pub run-Increases :
      (burst : Bool) (start : ℕ) (r : Round) (rs : List Round)
      → Rounds c.period start (r ∷ rs)
      → Increases
          (start / c.period)
          (map (λ t. t / c.period) (moments (run str_float c burst r rs)))
  unfolding run tick emitting
  run-Increases true start r rs (later, long, waits) =
      (omega (arith, same_or_later start r.0 later, next_period r.0 r.1 long), tt)
  run-Increases false start r rs waits =
      subst (Increases (start / c.period)) (sym (emitting-rounds_of (r ∷ rs)))
        (periods-Increases (start / c.period) start (r ∷ rs) (omega arith) waits)

module _ (str_float : ℕ → String) (distinct : (a b : ℕ) → str_float a ≡ str_float b → a ≡ b)
    (period : ℕ) where
  -- Two messages of the same period have the same ID only if they are emitted at the same moment.
  pub same_period_uid :
      (s t : ℕ)
      → s / period ≡ t / period
      → emit_uid str_float period s ≡ emit_uid str_float period t
      → s ≡ t
  unfolding emit_uid
  same_period_uid s t same e = omega (
    arith,
    distinct (s % period) (t % period) e,
    div-add-mod' s period,
    div-add-mod' t period,
    ap (λ (q : ℕ). q * period) same,
  )

-- Messages that are emitted a whole number of periods apart have the same ID.
pub later_period_uid :
    (str_float : ℕ → String) (period t k : ℕ)
    → emit_uid str_float period (t + k * period) ≡ emit_uid str_float period t
unfolding emit_uid
later_period_uid str_float period t k = ap str_float (add-mul-mod_self_right t k period)
