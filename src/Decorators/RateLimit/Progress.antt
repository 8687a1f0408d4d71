-- ===== src/Decorators/RateLimit/Progress.antt =====
-- How long a handler waits for its start.
use walnats.Prelude.{
  ℕ, subst, ◌+◌, ◌-◌, ◌<◌, ◌≤◌, ◌≡◌, refl, List, [], ◌∷◌, ◌++◌, All, arith, length,
}
use walnats.Decorators.RateLimit.{
  RateLimit, State, Step, passes, starts_handler, wakes, Reach, first, next,
}
use walnats.Decorators.RateLimit.Window.{Reach-Inv, release_raises_never}

-- No task of `_release` sleeps for longer than a period from now on.
abbrev Soon : RateLimit → State → Type 0
Soon r s = All (λ until. until ≤ s.now + r.period) s.sleeping

All-drop :
    (P : ℕ → Type 0) (front back : List ℕ) (x : ℕ)
    → All P (front ++ (x ∷ back))
    → All P (front ++ back)
All-drop P [] back x a = a.1
All-drop P (y ∷ front) back x a = (a.0, All-drop P front back x a.1)

Soon-later :
    (r : RateLimit) (now later : ℕ) (xs : List ℕ)
    → now ≤ later
    → All (λ u. u ≤ now + r.period) xs
    → All (λ u. u ≤ later + r.period) xs
Soon-later r now later [] h a = tt
Soon-later r now later (x ∷ xs) h a = (omega (arith, a.0), Soon-later r now later xs h a.1)

module _ {r : RateLimit} where
  Soon-Step : {s t : State} → Soon r s → Step r s t → Soon r t
  Soon-Step {s} a (passes later h e) = rw e (Soon-later r s.now later s.sleeping h a)
  Soon-Step {s} a (starts_handler free e) = rw e (omega arith, a)
  Soon-Step {s} a (wakes front back until value at over done e) =
      rw e (All-drop (λ u. u ≤ s.now + r.period) front back until (rw at at a))

  Reach-Soon : {s : State} → Reach r s → Soon r s
  Reach-Soon (first t) = tt
  Reach-Soon (next h st) = Soon-Step (Reach-Soon h) st

-- States that steps lead to.
pub data Leads (r : RateLimit) (s : State) : State → Type 0 where
  stays : Leads r s s
  goes : {t u : State} → Leads r s t → Step r t u → Leads r s u

-- Steps lead to a state in which one more handler has started, at this moment.
abbrev pub StartsAt : RateLimit → State → ℕ → Type 0
StartsAt r s moment = (t : State) × Leads r s t × (t.starts ≡ moment ∷ s.starts)

module _ {r : RateLimit} {s : State} (reach : Reach r s) where
  after_waking :
      (until : ℕ) (rest : List ℕ)
      → s.sleeping ≡ until ∷ rest
      → StartsAt r s (s.now + (until - s.now))
  after_waking until rest asleep =
      let later : State = record s { now = s.now + (until - s.now) } in
      let wait : Step r s later = passes later.now (omega arith) refl in
      let released = release_raises_never (next reach wait) [] rest until asleep in
      let woken : State = record later { value = s.value + 1; sleeping = rest } in
      let wake : Step r later woken =
        wakes [] rest until (s.value + 1) asleep (omega arith) released refl in
      (_, goes (goes (goes stays wait) wake) (starts_handler (omega arith) refl), refl)

  next_of :
      (sleeping : List ℕ)
      → s.sleeping ≡ sleeping
      → 0 < s.value + length s.sleeping
      → (moment : ℕ) × (moment ≤ s.now + r.period) × StartsAt r s moment
  next_of [] none_asleep some_left =
      (s.now, omega arith, (_, goes stays (starts_handler (ground arith) refl), refl))
  next_of (until ∷ rest) asleep some_left =
      let soon : All (λ u. u ≤ s.now + r.period) (until ∷ rest) =
        subst (All (λ u. u ≤ s.now + r.period)) asleep (Reach-Soon reach) in
      (s.now + (until - s.now), omega (arith, soon.0), after_waking until rest asleep)

  -- From every state that is reached, whatever happened before, there are steps by which one more handler
  -- starts, no later than one period from now.
  pub starts_again :
      0 < r.max_jobs → (moment : ℕ) × (moment ≤ s.now + r.period) × StartsAt r s moment
  starts_again some_jobs = next_of s.sleeping refl (omega (arith, (Reach-Inv reach).permits))
