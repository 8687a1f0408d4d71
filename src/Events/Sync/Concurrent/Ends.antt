-- ===== src/Events/Sync/Concurrent/Ends.antt =====
-- When the tasks of `register` have ended.
use walnats.Prelude.{
  ℕ, zero, suc, ◌≡◌, ◌≤◌, ◌-◌, refl, inl, inr, Bool, true, false, List, [], ◌∷◌, arith, count_if,
  nat_eq, ◌==◌, Bool-cases,
}
use walnats.Events.Event.{BaseEvent}
use walnats.Errors.{Flow, returned, passed, raised}
use walnats.Events.Sync.{JetStream, Reply, done}
use walnats.Events.Sync.Concurrent.{
  Phase, adding, updating, over, Task, update_phase, added, advance, step_at, interleave,
}

-- How many steps a task may still need.
abbrev left : Phase → ℕ
left adding = 2
left updating = 1
left (over r) = 0

-- The phase of the task at a position. A task that is not there has none left.
abbrev pub phase_at : {Schema Ser : Type 0} → ℕ → List (Task Schema Ser) → Phase
phase_at i [] = over done
phase_at zero (k ∷ ks) = k.phase
phase_at (suc i) (k ∷ ks) = phase_at i ks

left-update_phase : (update : Bool) → left (update_phase update) ≤ 1
left-update_phase true = omega arith
left-update_phase false = omega arith

left-added : (update : Bool) (f : Flow) → left (added update f) ≤ 1
left-added update returned = omega arith
left-added update passed = left-update_phase update
left-added update (raised e) = omega arith

left_bound : (ph : Phase) → left ph ≤ 2
left_bound adding = omega arith
left_bound updating = omega arith
left_bound (over r) = omega arith

over_of_left : (ph : Phase) → left ph ≡ 0 → (r : Reply) × (ph ≡ over r)
over_of_left adding h = absurd (omega arith)
over_of_left updating h = absurd (omega arith)
over_of_left (over r) h = (r, refl)

module _ {Schema Ser : Type 0} (js : JetStream) (update : Bool) where
  left-advance :
      (ph : Phase) (e : BaseEvent Schema Ser) (s : js.State)
      → left (advance js update ph e s).0 ≤ left ph - 1
  unfolding advance
  left-advance adding e s = left-added update _
  left-advance updating e s = omega arith
  left-advance (over r) e s = omega arith

  -- A step takes one from what its own task needs, and leaves the phases of the others.
  left-step_at :
      (i j : ℕ) (ks : List (Task Schema Ser)) (s : js.State)
      → left (phase_at i (step_at js update j ks s).0)
        ≤ left (phase_at i ks) - (elim (j == i) [ true ↦ 1 | false ↦ 0 ])
  unfolding step_at
  left-step_at i j [] s = omega arith
  left-step_at zero zero (k ∷ ks) s = left-advance k.phase k.event s
  left-step_at zero (suc j) (k ∷ ks) s = ground arith
  left-step_at (suc i) zero (k ∷ ks) s = ground arith
  left-step_at (suc i) (suc j) (k ∷ ks) s = elim (Bool-cases (j == i)) [
    | inl same ↦ ground (arith, left-step_at i j ks s)
    | inr other ↦ ground (arith, left-step_at i j ks s)
  ]

  left-interleave :
      (order : List ℕ) (i : ℕ) (ks : List (Task Schema Ser)) (s : js.State)
      → left (phase_at i (interleave js update order ks s).0)
        ≤ left (phase_at i ks) - count_if (λ j. j == i) order
  unfolding interleave
  left-interleave [] i ks s = omega arith
  left-interleave (j ∷ order) i ks s =
      let r = step_at js update j ks s in
      omega (arith, left-step_at i j ks s, left-interleave order i r.0 r.1)

  -- A task of `register` has ended once it has gone on twice, whatever the others did meanwhile.
  pub interleaved_ends :
      (order : List ℕ) (i : ℕ) (ks : List (Task Schema Ser)) (s : js.State)
      → 2 ≤ count_if (λ j. j == i) order
      → (r : Reply) × (phase_at i (interleave js update order ks s).0 ≡ over r)
  interleaved_ends order i ks s twice =
      over_of_left _ (omega (arith, left-interleave order i ks s, left_bound (phase_at i ks)))
