-- ===== src/Actors/Jobs/Ends.antt =====
-- Every run of the jobs comes to an end, with all permits back.
use walnats.Prelude.{
  ℕ, zero, suc, ◌≡◌, ◌≢◌, ◌<◌, ◌+◌, ◌⊎◌, refl, inl, inr, false, List, [], ◌∷◌, All, count_if, arith,
}
use walnats.Actors.Handle.Semaphores.{Held, neither, actor_only, both}
use walnats.Actors.Jobs.{Task, Loop, Run, Reach, runs, next}
use walnats.Actors.Jobs.Permits.{
  Inv, IsSafe, has_actor_sem, has_global_sem, Reach-Inv, holds_whole, holds_actor,
}
use walnats.Actors.Jobs.Progress.{
  held_at_end, work, work-Run, unfinished, no_work, unfinished-work, moves,
}

zero_or_more : (n : ℕ) → (n ≡ 0) ⊎ (n ≢ 0)
zero_or_more zero = inl refl
zero_or_more (suc n) = inr (λ e. omega arith)

no_global : (h : Held) → has_actor_sem h ≡ false → has_global_sem h ≡ false
no_global neither e = refl
no_global actor_only e = refl
no_global both e = cc e

module _ {Bytes : Type 0} where
  -- Tasks at their end hold nothing.
  none_held :
      (ts : List (Task Bytes))
      → All IsSafe ts
      → All (λ k. k.rest ≡ []) ts
      → (count_if holds_whole ts ≡ 0) × ((a : ℕ) → count_if (holds_actor a) ts ≡ 0)
  none_held [] safe over = (refl, λ a. refl)
  none_held (k ∷ ks) safe over =
      let unheld = held_at_end Bytes k.held (rw over.0 at safe.0) in
      let (whole, actors) = none_held ks safe.1 over.1 in
      (ground (arith, no_global k.held unheld), λ a. ground (arith, actors a))

-- A run of so many steps of tasks, with no message arriving.
pub data Runs {Bytes : Type 0} (s : Loop Bytes) : ℕ → Loop Bytes → Type 0 where
  none_yet : Runs s 0 s
  then_run : {n : ℕ} {t u : Loop Bytes} → Runs s n t → Run t u → Runs s (suc n) u

module _ {Bytes : Type 0} {max_jobs : ℕ → ℕ} {max_all : ℕ} {s : Loop Bytes}
    (reach : Reach max_jobs max_all s) (some_jobs : (a : ℕ) → 0 < max_jobs a)
    (some_all : 0 < max_all) where
  all_finished :
      (t : Loop Bytes)
      → Inv max_jobs max_all t
      → ((u : Loop Bytes) → ¬ Run t u)
      → count_if unfinished t.tasks ≡ 0
  all_finished t inv stuck = elim (zero_or_more (count_if unfinished t.tasks)) [
    | inl over ↦ over
    | inr more ↦ let (u, r) = moves inv some_jobs some_all more in absurd (stuck u r)
  ]

  -- If the semaphores have permits at all, the jobs never wait for one another in a circle: while
  -- anything is left to do, some task goes on.
  pub no_deadlock : 0 < work s.tasks → (t : Loop Bytes) × Run s t
  no_deadlock more =
      moves (Reach-Inv reach) some_jobs some_all (λ e. omega (arith, unfinished-work s.tasks e))

  Runs-work : {n : ℕ} {t : Loop Bytes} → Runs s n t → n + work t.tasks ≡ work s.tasks
  Runs-work none_yet = omega arith
  Runs-work (then_run r st) = omega (arith, Runs-work r, work-Run st)

  Runs-Reach : {n : ℕ} {t : Loop Bytes} → Runs s n t → Reach max_jobs max_all t
  Runs-Reach none_yet = reach
  Runs-Reach (then_run r st) = next (Runs-Reach r) (runs st)

  -- A run that can go no further has done all that there was to do, one effect at a step: every task is
  -- at its end, and every semaphore has its permits again.
  pub jobs_end :
      {n : ℕ} {t : Loop Bytes}
      → Runs s n t
      → ((u : Loop Bytes) → ¬ Run t u)
      → (n ≡ work s.tasks)
        × All (λ k. k.rest ≡ []) t.tasks
        × (t.sems.whole ≡ max_all)
        × ((a : ℕ) → t.sems.actors a ≡ max_jobs a)
  jobs_end {n} {t} r stuck =
      let inv = Reach-Inv (Runs-Reach r) in
      let finished = all_finished t inv stuck in
      let over = no_work t.tasks finished in
      let (whole, actors) = none_held t.tasks inv.safe over in
      (
        omega (arith, Runs-work r, unfinished-work t.tasks finished),
        over,
        omega (arith, inv.whole, whole),
        λ a. omega (arith, inv.actors a, actors a),
      )
