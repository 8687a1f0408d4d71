-- ===== src/Actors/Jobs.antt =====
-- Jobs of all actors on one event loop (walnats/_actors): each is a run of `_handle_message`, started by
-- `tasks.start` in `_pull_and_handle`, and they share `actor_sem` of their actor (`_listen`) and
-- `global_sem` (`ConnectedActors.listen`). A task goes on until it awaits, so the order in which effects
-- of different jobs happen is left open. An `acquire` goes on only while the semaphore's value is not 0.
pub mod Permits
pub mod Progress
pub mod Ends
use walnats.Prelude.{
  ℕ, zero, suc, ◌≡◌, ◌-◌, ◌+◌, Bool, true, false, Option, none, some, List, [], ◌∷◌, nat_eq, ◌==◌,
  if◌then◌else◌,
}
use walnats.Actors.Priority.{actor_sem, global_sem, acquired, released}
use walnats.Actors.Handle.{Effect, Job, sem, decoded, called, handle_message}
use walnats.Actors.Handle.Semaphores.{Held, neither, step}

-- A job: the number of its actor, what it holds, and what it has still to do.
pub record Task (Bytes : Type 0) : Type 0 where
  pub actor : ℕ
  pub held : Held
  pub rest : List (Effect Bytes)

-- The values of the semaphores.
pub record Sems : Type 0 where
  pub actors : ℕ → ℕ
  pub whole : ℕ

abbrev pub update : (ℕ → ℕ) → ℕ → ℕ → ℕ → ℕ
update f a v b = if a == b then v else f b

-- `value -= 1`, unless the task has to wait.
abbrev pub take_one : ℕ → Option ℕ
take_one zero = none
take_one (suc n) = some n

abbrev pub with_actor : ℕ → Sems → Option ℕ → Option Sems
with_actor a s none = none
with_actor a s (some v) = some (record s { actors = update s.actors a v })

abbrev pub with_whole : Sems → Option ℕ → Option Sems
with_whole s none = none
with_whole s (some v) = some (record s { whole = v })

module _ {Bytes : Type 0} where
  -- The effect of a task of an actor on the semaphores; `none` if it has to wait.
  abbrev pub perform_on : ℕ → Effect Bytes → Sems → Option Sems
  perform_on a (sem (acquired actor_sem)) s = with_actor a s (take_one (s.actors a))
  perform_on a (sem (acquired global_sem)) s = with_whole s (take_one s.whole)
  perform_on a (sem (released actor_sem)) s = with_actor a s (some (s.actors a + 1))
  perform_on a (sem (released global_sem)) s = with_whole s (some (s.whole + 1))
  perform_on a _ s = some s

  abbrev pub held_after : Held → Effect Bytes → Held
  held_after h e = elim (step (some h) e) [ some h' ↦ h' | none ↦ h ]

  -- The task that `_handle_message` of an actor runs as.
  unfoldable pub new_task : {T R : Type 0} → ℕ → Job Bytes T R → Task Bytes
  new_task a j = record { actor = a; held = neither; rest = (handle_message j).1 }

pub record Loop (Bytes : Type 0) : Type 0 where
  pub tasks : List (Task Bytes)
  pub sems : Sems

-- `xs` with one `x` replaced by `y` is `ys`.
pub data Replace {A : Type 0} : List A → A → A → List A → Type 0 where
  here : {x y : A} {xs : List A} → Replace (x ∷ xs) x y (y ∷ xs)
  there : {x y z : A} {xs ys : List A} → Replace xs x y ys → Replace (z ∷ xs) x y (z ∷ ys)

-- A task of the loop does its next effect.
pub data Run {Bytes : Type 0} (s : Loop Bytes) (t : Loop Bytes) : Type 0 where
  run :
      (k : Task Bytes) (e : Effect Bytes) (es : List (Effect Bytes))
      → k.rest ≡ e ∷ es
      → perform_on k.actor e s.sems ≡ some t.sems
      → Replace s.tasks k (record k { held = held_after k.held e; rest = es }) t.tasks
      → Run s t

-- A message of any actor arrives and is started, or a task runs.
pub data Step {Bytes : Type 0} (s : Loop Bytes) (t : Loop Bytes) : Type 1 where
  arrives :
      {T R : Type 0} (a : ℕ) (j : Job Bytes T R)
      → t ≡ record s { tasks = new_task a j ∷ s.tasks }
      → Step s t
  runs : Run s t → Step s t

-- The loop before a message has come: actor `a` has `Semaphore(max_jobs a)`.
abbrev pub idle : {Bytes : Type 0} → (ℕ → ℕ) → ℕ → Loop Bytes
idle max_jobs max_all = record { tasks = []; sems = record { actors = max_jobs; whole = max_all } }

pub data Reach {Bytes : Type 0} (max_jobs : ℕ → ℕ) (max_all : ℕ) : Loop Bytes → Type 1 where
  start : Reach max_jobs max_all (idle max_jobs max_all)
  next : {s t : Loop Bytes} → Reach max_jobs max_all s → Step s t → Reach max_jobs max_all t
