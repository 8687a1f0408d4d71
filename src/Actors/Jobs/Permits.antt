-- ===== src/Actors/Jobs/Permits.antt =====
-- The permits of the semaphores are neither lost nor made.
use walnats.Prelude.{
  ℕ, ◌≡◌, ◌≤◌, ◌+◌, refl, ap, Bool, true, false, none, some, List, [], ◌∷◌, All, All-map_of,
  count_if, arith, nat_eq, ◌==◌, ◌&&◌, inl, inr, Option-cases, nat_beq_iff,
}
use walnats.Actors.Priority.{actor_sem, global_sem, acquired, released}
use walnats.Actors.Handle.{Effect, sem, decoded, called}
use walnats.Actors.Handle.Semaphores.{
  Held, neither, actor_only, both, step, replay, semaphores_released,
}
use walnats.Actors.Jobs.{
  Task, Sems, perform_on, held_after, new_task, Loop, Replace, here, there, Run, run, Step, arrives,
  runs, Reach, start, next,
}

abbrev pub has_actor_sem : Held → Bool
has_actor_sem neither = false
has_actor_sem _ = true

abbrev pub has_global_sem : Held → Bool
has_global_sem both = true
has_global_sem _ = false

module _ {Bytes : Type 0} where
  abbrev pub holds_whole : Task Bytes → Bool
  holds_whole k = has_global_sem k.held

  abbrev pub holds_actor : ℕ → Task Bytes → Bool
  holds_actor a k = k.actor == a && has_actor_sem k.held

  -- What a task has still to do fits what it holds, and leaves nothing held.
  abbrev pub IsSafe : Task Bytes → Type 0
  IsSafe k = replay (some k.held) k.rest ≡ some neither

pub record Inv {Bytes : Type 0} (max_jobs : ℕ → ℕ) (max_all : ℕ) (s : Loop Bytes) : Type 0 where
  pub safe : All IsSafe s.tasks
  pub whole : s.sems.whole + count_if holds_whole s.tasks ≡ max_all
  pub actors : (a : ℕ) → s.sems.actors a + count_if (holds_actor a) s.tasks ≡ max_jobs a

abbrev one_if : Bool → ℕ
one_if b = elim b [ true ↦ 1 | false ↦ 0 ]

module _ {A : Type 0} where
  count_if-Replace :
      (p : A → Bool) {xs ys : List A} {x y : A}
      → Replace xs x y ys
      → count_if p ys + one_if (p x) ≡ count_if p xs + one_if (p y)
  count_if-Replace p here = omega arith
  count_if-Replace p (there r) = omega (arith, count_if-Replace p r)

  All-Replace :
      (P : A → Type 0) {xs ys : List A} {x y : A}
      → Replace xs x y ys
      → All P xs
      → (P x → P y)
      → All P ys
  All-Replace P here a f = (f a.0, a.1)
  All-Replace P (there r) a f = (a.0, All-Replace P r a.1 f)

  pub All-Replaced :
      (P : A → Type 0) {xs ys : List A} {x y : A} → Replace xs x y ys → All P xs → P x
  All-Replaced P here a = a.0
  All-Replaced P (there r) a = All-Replaced P r a.1

module _ {Bytes : Type 0} where
  pub replay-none : (t : List (Effect Bytes)) → replay none t ≡ none
  unfolding replay
  replay-none [] = refl
  replay-none (e ∷ t) = replay-none t

  -- An effect of a safe trace is no breach.
  pub allowed :
      (h : Held) (e : Effect Bytes) (es : List (Effect Bytes))
      → replay (some h) (e ∷ es) ≡ some neither
      → (h' : Held) × (step (some h) e ≡ some h') × (replay (some h') es ≡ some neither)
  unfolding replay
  allowed h e es safe = elim (Option-cases (step (some h) e)) [
    | inl breach ↦ absurd (cc (safe, breach, replay-none es))
    | inr (h', moved) ↦ (h', moved, rw moved at safe)
  ]

  -- What an effect takes from the semaphores is what its task gains.
  balance_whole :
      (a : ℕ) (e : Effect Bytes) (s s' : Sems) (h h' : Held)
      → perform_on a e s ≡ some s'
      → step (some h) e ≡ some h'
      → s'.whole + one_if (has_global_sem h') ≡ s.whole + one_if (has_global_sem h)
  balance_whole a (sem (acquired actor_sem)) s s' neither h' p q = ground arith
  balance_whole a (sem (acquired global_sem)) s s' actor_only h' p q = ground arith
  balance_whole a (sem (released global_sem)) s s' both h' p q = ground arith
  balance_whole a (sem (released actor_sem)) s s' actor_only h' p q = ground arith
  balance_whole a _ s s' _ h' p q = ground arith

  balance_actors :
      (a : ℕ) (e : Effect Bytes) (s s' : Sems) (h h' : Held) (b : ℕ)
      → perform_on a e s ≡ some s'
      → step (some h) e ≡ some h'
      → s'.actors b + one_if (a == b && has_actor_sem h')
        ≡ s.actors b + one_if (a == b && has_actor_sem h)
  balance_actors a (sem (acquired actor_sem)) s s' neither h' b p q =
      ground (arith, nat_beq_iff a b)
  balance_actors a (sem (acquired global_sem)) s s' actor_only h' b p q = ground arith
  balance_actors a (sem (released global_sem)) s s' both h' b p q = ground arith
  balance_actors a (sem (released actor_sem)) s s' actor_only h' b p q =
      ground (arith, nat_beq_iff a b)
  balance_actors a _ s s' _ h' b p q = ground arith

  held_after_lem :
      (h h' : Held) (e : Effect Bytes) → step (some h) e ≡ some h' → held_after h e ≡ h'
  held_after_lem h h' e moved = rw (moved, held_after) refl

module _ {Bytes : Type 0} {max_jobs : ℕ → ℕ} {max_all : ℕ} where
  Inv-Run : {s t : Loop Bytes} → Inv max_jobs max_all s → Run s t → Inv max_jobs max_all t
  Inv-Run {s} {t} inv (run k e es eq done r) =
      let safe = All-Replaced IsSafe r inv.safe in
      let (h', moved, left) = allowed k.held e es (rw eq at safe) in
      let after = held_after_lem k.held h' e moved in
      record {
        safe = All-Replace IsSafe r inv.safe (λ _. rw after left);
        whole = omega (
          arith,
          inv.whole,
          count_if-Replace holds_whole r,
          balance_whole k.actor e s.sems t.sems k.held h' done moved,
          ap (λ h. one_if (has_global_sem h)) after,
        );
        actors = λ a. omega (
          arith,
          inv.actors a,
          count_if-Replace (holds_actor a) r,
          balance_actors k.actor e s.sems t.sems k.held h' a done moved,
          ap (λ h. one_if (k.actor == a && has_actor_sem h)) after,
        );
      }

  Inv-Step : {s t : Loop Bytes} → Inv max_jobs max_all s → Step s t → Inv max_jobs max_all t
  unfolding new_task
  Inv-Step inv (runs r) = Inv-Run inv r
  Inv-Step {s} {t} inv (arrives a j e) = rw e (record {
    safe = (semaphores_released j, inv.safe);
    whole = omega (arith, inv.whole);
    actors = λ b. ground (arith, inv.actors b);
  })

  pub Reach-Inv : {s : Loop Bytes} → Reach max_jobs max_all s → Inv max_jobs max_all s
  Reach-Inv start = record { safe = tt; whole = omega arith; actors = λ a. omega arith }
  Reach-Inv (next r st) = Inv-Step (Reach-Inv r) st

-- The task decodes the message or calls the handler next.
abbrev pub is_running : {Bytes : Type 0} → List (Effect Bytes) → Bool
is_running [] = false
is_running (decoded ∷ es) = true
is_running (called ∷ es) = true
is_running (_ ∷ es) = false

module _ {A : Type 0} (p q : A → Bool) where
  abbrev pub Implies : A → Type 0
  Implies x = p x ≡ true → q x ≡ true

  pub count_if-le : (xs : List A) → All Implies xs → count_if p xs ≤ count_if q xs
  count_if-le [] h = omega arith
  count_if-le (x ∷ xs) h = ground (arith, h.0, count_if-le xs h.1)

module _ {Bytes : Type 0} where
  running_has_both :
      (h : Held) (t : List (Effect Bytes))
      → replay (some h) t ≡ some neither
      → is_running t ≡ true
      → h ≡ both
  unfolding replay
  running_has_both both t safe busy = refl
  running_has_both neither (decoded ∷ t) safe busy = absurd (cc (safe, replay-none t))
  running_has_both neither (called ∷ t) safe busy = absurd (cc (safe, replay-none t))
  running_has_both actor_only (decoded ∷ t) safe busy = absurd (cc (safe, replay-none t))
  running_has_both actor_only (called ∷ t) safe busy = absurd (cc (safe, replay-none t))
  running_has_both _ [] safe busy = cc busy
  running_has_both _ (_ ∷ t) safe busy = cc busy

  abbrev pub runs_handler : Task Bytes → Bool
  runs_handler k = is_running k.rest

  abbrev pub runs_handler_of : ℕ → Task Bytes → Bool
  runs_handler_of a k = k.actor == a && is_running k.rest

  All-running : (ts : List (Task Bytes)) → All IsSafe ts → All (Implies runs_handler holds_whole) ts
  All-running =
      All-map_of (λ k safe busy. ap has_global_sem (running_has_both k.held k.rest safe busy))

  All-running_of :
      (a : ℕ) (ts : List (Task Bytes))
      → All IsSafe ts
      → All (Implies (runs_handler_of a) (holds_actor a)) ts
  All-running_of a = All-map_of (λ k safe busy. ground (arith, running_has_both k.held k.rest safe))

  module _ {max_jobs : ℕ → ℕ} {max_all : ℕ} {s : Loop Bytes}
      (reach : Reach max_jobs max_all s) where
    -- However messages arrive and tasks take turns, no more than `max_jobs` of the listener are at their
    -- decoding or handler at once, and no more than `max_jobs` of an actor are at its.
    pub handlers_bounded :
        (count_if runs_handler s.tasks ≤ max_all)
        × ((a : ℕ) → count_if (runs_handler_of a) s.tasks ≤ max_jobs a)
    handlers_bounded =
        let inv = Reach-Inv reach in
        (
          omega (
            arith,
            inv.whole,
            count_if-le runs_handler holds_whole s.tasks (All-running s.tasks inv.safe),
          ),
          λ a. omega (
            arith,
            inv.actors a,
            count_if-le (runs_handler_of a) (holds_actor a) s.tasks
                (All-running_of a s.tasks inv.safe),
          ),
        )
