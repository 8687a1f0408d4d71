-- ===== src/Actors/Jobs/Progress.antt =====
-- Jobs do not wait for one another for ever, and come to an end.
use walnats.Prelude.{
  ℕ, zero, suc, ◌≡◌, ◌≢◌, ◌<◌, ◌+◌, ◌⊎◌, refl, ap, Bool, true, false, some, List, [], ◌∷◌, All,
  length, count_if, arith, nat_eq, inl, inr, Bool-cases,
}
use walnats.Actors.Priority.{actor_sem, global_sem, acquired, released}
use walnats.Actors.Handle.{Effect, sem}
use walnats.Actors.Handle.Semaphores.{Held, neither, actor_only, both, step, replay}
use walnats.Actors.Jobs.{
  Task, Sems, perform_on, held_after, take_one, update, Loop, Replace, here, there, Run, run,
}
use walnats.Actors.Jobs.Permits.{
  has_actor_sem, has_global_sem, holds_whole, holds_actor, IsSafe, allowed, Inv, All-Replaced,
  Implies, count_if-le,
}

-- An element that passes the test, and what the list becomes with any other in its place; or none does.
module _ {A : Type 0} (p : A → Bool) where
  record Found (xs : List A) : Type 0 where
    pub item : A
    pub passes : p item ≡ true
    pub put : (y : A) → (ys : List A) × Replace xs item y ys

  find : (xs : List A) → Found xs ⊎ (count_if p xs ≡ 0)
  find [] = inr refl
  find (x ∷ xs) = elim (Bool-cases (p x)) [
    | inl yes' ↦ inl (record { item = x; passes = yes'; put = λ y. (y ∷ xs, here) })
    | inr no' ↦ elim (find xs) [
      | inl f ↦ inl (record {
        item = f.item;
        passes = f.passes;
        put = λ y. (x ∷ (f.put y).0, there (f.put y).1);
      })
      | inr absent ↦ inr (rw (no', absent) refl)
    ]
  ]

  -- An element of the list has what all have.
  item-All : (P : A → Type 0) {xs : List A} (f : Found xs) → All P xs → P f.item
  item-All P f a = All-Replaced P (f.put f.item).1 a

-- What a task that holds this may have to wait for is free.
abbrev Free : Sems → ℕ → Held → Type 0
Free s a neither = 0 < s.actors a
Free s a actor_only = 0 < s.whole
Free s a both = Unit

take_free : (n : ℕ) → 0 < n → (m : ℕ) × (take_one n ≡ some m)
take_free zero h = elim h [ ]
take_free (suc n) h = (n, refl)

pub held_at_end :
    (Bytes : Type 0) (h : Held)
    → replay {Bytes = Bytes} (some h) [] ≡ some neither
    → has_actor_sem h ≡ false
unfolding replay
held_at_end Bytes neither e = refl
held_at_end Bytes actor_only e = cc e
held_at_end Bytes both e = cc e

global_is_actor : (h : Held) → has_global_sem h ≡ true → (h ≡ both)
global_is_actor both e = refl
global_is_actor neither e = cc e
global_is_actor actor_only e = cc e

Free-of_holder : (s : Sems) (a : ℕ) (h : Held) → 0 < s.whole → has_actor_sem h ≡ true → Free s a h
Free-of_holder s a neither w e = absurd (cc e)
Free-of_holder s a actor_only w e = w
Free-of_holder s a both w e = tt

Free-of_all : (s : Sems) (a : ℕ) (h : Held) → 0 < s.whole → 0 < s.actors a → Free s a h
Free-of_all s a neither w e = e
Free-of_all s a actor_only w e = w
Free-of_all s a both w e = tt

module _ {Bytes : Type 0} where
  abbrev pub unfinished : Task Bytes → Bool
  unfinished k = elim k.rest [ [] ↦ false | e ∷ es ↦ true ]

  -- All that tasks have still to do.
  abbrev pub work : List (Task Bytes) → ℕ
  work [] = 0
  work (k ∷ ks) = length k.rest + work ks

  work-Replace :
      {xs ys : List (Task Bytes)} {x y : Task Bytes}
      → Replace xs x y ys
      → work ys + length x.rest ≡ work xs + length y.rest
  work-Replace here = omega arith
  work-Replace (there r) = omega (arith, work-Replace r)

  -- A step of a task takes one from what is to do.
  pub work-Run : {s t : Loop Bytes} → Run s t → suc (work t.tasks) ≡ work s.tasks
  work-Run (run k e es eq done r) = omega (arith, work-Replace r, ap length eq)

  perform-Free :
      (a : ℕ) (e : Effect Bytes) (s : Sems) (h h' : Held)
      → step (some h) e ≡ some h'
      → Free s a h
      → (s' : Sems) × (perform_on a e s ≡ some s')
  perform-Free a (sem (acquired actor_sem)) s neither h' q f =
      let (m, e) = take_free (s.actors a) f in
      (record s { actors = update s.actors a m }, rw e refl)
  perform-Free a (sem (acquired actor_sem)) s actor_only h' q f = absurd (cc q)
  perform-Free a (sem (acquired actor_sem)) s both h' q f = absurd (cc q)
  perform-Free a (sem (acquired global_sem)) s neither h' q f = absurd (cc q)
  perform-Free a (sem (acquired global_sem)) s actor_only h' q f =
      let (m, e) = take_free s.whole f in (record s { whole = m }, rw e refl)
  perform-Free a (sem (acquired global_sem)) s both h' q f = absurd (cc q)
  perform-Free a (sem (released actor_sem)) s h h' q f = (_, refl)
  perform-Free a (sem (released global_sem)) s h h' q f = (_, refl)
  perform-Free a _ s h h' q f = (_, refl)

  unfinished_rest :
      (t : List (Effect Bytes))
      → (t ≡ []) ⊎ ((e : Effect Bytes) × (es : List (Effect Bytes)) × (t ≡ e ∷ es))
  unfinished_rest [] = inl refl
  unfinished_rest (e ∷ es) = inr (e, es, refl)

  -- A safe task that is not at its end goes on, if what it may wait for is free.
  goes_on :
      (s : Loop Bytes) (p : Task Bytes → Bool) (f : Found p s.tasks)
      → IsSafe f.item
      → f.item.rest ≢ []
      → Free s.sems f.item.actor f.item.held
      → (t : Loop Bytes) × Run s t
  goes_on s p f safe more free = elim (unfinished_rest f.item.rest) [
    | inl e ↦ absurd (more e)
    | inr (e, es, eq) ↦
        let (h', moved, left) = allowed f.item.held e es (rw eq at safe) in
        let (sems', done) = perform-Free f.item.actor e s.sems f.item.held h' moved free in
        let (tasks', r) = f.put (record f.item { held = held_after f.item.held e; rest = es }) in
        (record { tasks = tasks'; sems = sems' }, run f.item e es eq done r)
  ]

  holder_unfinished : (k : Task Bytes) → IsSafe k → has_actor_sem k.held ≡ true → k.rest ≢ []
  holder_unfinished k safe held e = absurd (cc (held_at_end Bytes k.held (rw e at safe), held))

  pub holds_any : Task Bytes → Bool
  holds_any k = has_actor_sem k.held

  none_of_actor : (a : ℕ) (ts : List (Task Bytes)) → All (Implies (holds_actor a) holds_any) ts
  unfolding holds_any
  none_of_actor a [] = tt
  none_of_actor a (k ∷ ks) = (λ h. ground arith, none_of_actor a ks)

  unfinished_more : (k : Task Bytes) → unfinished k ≡ true → k.rest ≢ []
  unfinished_more k u e = absurd (cc (u, e))

  pub no_work : (ts : List (Task Bytes)) → count_if unfinished ts ≡ 0 → All (λ k. k.rest ≡ []) ts
  no_work [] h = tt
  no_work (k ∷ ks) h = (ground arith, no_work ks (omega arith))

  pub unfinished-work : (ts : List (Task Bytes)) → count_if unfinished ts ≡ 0 → work ts ≡ 0
  unfinished-work [] h = refl
  unfinished-work (k ∷ ks) h =
      omega (arith, ap length (no_work (k ∷ ks) h).0, unfinished-work ks (omega arith))

  module _ {max_jobs : ℕ → ℕ} {max_all : ℕ} {s : Loop Bytes} (inv : Inv max_jobs max_all s)
      (some_jobs : (a : ℕ) → 0 < max_jobs a) (some_all : 0 < max_all) where
    pub unowned :
        s.sems.whole ≡ max_all
        → count_if holds_any s.tasks ≡ 0
        → (a : ℕ) → s.sems.actors a ≡ max_jobs a
    unowned w h a = omega (
      arith,
      inv.actors a,
      count_if-le (holds_actor a) holds_any s.tasks (none_of_actor a s.tasks),
    )

    pub moves : count_if unfinished s.tasks ≢ 0 → (t : Loop Bytes) × Run s t
    unfolding holds_any
    moves work_left = elim (find holds_whole s.tasks) [
      | inl f ↦
          let safe = item-All holds_whole IsSafe f inv.safe in
          let e = global_is_actor f.item.held f.passes in
          goes_on s holds_whole f safe (holder_unfinished f.item safe (rw e refl)) (rw e tt)
      | inr free ↦
          let whole : s.sems.whole ≡ max_all = omega (arith, inv.whole) in
          elim (find holds_any s.tasks) [
            | inl f ↦
                let safe = item-All holds_any IsSafe f inv.safe in
                goes_on s holds_any f safe (holder_unfinished f.item safe f.passes)
                  (Free-of_holder s.sems f.item.actor f.item.held (omega arith) f.passes)
            | inr unheld ↦ elim (find unfinished s.tasks) [
              | inr finished ↦ absurd (work_left finished)
              | inl f ↦
                  goes_on s unfinished f (item-All unfinished IsSafe f inv.safe)
                    (unfinished_more f.item f.passes)
                    (Free-of_all s.sems f.item.actor f.item.held (omega arith)
                      (omega (arith, some_jobs f.item.actor, unowned whole unheld f.item.actor)))
            ]
          ]
    ]
