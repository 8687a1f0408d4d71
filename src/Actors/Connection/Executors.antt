-- ===== src/Actors/Connection/Executors.antt =====
-- The executors that handlers run in.
use walnats.Prelude.{
  collect, collect-append, String, ◌≡◌, refl, ap, ◌∙◌, Bool, true, Option, none, some, List, [],
  ◌∷◌, ◌++◌, any, map, All, All-map_of, arith, if◌then◌else◌,
}
use walnats.Exceptions.{Result, ok}
use walnats.Actors.Actor.{Actor, ExecuteIn, main, thread, process}
use walnats.Actors.Connection.{
  ListenOptions, Executor, thread_pool, process_pool, Effect, listening, check, is_thread,
  is_process, executor_of, thread_pool_for, process_pool_for, create_tasks, listen, cancel_tasks,
  enters, exits,
}

-- The executor that an actor asks for.
abbrev pub wanted : ListenOptions → ExecuteIn → Option Executor
wanted o main = none
wanted o thread = some (thread_pool o.max_threads)
wanted o process = some (process_pool o.max_processes)

abbrev task_of : Effect → Option (String × Option Executor)
task_of (listening name e) = some (name, e)
task_of _ = none

-- The tasks that a trace creates.
abbrev pub tasks_of : List Effect → List (String × Option Executor)
tasks_of = collect task_of

module _ {Schema Ser Handler Mw : Type 0} (o : ListenOptions) where
  abbrev pub wanted_of : Actor Schema Ser Handler Mw → String × Option Executor
  wanted_of a = (a.name, wanted o a.execute_in)

tasks_of-append : (t u : List Effect) → tasks_of (t ++ u) ≡ tasks_of t ++ tasks_of u
tasks_of-append = collect-append task_of

module _ {A : Type 0} (p : A → Bool) where
  All-any : (xs : List A) → All (λ a. p a ≡ true → any p xs ≡ true) xs
  All-any [] = tt
  All-any (x ∷ xs) = (λ e. rw e refl, All-map_of (λ a h e. ground (arith, h e)) xs (All-any xs))

pools_enter : (p : Option Executor) → tasks_of (enters p) ≡ []
pools_enter none = refl
pools_enter (some e) = refl

pools_exit : (p : Option Executor) → tasks_of (exits p) ≡ []
pools_exit none = refl
pools_exit (some e) = refl

module _ {A : Type 0} {P Q R : A → Type 0} where
  All-map2 : ((a : A) → P a → Q a → R a) → (xs : List A) → All P xs → All Q xs → All R xs
  All-map2 f [] p q = tt
  All-map2 f (x ∷ xs) p q = (f x p.0 q.0, All-map2 f xs p.1 q.1)

executor_fits :
    (o : ListenOptions) (e : ExecuteIn) (anys_t anys_p : Bool)
    → (is_thread e ≡ true → anys_t ≡ true)
    → (is_process e ≡ true → anys_p ≡ true)
    → executor_of
        (if anys_t then some (thread_pool o.max_threads) else none)
        (if anys_p then some (process_pool o.max_processes) else none)
        e
      ≡ wanted o e
executor_fits o main anys_t anys_p t p = refl
executor_fits o thread anys_t anys_p t p = rw (t refl) refl
executor_fits o process anys_t anys_p t p = rw (p refl) refl

module _ {Schema Ser Handler Mw : Type 0} (o : ListenOptions) where
  cancel_tasks_none : (xs : List (Actor Schema Ser Handler Mw)) → tasks_of (cancel_tasks xs) ≡ []
  unfolding cancel_tasks
  cancel_tasks_none [] = refl
  cancel_tasks_none (a ∷ xs) = cancel_tasks_none xs

  rest_none :
      (xs : List (Actor Schema Ser Handler Mw)) (threads processes : Option Executor)
      → tasks_of (cancel_tasks xs ++ (exits processes ++ exits threads)) ≡ []
  rest_none xs threads processes = simp (tasks_of-append, cancel_tasks_none, pools_exit)

  create_tasks_lem :
      (threads processes : Option Executor) (xs : List (Actor Schema Ser Handler Mw))
      (rest : List Effect)
      → All (λ a. executor_of threads processes a.execute_in ≡ wanted o a.execute_in) xs
      → tasks_of rest ≡ []
      → tasks_of (create_tasks threads processes xs ++ rest) ≡ map (wanted_of o) xs
  unfolding create_tasks
  create_tasks_lem threads processes [] rest fits none_left = none_left
  create_tasks_lem threads processes (a ∷ xs) rest fits none_left =
      rw (fits.0, create_tasks_lem threads processes xs rest fits.1 none_left) refl

  pools_fit :
      (xs : List (Actor Schema Ser Handler Mw))
      → All
          (λ a.
            executor_of (thread_pool_for o xs) (process_pool_for o xs) a.execute_in
            ≡ wanted o a.execute_in)
          xs
  unfolding thread_pool_for process_pool_for
  pools_fit xs =
      All-map2 (λ a. executor_fits o a.execute_in _ _) xs (All-any (λ a. is_thread a.execute_in) xs)
        (All-any (λ a. is_process a.execute_in) xs)

  -- With arguments that pass the assertions, a task is created for every actor, in their order, and its
  -- handlers run in the kind of executor that the actor asks for, with the limit given for that kind:
  -- never in the main thread because a pool is missing.
  pub listen_executors :
      (xs : List (Actor Schema Ser Handler Mw)) (gathered : Result (Unit {0}))
      → check o ≡ ok tt
      → tasks_of (listen o xs gathered).1 ≡ map (wanted_of o) xs
  unfolding listen
  listen_executors xs gathered valid =
      let threads = thread_pool_for o xs in
      let processes = process_pool_for o xs in
      let rest = cancel_tasks xs ++ (exits processes ++ exits threads) in
      rw valid (
        tasks_of-append (enters threads)
          (enters processes ++ (create_tasks threads processes xs ++ rest))
        ∙ ap (λ l. l ++ tasks_of (enters processes ++ (create_tasks threads processes xs ++ rest)))
            (pools_enter threads)
        ∙ (tasks_of-append (enters processes) (create_tasks threads processes xs ++ rest)
            ∙ ap (λ l. l ++ tasks_of (create_tasks threads processes xs ++ rest))
                (pools_enter processes)
            ∙ create_tasks_lem threads processes xs rest (pools_fit xs)
                (rest_none xs threads processes)))
