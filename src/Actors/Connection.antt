-- ===== src/Actors/Connection.antt =====
-- `ConnectedActors` (walnats/_actors/_connection.py), from the outcomes of what it awaits. The tasks that
-- it creates run `_listen`, which is in Listen.
pub mod Executors
pub mod Routing
use walnats.Prelude.{
  ℕ, zero, suc, String, Bool, true, false, Option, none, some, List, [], ◌∷◌, ◌++◌, leb, any,
  length, if◌then◌else◌,
}
use walnats.Exceptions.{Result, ok, raise, ◌>>=◌}
use walnats.Effects.{Act, ◌>>◌}
use walnats.Events.Event.{assert}
use walnats.Actors.Actor.{Actor, ExecuteIn, main, thread, process, ConsumerConfig, add_arguments}

-- The arguments of `listen`. A delay is a natural number, so its assertion holds.
pub record ListenOptions : Type 0 where
  pub burst : Bool
  pub max_polls : Option ℕ
  pub poll_delay : ℕ
  pub batch : ℕ
  pub max_jobs : ℕ
  pub max_processes : Option ℕ
  pub max_threads : Option ℕ

-- `ThreadPoolExecutor(n)` and `ProcessPoolExecutor(n)`
pub data Executor : Type 0 where
  thread_pool process_pool : Option ℕ → Executor

pub data Effect : Type 0 where
  poll_semaphore global_semaphore : ℕ → Effect
  entered exited : Executor → Effect
  listening : String → Option Executor → Effect
  task_cancelled : String → Effect

-- `x is None or x >= 1`
abbrev pub none_or_positive : Option ℕ → Bool
none_or_positive none = true
none_or_positive (some n) = leb 1 n

unfoldable pub check : ListenOptions → Result (Unit {0})
check o = assert (none_or_positive o.max_polls) >>= λ _. assert (leb 1 o.batch) >>= λ _.
    assert (leb 1 o.max_jobs) >>= λ _.
    assert (none_or_positive o.max_processes) >>= λ _. assert (none_or_positive o.max_threads)

-- `max_polls or len(self._actors)`
abbrev pub or_else : Option ℕ → ℕ → ℕ
or_else none n = n
or_else (some zero) n = n
or_else (some (suc m)) n = suc m

abbrev pub is_thread : ExecuteIn → Bool
is_thread thread = true
is_thread _ = false

abbrev pub is_process : ExecuteIn → Bool
is_process process = true
is_process _ = false

-- The executor of an actor, from the pools that there are.
abbrev pub executor_of : (threads processes : Option Executor) → ExecuteIn → Option Executor
executor_of threads processes thread = threads
executor_of threads processes process = processes
executor_of threads processes main = none

abbrev pub enters : Option Executor → List Effect
enters none = []
enters (some e) = entered e ∷ []

abbrev pub exits : Option Executor → List Effect
exits none = []
exits (some e) = exited e ∷ []

module _ {Schema Ser Handler Mw : Type 0} where
  -- The pools that are entered: those that some actor asks for.
  unfoldable pub thread_pool_for :
      ListenOptions → List (Actor Schema Ser Handler Mw) → Option Executor
  thread_pool_for o actors =
      if any (λ a. is_thread a.execute_in) actors then some (thread_pool o.max_threads) else none

  unfoldable pub process_pool_for :
      ListenOptions → List (Actor Schema Ser Handler Mw) → Option Executor
  process_pool_for o actors =
      if any (λ a. is_process a.execute_in) actors
      then some (process_pool o.max_processes)
      else none

  unfoldable pub create_tasks :
      (threads processes : Option Executor) → List (Actor Schema Ser Handler Mw) → List Effect
  create_tasks threads processes [] = []
  create_tasks threads processes (a ∷ as') =
      listening a.name (executor_of threads processes a.execute_in)
      ∷ create_tasks threads processes as'

  cancel_tasks : List (Actor Schema Ser Handler Mw) → List Effect
  cancel_tasks [] = []
  cancel_tasks (a ∷ as') = task_cancelled a.name ∷ cancel_tasks as'

  -- `gathered` is the outcome of `asyncio.gather(*tasks)`.
  unfoldable pub listen :
      ListenOptions → List (Actor Schema Ser Handler Mw) → Result (Unit {0}) → Act Effect (Unit {0})
  unfolding create_tasks cancel_tasks thread_pool_for process_pool_for
  listen o actors gathered =
      let checked : Act Effect (Unit {0}) = (check o, []) in
      let threads = thread_pool_for o actors in
      let processes = process_pool_for o actors in
      checked >> (
        gathered,
        poll_semaphore (or_else o.max_polls (length actors))
            ∷ global_semaphore o.max_jobs
            ∷ (enters threads
                ++ (enters processes
                    ++ (create_tasks threads processes actors
                        ++ (cancel_tasks actors ++ (exits processes ++ exits threads))))),
      )

  -- `register`, over the outcomes of `js.add_consumer`: the consumers that are added, or the first
  -- exception.
  unfoldable pub register :
      (add_consumer : String × ConsumerConfig → Result (Unit {0}))
      → List (Actor Schema Ser Handler Mw)
      → Result (List (String × ConsumerConfig))
  register add_consumer [] = ok []
  register add_consumer (a ∷ as') =
      let rest = register add_consumer as' in
      add_arguments a >>= λ c. add_consumer c >>= λ _. rest >>= λ cs. ok (c ∷ cs)
