-- ===== src/Actors/Listen.antt =====
-- `Actor._listen` and `Actor._pull_and_handle` (walnats/_actors/_actor.py), from the outcomes of what
-- they await. Names of tasks are left out. What the started tasks do is in Handle and Jobs.
pub mod Cleanup
pub mod Supervised
use walnats.Prelude.{
  ℕ, String, Bool, true, false, Option, none, some, List, [], ◌∷◌, ◌++◌, if◌then◌else◌, ◌==◌,
  string_eq,
}
use walnats.Exceptions.{Exc, exception, cancelled, Result, ok, raise}
use walnats.Effects.{Act, ◌>>=◌, ◌>>◌, pure, perform}
use walnats.Events.Event.{stream_name}
use walnats.Actors.Actor.{Actor, consumer_name}

-- The semaphores: `actor_sem` is the actor's own, `global_sem` and `poll_sem` are shared by all.
pub data Sem : Type 0 where
  actor_sem global_sem poll_sem : Sem

pub data Effect (Msg : Type 0) : Type 0 where
  subscribed : String → String → ℕ → Effect Msg
  acquired released : Sem → Effect Msg
  fetched : Effect Msg
  job_started : Msg → Effect Msg
  tasks_waited tasks_cancelled unsubscribed : Effect Msg

-- What a round meets: whether a semaphore is locked, with the outcome of the acquisition if it is, the
-- outcome for `poll_sem`, and the messages that `psub.fetch` gives.
pub record Round (Msg : Type 0) : Type 0 where
  pub actor_locked : Option (Result (Unit {0}))
  pub global_locked : Option (Result (Unit {0}))
  pub poll_free : Result (Unit {0})
  pub messages : Result (List Msg)

module _ {Msg : Type 0} where
  -- `async with sem: body`
  abbrev pub with_sem :
      {A : Type 0} → Sem → Result (Unit {0}) → Act (Effect Msg) A → Act (Effect Msg) A
  with_sem s (raise e) body = (raise e, [])
  with_sem s (ok _) body = (body.0, acquired s ∷ (body.1 ++ (released s ∷ [])))

  -- `if sem.locked(): await sem.acquire(); sem.release()`
  abbrev pub await_unlocked : Sem → Option (Result (Unit {0})) → Act (Effect Msg) (Unit {0})
  await_unlocked s none = pure tt
  await_unlocked s (some outcome) = with_sem s outcome (pure tt)

  -- `none` is the `return` after a `TimeoutError`; another exception passes.
  abbrev pub or_timeout : Result (List Msg) → Result (Option (List Msg))
  or_timeout (ok ms) = ok (some ms)
  or_timeout (raise (exception name)) =
      if name == "TimeoutError" then ok none else raise (exception name)
  or_timeout (raise e) = raise e

  abbrev pub start_jobs : List Msg → List (Effect Msg)
  start_jobs [] = []
  start_jobs (m ∷ ms) = job_started m ∷ start_jobs ms

  unfoldable pub pull_and_handle : Round Msg → Act (Effect Msg) (Unit {0})
  pull_and_handle r =
      await_unlocked actor_sem r.actor_locked
      >> (await_unlocked global_sem r.global_locked
          >> (with_sem poll_sem r.poll_free (perform fetched (or_timeout r.messages)) >>= λ polled.
              elim polled [ none ↦ pure tt | some msgs ↦ (ok tt, start_jobs msgs) ]))

  -- The loop over the rounds that it makes until it is cancelled; in a burst it makes the first one and
  -- waits for the tasks.
  rounds : List (Round Msg) → Act (Effect Msg) (Unit {0})
  rounds [] = (raise cancelled, [])
  rounds (r ∷ rs) = pull_and_handle r >> rounds rs

  pub poll : Bool → Round Msg → List (Round Msg) → Result (Unit {0}) → Act (Effect Msg) (Unit {0})
  unfolding rounds pull_and_handle
  poll true r rs waited = pull_and_handle r >> perform tasks_waited waited
  poll false r rs waited = rounds (r ∷ rs)

  -- `finally: tasks.cancel(); await psub.unsubscribe()`
  finally : Act (Effect Msg) (Unit {0}) → Result (Unit {0}) → Act (Effect Msg) (Unit {0})
  finally body unsubscription = (
    elim unsubscription [ ok _ ↦ body.0 | raise e ↦ raise e ],
    body.1 ++ (tasks_cancelled ∷ unsubscribed ∷ []),
  )

  module _ {Schema Ser Handler Mw : Type 0} where
    unfoldable pub listen :
        Actor Schema Ser Handler Mw
        → Bool
        → ℕ
        → (subscription waited unsubscription : Result (Unit {0})) → Round Msg
        → List (Round Msg)
        → Act (Effect Msg) (Unit {0})
    unfolding poll finally
    listen a burst batch subscription waited unsubscription r rs =
        let durable : Act (Effect Msg) String = (consumer_name a, []) in
        let stream : Act (Effect Msg) String = (stream_name a.event, []) in
        durable >>= λ d. stream >>= λ s.
        perform (subscribed d s batch) subscription
        >> finally (poll burst r rs waited) unsubscription
