-- ===== src/Actors/Listen/Cleanup.antt =====
-- What `_listen` starts and leaves behind.
use mathlib.Core.List.{append-nil}
use walnats.Prelude.{
  collect, collect-append, ℕ, String, ◌≡◌, refl, ap, sym, ◌∙◌, All, Bool, true, false, Option, none,
  some, List, [], ◌∷◌, ◌++◌, arith,
}
use walnats.Exceptions.{exception, cancelled, base, Result, ok, raise}
use walnats.Effects.{Act, ◌>>=◌, ◌>>◌, pure, perform}
use walnats.Events.Event.{stream_name}
use walnats.Actors.Actor.{Actor, consumer_name}
use walnats.Actors.Listen.{
  Effect, subscribed, tasks_waited, tasks_cancelled, unsubscribed, fetched, Sem, actor_sem,
  global_sem, poll_sem, Round, start_jobs, pull_and_handle, poll, rounds, finally, listen,
  job_started, with_sem, await_unlocked, or_timeout,
}

abbrev pub Unlocked : Option (Result (Unit {0})) → Type 0
Unlocked none = Unit
Unlocked (some r) = r ≡ ok tt

module _ {Msg : Type 0} where
  abbrev job_of : Effect Msg → Option Msg
  job_of (job_started m) = some m
  job_of _ = none

  -- The messages whose jobs a trace starts.
  abbrev pub jobs_of : List (Effect Msg) → List Msg
  jobs_of = collect job_of

  jobs_of-append : (t u : List (Effect Msg)) → jobs_of (t ++ u) ≡ jobs_of t ++ jobs_of u
  jobs_of-append = collect-append job_of

  jobs_of-start_jobs : (ms : List Msg) → jobs_of (start_jobs ms) ≡ ms
  jobs_of-start_jobs [] = refl
  jobs_of-start_jobs (m ∷ ms) = ap (λ l. m ∷ l) (jobs_of-start_jobs ms)

  -- The messages of a round: a poll that times out gives none.
  abbrev pub given : Round Msg → List Msg
  given r = elim r.messages [ ok ms ↦ ms | raise e ↦ [] ]

  abbrev pub given_in : List (Round Msg) → List Msg
  given_in [] = []
  given_in (r ∷ rs) = given r ++ given_in rs

  -- No exception but the time-out of a poll comes to the round.
  pub record IsQuiet (r : Round Msg) : Type 0 where
    pub actor : Unlocked r.actor_locked
    pub whole : Unlocked r.global_locked
    pub poll_free : r.poll_free ≡ ok tt
    pub messages : (p : Option (List Msg)) × (or_timeout r.messages ≡ ok p)

  -- A step that returns and starts no job.
  abbrev Passes : Act (Effect Msg) (Unit {0}) → Type 0
  Passes m = (m.0 ≡ ok tt) × (jobs_of m.1 ≡ [])

  await_unlocked-Passes :
      (s : Sem) (l : Option (Result (Unit {0}))) → Unlocked l → Passes (await_unlocked s l)
  await_unlocked-Passes s none u = (refl, refl)
  await_unlocked-Passes s (some r) u = rw u (refl, refl)

  jobs-then :
      (m n : Act (Effect Msg) (Unit {0}))
      → Passes m
      → ((m >> n).0 ≡ n.0) × (jobs_of (m >> n).1 ≡ jobs_of n.1)
  jobs-then (ok u, t) n p = (refl, jobs_of-append t n.1 ∙ ap (λ l. l ++ jobs_of n.1) p.1)
  jobs-then (raise e, t) n p = absurd (cc p.0)

  abbrev polled_or_none : Option (List Msg) → List Msg
  polled_or_none none = []
  polled_or_none (some ms) = ms

  given-or_timeout :
      (m : Result (List Msg)) (p : Option (List Msg))
      → or_timeout m ≡ ok p
      → elim m [ ok ms ↦ ms | raise e ↦ [] ] ≡ polled_or_none p
  given-or_timeout (ok ms) p e = ground arith
  given-or_timeout (raise (exception name)) p e = ground arith
  given-or_timeout (raise cancelled) p e = cc e
  given-or_timeout (raise (base name)) p e = cc e

  -- The poll of a round, and the start of the jobs.
  abbrev poll_and_start : Round Msg → Act (Effect Msg) (Unit {0})
  poll_and_start r =
      with_sem poll_sem r.poll_free (perform fetched (or_timeout r.messages)) >>= λ polled.
      elim polled [ none ↦ pure tt | some msgs ↦ (ok tt, start_jobs msgs) ]

  poll_and_start_lem :
      (r : Round Msg) (p : Option (List Msg))
      → r.poll_free ≡ ok tt
      → or_timeout r.messages ≡ ok p
      → ((poll_and_start r).0 ≡ ok tt) × (jobs_of (poll_and_start r).1 ≡ polled_or_none p)
  poll_and_start_lem r none free m = rw (free, m) (refl, refl)
  poll_and_start_lem r (some ms) free m = rw (free, m) (refl, jobs_of-start_jobs ms)

  round_lem :
      (r : Round Msg)
      → IsQuiet r
      → ((pull_and_handle r).0 ≡ ok tt) × (jobs_of (pull_and_handle r).1 ≡ given r)
  unfolding pull_and_handle
  round_lem r q =
      let (p, m) = q.messages in
      let polls = poll_and_start_lem r p q.poll_free m in
      let global =
        jobs-then (await_unlocked global_sem r.global_locked) (poll_and_start r)
          (await_unlocked-Passes global_sem r.global_locked q.whole) in
      let actor =
        jobs-then (await_unlocked actor_sem r.actor_locked)
          (await_unlocked global_sem r.global_locked >> poll_and_start r)
          (await_unlocked-Passes actor_sem r.actor_locked q.actor) in
      (
        actor.0 ∙ (global.0 ∙ polls.0),
        actor.1 ∙ (global.1 ∙ (polls.1 ∙ sym (given-or_timeout r.messages p m))),
      )

  jobs_of-then :
      (m n : Act (Effect Msg) (Unit {0}))
      → m.0 ≡ ok tt
      → jobs_of (m >> n).1 ≡ jobs_of m.1 ++ jobs_of n.1
  jobs_of-then (ok u, t) n e = jobs_of-append t n.1
  jobs_of-then (raise x, t) n e = cc e

  rounds_lem : (rs : List (Round Msg)) → All IsQuiet rs → jobs_of (rounds rs).1 ≡ given_in rs
  unfolding rounds
  rounds_lem [] q = refl
  rounds_lem (r ∷ rs) q =
      let (done, jobs) = round_lem r q.0 in
      rw (jobs_of-then (pull_and_handle r) (rounds rs) done, jobs, rounds_lem rs q.1) refl

  -- The rounds that a listener makes.
  abbrev pub made : Bool → Round Msg → List (Round Msg) → List (Round Msg)
  made true r rs = r ∷ []
  made false r rs = r ∷ rs

  poll_lem :
      (burst : Bool) (r : Round Msg) (rs : List (Round Msg)) (waited : Result (Unit {0}))
      → All IsQuiet (made burst r rs)
      → jobs_of (poll burst r rs waited).1 ≡ given_in (made burst r rs)
  unfolding poll
  poll_lem false r rs waited q = rounds_lem (r ∷ rs) q
  poll_lem true r rs waited q =
      let (done, jobs) = round_lem r q.0 in
      jobs_of-then (pull_and_handle r) (perform tasks_waited waited) done ∙ ap (λ l. l ++ []) jobs

module _ {Msg Schema Ser Handler Mw : Type 0} (a : Actor Schema Ser Handler Mw) (burst : Bool)
    (batch : ℕ) (waited unsubscription : Result (Unit {0})) (r : Round Msg) (rs : List (Round Msg))
    (durable stream : String) (named : consumer_name a ≡ ok durable)
    (streamed : stream_name a.event ≡ ok stream) where
  -- Once it is subscribed, a listener ends in no other way than by cancelling its tasks and then ending
  -- the subscription, whatever a round raises.
  pub listen_cleans_up :
      (listen a burst batch (ok tt) waited unsubscription r rs).1
      ≡ subscribed durable stream batch
        ∷ ((poll burst r rs waited).1 ++ (tasks_cancelled ∷ unsubscribed ∷ []))
  unfolding listen finally
  listen_cleans_up = rw (named, streamed) refl

  -- A listener that is subscribed, and in whose rounds nothing raises but a poll that times out, starts a
  -- job for every message that it is given, once, in the order in which they come: those of one round in a
  -- burst, and else of all rounds that it makes.
  pub listen_starts_given :
      All IsQuiet (made burst r rs)
      → jobs_of (listen a burst batch (ok tt) waited unsubscription r rs).1
        ≡ given_in (made burst r rs)
  listen_starts_given q =
      ap jobs_of listen_cleans_up
      ∙ (jobs_of-append (poll burst r rs waited).1 (tasks_cancelled ∷ unsubscribed ∷ [])
          ∙ (append-nil (jobs_of (poll burst r rs waited).1) ∙ poll_lem burst r rs waited q))
