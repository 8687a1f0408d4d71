-- ===== src/Actors/Listen/Supervised.antt =====
-- `_listen` with its supervisor of tasks (walnats/_tasks.py), and what tasks do meanwhile.
use walnats.Prelude.{
  All, All-map_of, ◌∙◌, ap, sym, ℕ, String, ◌≡◌, refl, Bool, true, false, Option, none, some, List,
  [], ◌∷◌, ◌++◌, arith, count_if, count_if-append, contains, nat_eq,
}
use walnats.Exceptions.{Result, ok, raise, ◌>>=◌}
use walnats.Effects.{Act, ◌>>=◌ as ◌>>>=◌, ◌>>◌, pure, perform}
use walnats.Events.Event.{stream_name}
use walnats.Actors.Actor.{Actor, consumer_name}
use mathlib.Core.List.{append-nil}
use walnats.Tasks.Histories.{is_start, unended, unended-runs, all_happen-append}
use walnats.Tasks.{happens, starts, Tasks, new, start, cancel, wait, Event, all_happen}
use walnats.Tasks.Waits.{cancel_lem, all_happen-open, contains-append}
use walnats.Actors.Listen.{
  Effect, subscribed, tasks_waited, tasks_cancelled, unsubscribed, fetched, Sem, actor_sem,
  global_sem, poll_sem, Round, start_jobs, pull_and_handle, poll, rounds, listen, job_started,
  with_sem, await_unlocked, or_timeout,
}
use walnats.Actors.Listen.Cleanup.{listen_cleans_up}

module _ {Msg : Type 0} where
  -- What an effect of the listener does to its tasks, with the events that happen before it, or while it
  -- waits for them and is not cancelled.
  supervise : List Event → Effect Msg → Tasks → Result Tasks
  supervise h (job_started m) s = start (all_happen h s)
  supervise h tasks_waited s = ok (wait s h).1
  supervise h tasks_cancelled s = ok (cancel (all_happen h s))
  supervise h _ s = ok (all_happen h s)

  -- The effects one after the other, each with its events.
  unfoldable pub play : List (List Event) → List (Effect Msg) → Tasks → Result Tasks
  unfolding supervise
  play hs [] s = ok s
  play [] (e ∷ t) s = supervise [] e s >>= play [] t
  play (h ∷ hs) (e ∷ t) s = supervise h e s >>= play hs t

  -- The listener waits for its tasks, or cancels them.
  abbrev is_wait : Effect Msg → Bool
  is_wait tasks_waited = true
  is_wait tasks_cancelled = true
  is_wait _ = false

  -- The task that an effect starts.
  abbrev pub starts_of : Effect Msg → List Event
  starts_of (job_started m) = starts ∷ []
  starts_of _ = []

  -- All that happens to the tasks, in its order: the events, and the jobs that the listener starts.
  abbrev pub history : List (List Event) → List (Effect Msg) → List Event
  history hs [] = []
  history [] (e ∷ t) = starts_of e ++ history [] t
  history (h ∷ hs) (e ∷ t) = h ++ (starts_of e ++ history hs t)

  supervise-history :
      (h : List Event) (e : Effect Msg) (s : Tasks)
      → is_wait e ≡ false
      → s.is_done ≡ false
      → supervise h e s ≡ ok (all_happen (h ++ starts_of e) s)
  unfolding supervise start all_happen happens
  supervise-history h (job_started m) s w d =
      rw all_happen-append (ground (arith, all_happen-open h s d))
  supervise-history h tasks_waited s w d = absurd (cc w)
  supervise-history h tasks_cancelled s w d = absurd (cc w)
  supervise-history h _ s w d = rw append-nil refl

  -- A supervisor that has not waited starts every task that it is given.
  play-history :
      (hs : List (List Event)) (t : List (Effect Msg)) (s : Tasks)
      → count_if is_wait t ≡ 0
      → s.is_done ≡ false
      → play hs t s ≡ ok (all_happen (history hs t) s)
  unfolding play all_happen
  play-history hs [] s w d = refl
  play-history [] (e ∷ t) s w d =
      let s' = all_happen (starts_of e) s in
      let one = supervise-history [] e s (ground (arith, w)) d in
      let all = play-history [] t s' (ground (arith, w)) (all_happen-open (starts_of e) s d) in
      rw (one, all_happen-append (starts_of e) (history [] t) s) all
  play-history (h ∷ hs) (e ∷ t) s w d =
      let s' = all_happen (h ++ starts_of e) s in
      let one = supervise-history h e s (ground (arith, w)) d in
      let all = play-history hs t s' (ground (arith, w)) (all_happen-open (h ++ starts_of e) s d) in
      let parts =
        all_happen-append h (starts_of e ++ history hs t) s
        ∙ all_happen-append (starts_of e) (history hs t) (all_happen h s)
        ∙ ap (all_happen (history hs t)) (sym (all_happen-append h (starts_of e) s)) in
      rw (one, parts) all

  abbrev NoWait : Act (Effect Msg) (Unit {0}) → Type 0
  NoWait m = count_if is_wait m.1 ≡ 0

  NoWait-then : (m n : Act (Effect Msg) (Unit {0})) → NoWait m → NoWait n → NoWait (m >> n)
  NoWait-then (ok u, t) n p q = omega (arith, count_if-append is_wait t n.1)
  NoWait-then (raise e, t) n p q = p

  NoWait-await_unlocked :
      (s : Sem) (l : Option (Result (Unit {0}))) (m : Act (Effect Msg) (Unit {0}))
      → NoWait m
      → NoWait (await_unlocked s l >> m)
  NoWait-await_unlocked s none m h = h
  NoWait-await_unlocked s (some (ok u)) m h = omega (arith, h)
  NoWait-await_unlocked s (some (raise e)) m h = refl

  NoWait-start_jobs : (ms : List Msg) → count_if is_wait (start_jobs ms) ≡ 0
  NoWait-start_jobs [] = refl
  NoWait-start_jobs (m ∷ ms) = omega (arith, NoWait-start_jobs ms)

  NoWait-polled :
      (free : Result (Unit {0})) (p : Result (Option (List Msg)))
      → NoWait (
          with_sem poll_sem free (perform fetched p) >>>= λ polled. elim polled [
            | none ↦ pure tt
            | some msgs ↦ (ok tt, start_jobs msgs)
          ])
  NoWait-polled (raise e) p = refl
  NoWait-polled (ok u) (raise e) = refl
  NoWait-polled (ok u) (ok none) = refl
  NoWait-polled (ok u) (ok (some ms)) = omega (arith, NoWait-start_jobs ms)

  NoWait-pull_and_handle : (r : Round Msg) → NoWait (pull_and_handle r)
  unfolding pull_and_handle
  NoWait-pull_and_handle r = NoWait-await_unlocked actor_sem r.actor_locked _ (
      NoWait-await_unlocked global_sem r.global_locked _
        (NoWait-polled r.poll_free (or_timeout r.messages)))

  NoWait-rounds : (rs : List (Round Msg)) → NoWait (rounds rs)
  unfolding rounds
  NoWait-rounds [] = refl
  NoWait-rounds (r ∷ rs) = NoWait-then _ _ (NoWait-pull_and_handle r) (NoWait-rounds rs)

module _ {Msg Schema Ser Handler Mw : Type 0} (a : Actor Schema Ser Handler Mw) (batch : ℕ)
    (waited unsubscription : Result (Unit {0})) (r : Round Msg) (rs : List (Round Msg))
    (durable stream : String) (named : consumer_name a ≡ ok durable)
    (streamed : stream_name a.event ≡ ok stream) where
  -- Whatever a listener that is no burst meets, and whatever its tasks do meanwhile, start others, end or
  -- fail: it starts every task that it is given, and at its end, with what happened until then, it cancels
  -- every task that started and has not ended. The tasks are numbered in the order in which they start.
  pub listen_supervised :
      (hs : List (List Event)) (h : List Event)
      → (front : List (Effect Msg)) × (s : Tasks) × ((listen a false batch
            (ok tt)
            waited
            unsubscription
            r
            rs).1
          ≡ front ++ (tasks_cancelled ∷ unsubscribed ∷ []))
        × (play hs front new ≡ ok s)
        × All
            (λ k. contains (cancel (all_happen h s)).cancelled k ≡ true)
            (unended (history hs front ++ h))
  unfolding poll
  listen_supervised hs h =
      let front = subscribed durable stream batch ∷ (poll false r rs waited).1 in
      let es = history hs front in
      let s = all_happen es new in
      let t = all_happen h s in
      let cancels : (k : ℕ)
          → contains (all_happen (es ++ h) new).live k ≡ true
          → contains (cancel t).cancelled k ≡ true =
        λ k there.
          let open_still : t.is_done ≡ false = all_happen-open h s (all_happen-open es new refl) in
          let runs : contains t.live k ≡ true = rw (← all_happen-append es h new) there in
          rw (cancel_lem t, open_still) (contains-append t.live t.cancelled k runs) in
      (
        front,
        s,
        listen_cleans_up a false batch waited unsubscription r rs durable stream named streamed,
        play-history hs front new (omega (arith, NoWait-rounds (r ∷ rs))) refl,
        All-map_of cancels (unended (es ++ h))
            (unended-runs (es ++ h) new (count_if is_start (es ++ h)) refl refl (omega arith)),
      )
