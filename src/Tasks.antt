-- ===== src/Tasks.antt =====
-- `Tasks` (walnats/_tasks.py): the supervised tasks are numbers. A task that ends is discarded by its
-- callback. `gather` of `wait` is over once all tasks that were there at its start are.
pub mod Histories
pub mod Waits
pub mod Verdicts
use walnats.Prelude.{
  ℕ, suc, Bool, true, false, not, Option, none, some, List, [], ◌∷◌, ◌++◌, ◌≡◌, contains, nat_eq,
  ◌==◌, if◌then◌else◌,
}
use walnats.Exceptions.{Exc, Result, ok, raise, ◌>>=◌}
use walnats.Events.Event.{assert}

-- `_tasks` and `_done`; `next` is the number of the next task, `cancelled` those that were cancelled.
pub record Tasks : Type 0 where
  pub live : List ℕ
  pub is_done : Bool
  pub next : ℕ
  pub cancelled : List ℕ

-- `__init__`
abbrev pub new : Tasks
new = record { live = []; is_done = false; next = 0; cancelled = [] }

unfoldable pub start : Tasks → Result Tasks
start s =
    assert (not s.is_done) >>= λ _. ok (record s { live = s.next ∷ s.live; next = suc s.next })

discard : ℕ → List ℕ → List ℕ
discard k [] = []
discard k (j ∷ js) = if j == k then discard k js else j ∷ discard k js

-- The callback of a task that is done.
unfoldable pub on_done : ℕ → Tasks → Tasks
unfolding discard
on_done k s = record s { live = discard k s.live }

cancel_all : List ℕ → List ℕ → List ℕ
cancel_all [] cancelled = cancelled
cancel_all (k ∷ ks) cancelled = k ∷ cancel_all ks cancelled

unfoldable pub cancel : Tasks → Tasks
unfolding cancel_all
cancel s = if s.is_done then s else record s { cancelled = cancel_all s.live s.cancelled }

-- What happens while something else waits: a task is started, one ends, or one ends by an exception.
pub data Event : Type 0 where
  starts : Event
  ends : ℕ → Event
  fails : ℕ → Exc → Event

-- A task that is started on a supervisor that is done fails the assertion, and nothing changes.
unfoldable pub happens : Event → Tasks → Tasks
unfolding start on_done
happens starts s = elim (start s) [ ok t ↦ t | raise e ↦ s ]
happens (ends k) s = on_done k s
happens (fails k e) s = on_done k s

unfoldable pub all_happen : List Event → Tasks → Tasks
unfolding happens
all_happen [] s = s
all_happen (e ∷ es) s = all_happen es (happens e s)

-- None of the tasks is there any more.
abbrev pub are_over : List ℕ → List ℕ → Bool
are_over [] live = true
are_over (k ∷ ks) live = if contains live k then false else are_over ks live

-- The first exception of the tasks that are waited for.
abbrev pub first_failure : List ℕ → List Event → Option Exc
first_failure ks [] = none
first_failure ks (fails k e ∷ es) = if contains ks k then some e else first_failure ks es
first_failure ks (_ ∷ es) = first_failure ks es

-- What `wait` comes to when these events happened since it began: it waits still (`ok false`), returns
-- (`ok true`), or raises what the first of its tasks that failed raised.
unfoldable pub wait : Tasks → List Event → Result Bool × Tasks
unfolding all_happen
wait s events = elim (assert (not s.is_done)) [
  | raise e ↦ (raise e, s)
  | ok _ ↦
      let t = all_happen events s in
      elim (first_failure s.live events) [
        | some e ↦ (raise e, t)
        | none ↦
            if are_over s.live t.live then (ok true, record t { is_done = true }) else (ok false, t)
      ]
]

-- Those of the tasks that are there still.
abbrev pub still : List ℕ → List ℕ → List ℕ
still [] live = []
still (k ∷ ks) live = if contains live k then k ∷ still ks live else still ks live

-- What `wait` comes to if it is cancelled after these events: unless it is over by then, `gather` cancels
-- those of its tasks that have not ended.
unfoldable pub interrupt : Tasks → List Event → Result Bool × Tasks
unfolding wait
interrupt s events =
    let w = wait s events in
    elim w.0 [
      | raise e ↦ w
      | ok true ↦ w
      | ok false ↦
          (raise Exc.cancelled, record w.1 { cancelled = still s.live w.1.live ++ w.1.cancelled })
    ]
