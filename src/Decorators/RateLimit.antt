-- ===== src/Decorators/RateLimit.antt =====
-- `rate_limit` (walnats/decorators/_rate_limit.py): the wrapper and `_release` as steps of tasks that
-- share the semaphore. Times are natural numbers of one unit. A sleep is over at its time or later, and
-- `acquire` goes on only while the semaphore's value is not 0.
pub mod Window
pub mod Progress
use walnats.Prelude.{ℕ, ◌+◌, ◌-◌, ◌<◌, ◌≤◌, ◌≡◌, List, [], ◌∷◌, ◌++◌, Bool, ltb, ◌&&◌}
use walnats.Exceptions.{Result, ok, raise, exception, ◌>>=◌}
use walnats.Events.Event.{assert}

pub record RateLimit : Type 0 where
  pub max_jobs : ℕ
  pub period : ℕ

-- The assertions of `__call__`.
unfoldable pub call : RateLimit → Result (Unit {0})
call r = assert (ltb 0 r.max_jobs) >>= λ _. assert (ltb 0 r.period)

-- The value of the semaphore, the moments until which the tasks of `_release` sleep, the moments at which
-- the handler was called, the last one first, and the time.
pub record State : Type 0 where
  pub value : ℕ
  pub sleeping : List ℕ
  pub starts : List ℕ
  pub now : ℕ

-- `BoundedSemaphore(self.max_jobs)`, when the event loop's clock says `t`.
abbrev pub initial : RateLimit → ℕ → State
initial r t = record { value = r.max_jobs; sleeping = []; starts = []; now = t }

-- `release` of a bounded semaphore raises above its bound.
abbrev pub release : RateLimit → State → Result ℕ
release r s = elim (ltb s.value r.max_jobs) [
  | Bool.true ↦ ok (s.value + 1)
  | Bool.false ↦ raise (exception "ValueError")
]

pub data Step (r : RateLimit) (s : State) (t : State) : Type 0 where
  -- Time passes.
  passes : (later : ℕ) → s.now ≤ later → t ≡ record s { now = later } → Step r s t
  -- A wrapper acquires, creates the task of `_release` and calls the handler.
  starts_handler :
      0 < s.value
      → t ≡ record s {
        value = s.value - 1;
        sleeping = (s.now + r.period) ∷ s.sleeping;
        starts = s.now ∷ s.starts;
      }
      → Step r s t
  -- A task of `_release` wakes up and releases.
  wakes :
      (front back : List ℕ) (until value : ℕ)
      → s.sleeping ≡ front ++ (until ∷ back)
      → until ≤ s.now
      → release r s ≡ ok value
      → t ≡ record s { value = value; sleeping = front ++ back }
      → Step r s t

pub data Reach (r : RateLimit) : State → Type 0 where
  first : (t : ℕ) → Reach r (initial r t)
  next : {s t : State} → Reach r s → Step r s t → Reach r t
