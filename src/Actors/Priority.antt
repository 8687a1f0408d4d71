-- ===== src/Actors/Priority.antt =====
-- `Priority` (walnats/_actors/_priority.py), and `async with` on semaphores.
use walnats.Prelude.{ℕ, zero, suc, [], ◌∷◌, ◌++◌}
use walnats.Exceptions.{Result, ok, raise}
use walnats.Effects.{Act, ◌>>◌, pure, perform}

pub data Priority : Type 0 where
  high normal low : Priority

-- `self.value`
abbrev pub value : Priority → ℕ
value high = 0
value normal = 1
value low = 2

pub data Sem : Type 0 where
  actor_sem global_sem : Sem

-- What happens to semaphores. `yielded` is `await asyncio.sleep(0)`.
pub data SemEffect : Type 0 where
  acquired released : Sem → SemEffect
  yielded : SemEffect

-- `async with sem: body`, from the outcome of `sem.acquire()`, which can be cancelled.
unfoldable pub with_sem {ℓ κ} :
    {E : Type ℓ} {A : Type κ} → (SemEffect → E) → Sem → Result (Unit {0}) → Act E A → Act E A
with_sem inject sem (raise e) body = (raise e, [])
with_sem inject sem (ok _) body =
    (body.0, inject (acquired sem) ∷ (body.1 ++ (inject (released sem) ∷ [])))

module _ {ℓ} {E : Type ℓ} (inject : SemEffect → E) where
  -- The turns that an actor with a lower priority waits. `outcome n` are the outcomes of the acquisition
  -- and of the sleep with n turns left after this one.
  unfoldable pub turns : ℕ → (ℕ → Result (Unit {0}) × Result (Unit {0})) → Act E (Unit {0})
  turns zero outcome = pure tt
  turns (suc n) outcome =
      let o = outcome n in
      let rest = turns n outcome in
      with_sem inject global_sem o.0 (perform (inject yielded) o.1) >> rest

  -- `async with priority.acquire(sem): body`
  unfoldable pub acquire {κ} :
      {A : Type κ}
      → Priority
      → (ℕ → Result (Unit {0}) × Result (Unit {0}))
      → Result (Unit {0})
      → Act E A
      → Act E A
  acquire p outcome last body = turns (value p) outcome >> with_sem inject global_sem last body
