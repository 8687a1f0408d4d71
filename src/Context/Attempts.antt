-- ===== src/Context/Attempts.antt =====
-- `BaseContext.attempts` of walnats/_context.py.
use walnats.Prelude.{ℕ, suc, ◌≤◌, ◌≡◌, true, none, some, arith}
use walnats.Context.{Msg, attempts, delivered, truthy, get_header, header_delay}

module _ {Bytes : Type 0} (m : Msg Bytes) where
  -- The number of attempts is never zero, and never more than the deliveries.
  pub attempts_bounds : (1 ≤ attempts m) × (attempts m ≤ delivered m.num_delivered)
  unfolding attempts
  attempts_bounds = ground arith

  -- A delayed message that was delivered n + 2 times counts as many attempts as the same message
  -- without headers delivered n + 1 times: the delivery that only put it back is not counted.
  pub attempts_delayed :
      (n : ℕ)
      → m.num_delivered ≡ some (suc (suc n))
      → truthy (get_header m header_delay) ≡ true
      → attempts m ≡ attempts (record m { num_delivered = some (suc n); headers = none })
  unfolding attempts get_header
  attempts_delayed n d h = ground arith
