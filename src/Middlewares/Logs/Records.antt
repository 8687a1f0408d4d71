-- ===== src/Middlewares/Logs/Records.antt =====
-- What the log middlewares write.
use walnats.Prelude.{◌≡◌, refl, true, not, nat_eq, ◌==◌, arith}
use walnats.Context.{Context, Msg, attempts}
use walnats.Context.Attempts.{attempts_bounds}
use walnats.Middlewares.Logs.{text_log}

always_shown : {Bytes : Type 0} (m : Msg Bytes) → not (attempts m == 0) ≡ true
always_shown m = ground (arith, attempts_bounds m)

module _ {Bytes T : Type 0} where
  -- The text that is logged at a start is the same for any two deliveries to one actor: it does not
  -- tell the attempt.
  pub text_attempt_lost :
      (c d : Context Bytes T)
      → c.actor ≡ d.actor
      → (text_log.start c tt).1 ≡ (text_log.start d tt).1
  unfolding text_log
  text_attempt_lost c d same = rw (always_shown c.msg, always_shown d.msg, same) refl
