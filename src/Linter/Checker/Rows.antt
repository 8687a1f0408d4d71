-- ===== src/Linter/Checker/Rows.antt =====
-- The rows that the checker gives to flake8.
use walnats.Prelude.{suc, ap, ◌≡◌, ◌≢◌, refl, none, List, [], ◌∷◌, map, arith, All, length}
use walnats.Linter.Tree.{Expr}
use walnats.Linter.Finders.{Violation, get_violations}
use walnats.Linter.Finders.Messages.{HasMessage, get_violations-HasMessage}
use walnats.Linter.Checker.{row, run}

row_of_message : (v : Violation) → HasMessage v → row v ≢ none
unfolding row
row_of_message v h = ground (arith, h)

rows_of_messages : (vs : List Violation) → All HasMessage vs → All (λ r. r ≢ none) (map row vs)
rows_of_messages [] h = tt
rows_of_messages (v ∷ vs) h = (row_of_message v h.0, rows_of_messages vs h.1)

length-rows : (vs : List Violation) → length (map row vs) ≡ length vs
length-rows [] = refl
length-rows (v ∷ vs) = ap suc (length-rows vs)

-- On any tree the checker gives one row for each violation, and never fails to find the message.
pub run_total :
    (nodes : List Expr)
    → (length (run nodes) ≡ length (get_violations nodes)) × All (λ r. r ≢ none) (run nodes)
unfolding run
run_total nodes = (
  length-rows (get_violations nodes),
  rows_of_messages (get_violations nodes) (get_violations-HasMessage nodes),
)
