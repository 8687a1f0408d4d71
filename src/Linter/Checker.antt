-- ===== src/Linter/Checker.antt =====
-- `Flake8Checker` of walnats/_linter/_checker.py.
pub mod Rows
use walnats.Prelude.{
  ℕ, zero, suc, String, ◌<>◌, ◌/◌, ◌%◌, ltb, Option, none, some, List, [], ◌∷◌, map, if◌then◌else◌,
}
use walnats.Linter.Tree.{Expr, Place, place}
use walnats.Linter.Finders.{Violation, message, get_violations}

pub record Row : Type 0 where
  pub lineno : ℕ
  pub col_offset : ℕ
  pub content : String

abbrev nth_text : List String → ℕ → String
nth_text [] n = ""
nth_text (s ∷ ss) zero = s
nth_text (s ∷ ss) (suc n) = nth_text ss n

-- The decimal text of a number below 10.
digit : ℕ → String
digit n = nth_text ("0" ∷ "1" ∷ "2" ∷ "3" ∷ "4" ∷ "5" ∷ "6" ∷ "7" ∷ "8" ∷ "9" ∷ []) n

-- `{code:02}`, for a code below 100.
unfoldable pub two_digits : ℕ → String
unfolding digit
two_digits n = digit (n / 10) <> digit (n % 10)

-- `yield v.node.lineno, v.node.col_offset, text, type(self)`; `none` stands for a `KeyError`.
unfoldable pub row : Violation → Option Row
unfolding two_digits
row v = elim (message v.code) [
  | none ↦ none
  | some m ↦ some (record {
    lineno = (place v.node).lineno;
    col_offset = (place v.node).col_offset;
    content = "WNS0" <> two_digits v.code <> " " <> m;
  })
]

unfoldable pub run : List Expr → List (Option Row)
unfolding row
run nodes = map row (get_violations nodes)
