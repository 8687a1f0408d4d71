-- ===== src/Linter/Tree.antt =====
-- The nodes of Python's `ast` that the finders of walnats/_linter/_finders.py tell apart.
use walnats.Prelude.{ℕ, String, zero, suc, Option, none, some, ◌==◌, string_eq, if◌then◌else◌}

-- The value of a literal: a text, a number that is not negative, by its integral part, or another.
pub data Literal : Type 0 where
  text_value : String → Literal
  number : ℕ → Literal
  other_value : Literal

-- `lineno` and `col_offset`.
pub record Place : Type 0 where
  pub lineno : ℕ
  pub col_offset : ℕ

mutual
  pub data Expr : Type 0 where
    call : Place → Expr → Args → Keywords → Expr
    attribute : Place → Expr → String → Expr
    name : Place → String → Expr
    constant : Place → Literal → Expr
    unary_op : Place → Expr
    other_node : Place → Expr

  pub data Args : Type 0 where
    no_args : Args
    arg : Expr → Args → Args

  pub data Keywords : Type 0 where
    no_kwargs : Keywords
    keyword : String → Expr → Keywords → Keywords

abbrev pub place : Expr → Place
place (call p f a k) = p
place (attribute p e s) = p
place (name p s) = p
place (constant p l) = p
place (unary_op p) = p
place (other_node p) = p

-- `_get_class_name`
unfoldable pub get_class_name : Expr → Option String
get_class_name (attribute p (name q id) attr) = if id == "walnats" then some attr else none
get_class_name _ = none

abbrev pub nth_arg : Args → ℕ → Option Expr
nth_arg no_args i = none
nth_arg (arg e es) zero = some e
nth_arg (arg e es) (suc i) = nth_arg es i

abbrev pub find_keyword : Keywords → String → Option Expr
find_keyword no_kwargs k = none
find_keyword (keyword j e ks) k = if j == k then some e else find_keyword ks k

-- `_get_arg(node, index, name)`
unfoldable pub get_arg : Args → Keywords → ℕ → String → Option Expr
get_arg args keywords index k = elim (nth_arg args index) [
  | some e ↦ some e
  | none ↦ find_keyword keywords k
]
