-- ===== src/Linter/Finders.antt =====
-- walnats/_linter/_finders.py and _violation.py.
pub mod Messages
pub mod Names
pub mod Streams
use walnats.Prelude.{
  ℕ, zero, suc, String, ◌+◌, Bool, true, false, not, ◌||◌, ◌&&◌, Option, none, some, List, [], ◌∷◌,
  ◌++◌, ltb, leb, nat_beq, ◌==◌, nat_eq, string_eq, if◌then◌else◌,
}
use walnats.Prelude.Text.{str_len, any_char, all_chars}
use walnats.Linter.Tree.{
  Expr, Args, Keywords, call, constant, unary_op, text_value, number, get_class_name, get_arg,
}

pub record Violation : Type 0 where
  pub node : Expr
  pub code : ℕ

-- `MESSAGES[self.code]`; `none` stands for a `KeyError`.
abbrev pub messages : List (ℕ × String)
messages =
    (1, "event name is empty")
    ∷ (2, "event name is too long")
    ∷ (3, "event name has invalid symbols")
    ∷ (4, "event name should use kebab-case")
    ∷ (5, "event description is empty")
    ∷ (6, "event description is too long")
    ∷ (11, "limit must be positive")
    ∷ (12, "age must be in seconds")
    ∷ (21, "actor name is empty")
    ∷ (22, "actor name is too long")
    ∷ (23, "actor name has invalid symbols")
    ∷ (24, "actor name should use kebab-case")
    ∷ (25, "actor description is empty")
    ∷ (26, "actor description is too long")
    ∷ []

abbrev pub find_message : List (ℕ × String) → ℕ → Option String
find_message [] code = none
find_message ((c, m) ∷ rest) code = if c == code then some m else find_message rest code

unfoldable pub message : ℕ → Option String
message code = find_message messages code

-- A character of `' \t\r\n\f.*>'`.
abbrev pub is_invalid : ℕ → Bool
is_invalid c =
    nat_beq c 32
    || nat_beq c 9
    || nat_beq c 13
    || nat_beq c 10
    || nat_beq c 12
    || nat_beq c b'.'
    || nat_beq c b'*'
    || nat_beq c b'>'

-- A character of `[a-z0-9-]`.
abbrev pub is_kebab : ℕ → Bool
is_kebab c = (leb b'a' c && leb c b'z') || (leb b'0' c && leb c b'9') || nat_beq c b'-'

-- `if test: yield Violation(node, code)`
unfoldable pub report : Bool → Expr → ℕ → List Violation
report true e code = record { node = e; code = code } ∷ []
report false e code = []

-- The characters of a name: the second check is made only if the first finds nothing.
check_symbols : ℕ → Expr → String → List Violation
check_symbols base e s =
    if any_char is_invalid s
    then report true e (base + 3)
    else report (not (all_chars is_kebab s)) e (base + 4)

-- The checks of a name. `base` is 0 for an event and 20 for an actor.
unfoldable pub check_name : ℕ → Expr → String → List Violation
unfolding check_symbols report
check_name base e s =
    report (s == "") e (base + 1)
    ++ (report (ltb 64 (str_len s)) e (base + 2) ++ check_symbols base e s)

unfoldable pub check_description : ℕ → Expr → String → List Violation
unfolding report
check_description base e s =
    report (s == "") e (base + 5) ++ report (ltb 4096 (str_len s)) e (base + 6)

-- `isinstance(node, ast.Constant) and isinstance(node.value, str)`
abbrev pub on_text : (Expr → String → List Violation) → Option Expr → List Violation
on_text check none = []
on_text check (some (constant p (text_value s))) = check (constant p (text_value s)) s
on_text check (some e) = []

-- `_check_event` and `_check_actor`, which differ in their codes.
unfoldable pub check_names : ℕ → Args → Keywords → List Violation
unfolding check_name check_description
check_names base args keywords =
    on_text (check_name base) (get_arg args keywords 0 "name")
    ++ on_text (check_description base) (get_arg args keywords 3 "description")

abbrev pub check_event : Args → Keywords → List Violation
check_event args keywords = check_names 0 args keywords

abbrev pub check_actor : Args → Keywords → List Violation
check_actor args keywords = check_names 20 args keywords

-- A negative number is a unary operation on a literal.
abbrev pub on_unary : Option Expr → List Violation
on_unary none = []
on_unary (some (unary_op p)) = report true (unary_op p) 11
on_unary (some e) = []

abbrev pub on_age : Option Expr → List Violation
on_age none = []
on_age (some (constant p (number n))) = report (leb 1000000000 n) (constant p (number n)) 12
on_age (some e) = []

abbrev pub limit_names : List String
limit_names = "age" ∷ "consumers" ∷ "messages" ∷ "bytes" ∷ "message_size" ∷ []

check_signs : Args → Keywords → ℕ → List String → List Violation
check_signs args keywords index [] = []
check_signs args keywords index (name ∷ names) =
    on_unary (get_arg args keywords index name) ++ check_signs args keywords (index + 1) names

-- `_check_limits`
unfoldable pub check_limits : Args → Keywords → List Violation
unfolding check_signs report
check_limits args keywords =
    check_signs args keywords 0 limit_names ++ on_age (get_arg args keywords 0 "age")

abbrev check_class : String → Args → Keywords → List Violation
check_class name args keywords =
    if name == "Event"
    then check_event args keywords
    else if name == "Actor"
    then check_actor args keywords
    else if name == "Limits"
    then check_limits args keywords
    else []

check_node : Expr → List Violation
check_node (call p f args keywords) = elim (get_class_name f) [
  | none ↦ []
  | some name ↦ check_class name args keywords
]
check_node _ = []

-- `get_violations`, over the nodes that `ast.walk(tree)` gives.
unfoldable pub get_violations : List Expr → List Violation
unfolding check_node
get_violations [] = []
get_violations (e ∷ es) = check_node e ++ get_violations es
