-- ===== src/Linter/Finders/Messages.antt =====
-- Every violation has a message.
use walnats.Prelude.{
  ℕ, String, ◌+◌, ◌≢◌, Bool, true, false, Option, none, some, List, [], ◌∷◌, ◌++◌, All, All-append,
  Bool-cases, Option-cases, inl, inr, ◌==◌, string_eq,
}
use walnats.Prelude.Text.{any_char}
use walnats.Linter.Tree.{
  Expr, Args, Keywords, call, constant, unary_op, text_value, number, get_class_name, get_arg,
}
use walnats.Linter.Finders.{
  Violation, message, report, is_invalid, check_symbols, check_name, check_description, check_names,
  on_text, on_unary, on_age, check_signs, limit_names, check_limits, check_class, check_node,
  get_violations,
}

-- The violation's `message` is no `KeyError`.
abbrev pub HasMessage : Violation → Type 0
HasMessage v = message v.code ≢ none

abbrev Known : ℕ → Type 0
Known code = message code ≢ none

-- All violations of a list have a message.
pub Documented : List Violation → Type 0
Documented vs = All HasMessage vs

none_found : Documented []
unfolding Documented
none_found = tt

known : (b : Bool) (e : Expr) (code : ℕ) → Known code → Documented (report b e code)
unfolding Documented report
known true e code h = (h, tt)
known false e code h = tt

joined : (xs ys : List Violation) → Documented xs → Documented ys → Documented (xs ++ ys)
unfolding Documented
joined xs ys before after = All-append HasMessage xs ys (after, before)

ruleset rules = (none_found, known, joined)

-- The codes of the checks of a name and of a description are in the table.
record KnownCodes (base : ℕ) : Type 0 where
  pub c1 : Known (base + 1)
  pub c2 : Known (base + 2)
  pub c3 : Known (base + 3)
  pub c4 : Known (base + 4)
  pub c5 : Known (base + 5)
  pub c6 : Known (base + 6)

module _ (base : ℕ) (k : KnownCodes base) where
  check_symbols-Documented : (e : Expr) (s : String) → Documented (check_symbols base e s)
  unfolding check_symbols
  check_symbols-Documented e s = elim (Bool-cases (any_char is_invalid s)) [
    | inl bad ↦ rw bad (search (rules, k.c3))
    | inr good ↦ rw good (search (rules, k.c4))
  ]

  check_name-Documented : (e : Expr) (s : String) → Documented (check_name base e s)
  check_name-Documented e s =
      unfold check_name in search (rules, k.c1, k.c2, check_symbols-Documented)

  check_description-Documented : (e : Expr) (s : String) → Documented (check_description base e s)
  check_description-Documented e s = unfold check_description in search (rules, k.c5, k.c6)

  on_text-Documented :
      (check : Expr → String → List Violation)
      → ((e : Expr) (s : String) → Documented (check e s))
      → (o : Option Expr) → Documented (on_text check o)
  on_text-Documented check h none = none_found
  on_text-Documented check h (some (constant p (text_value s))) = h (constant p (text_value s)) s
  on_text-Documented check h (some _) = none_found

  check_names-Documented :
      (args : Args) (keywords : Keywords) → Documented (check_names base args keywords)
  unfolding check_names
  check_names-Documented args keywords =
      joined _ _
        (on_text-Documented (check_name base) check_name-Documented
          (get_arg args keywords 0 "name"))
        (on_text-Documented (check_description base) check_description-Documented
          (get_arg args keywords 3 "description"))

on_unary-Documented : (o : Option Expr) → Documented (on_unary o)
unfolding message
on_unary-Documented none = none_found
on_unary-Documented (some (unary_op p)) = known true _ 11 (λ e. cc)
on_unary-Documented (some _) = none_found

on_age-Documented : (o : Option Expr) → Documented (on_age o)
unfolding message
on_age-Documented none = none_found
on_age-Documented (some (constant p (number n))) = known _ _ 12 (λ e. cc)
on_age-Documented (some _) = none_found

event_codes : KnownCodes 0
unfolding message
event_codes = record {
  c1 = λ e. cc;
  c2 = λ e. cc;
  c3 = λ e. cc;
  c4 = λ e. cc;
  c5 = λ e. cc;
  c6 = λ e. cc;
}

actor_codes : KnownCodes 20
unfolding message
actor_codes = record {
  c1 = λ e. cc;
  c2 = λ e. cc;
  c3 = λ e. cc;
  c4 = λ e. cc;
  c5 = λ e. cc;
  c6 = λ e. cc;
}

module _ (args : Args) (keywords : Keywords) where
  check_signs-Documented :
      (index : ℕ) (names : List String) → Documented (check_signs args keywords index names)
  unfolding check_signs
  check_signs-Documented index [] = none_found
  check_signs-Documented index (n ∷ names) =
      joined _ _ (on_unary-Documented _) (check_signs-Documented (index + 1) names)

  check_limits-Documented : Documented (check_limits args keywords)
  unfolding check_limits
  check_limits-Documented =
      joined _ _ (check_signs-Documented 0 limit_names)
        (on_age-Documented (get_arg args keywords 0 "age"))

  check_class-Documented : (n : String) → Documented (check_class n args keywords)
  check_class-Documented n = elim (Bool-cases (n == "Event")) [
    | inl event ↦ rw event (check_names-Documented 0 event_codes args keywords)
    | inr other ↦ rw other (elim (Bool-cases (n == "Actor")) [
      | inl actor ↦ rw actor (check_names-Documented 20 actor_codes args keywords)
      | inr neither ↦ rw neither (elim (Bool-cases (n == "Limits")) [
        | inl limits ↦ rw limits check_limits-Documented
        | inr unknown ↦ rw unknown none_found
      ])
    ])
  ]

check_node-Documented : (e : Expr) → Documented (check_node e)
unfolding check_node
check_node-Documented (call p f args keywords) = elim (Option-cases (get_class_name f)) [
  | inl absent ↦ rw (absent, check_node) none_found
  | inr (n, found) ↦ rw (found, check_node) (check_class-Documented args keywords n)
]
check_node-Documented _ = none_found

-- Every violation that is found in any tree has a message in the table.
pub get_violations-HasMessage : (nodes : List Expr) → All HasMessage (get_violations nodes)
unfolding get_violations Documented
get_violations-HasMessage [] = tt
get_violations-HasMessage (e ∷ es) =
    joined _ _ (check_node-Documented e) (get_violations-HasMessage es)
