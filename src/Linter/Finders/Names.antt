-- ===== src/Linter/Finders/Names.antt =====
-- What the linter's checks of a name promise to the rest of the program.
use walnats.Prelude.{
  ℕ, String, ◌+◌, ◌≤◌, ◌<◌, ◌≡◌, refl, Bool, true, false, not, [], ◌++◌, arith, nat_beq, ltb,
  if◌then◌else◌, ◌==◌, string_eq,
}
use walnats.Prelude.Text.{str_len, any_char, all_chars, replace_char_absent}
use walnats.Exceptions.{ok}
use walnats.Events.Event.{BaseEvent, stream_name, subject_name}
use walnats.Linter.Tree.{Expr}
use walnats.Linter.Finders.{report, is_invalid, is_kebab, check_name}

no_dot : (s : String) → any_char is_invalid s ≡ false → any_char (λ x. nat_beq x b'.') s ≡ false
no_dot String.[] h = refl
no_dot (String.◌∷◌ c s) h = ground (arith, no_dot s)

parts :
    (empty long bad kebab : Bool) (e : Expr) (c1 c2 c3 c4 : ℕ)
    → report empty e c1
        ++ (report long e c2 ++ (if bad then report true e c3 else report (not kebab) e c4))
      ≡ []
    → (empty ≡ false) × (long ≡ false) × (bad ≡ false) × (kebab ≡ true)
unfolding report
parts empty long bad kebab e c1 c2 c3 c4 h = ground arith

nonempty : (s : String) → (s == "") ≡ false → 0 < str_len s
nonempty String.[] h = absurd (cc h)
nonempty (String.◌∷◌ c s) h = omega arith

-- A name without violations is not empty, has at most 64 characters, and these are of `[a-z0-9-]`.
pub clean_name :
    (base : ℕ) (e : Expr) (s : String)
    → check_name base e s ≡ []
    → (0 < str_len s)
      × (str_len s ≤ 64)
      × (any_char is_invalid s ≡ false)
      × (all_chars is_kebab s ≡ true)
unfolding check_name
clean_name base e s h =
    let (empty, long, bad, kebab) =
      parts (s == "") (ltb 64 (str_len s)) (any_char is_invalid s) (all_chars is_kebab s) e
        (base + 1) (base + 2) (base + 3) (base + 4) h in
    (nonempty s empty, ground arith, bad, kebab)

-- An event whose name has no violation has a stream, which is called as its subject.
pub stream_name_clean :
    {Schema Ser : Type 0} (base : ℕ) (e : Expr) (v : BaseEvent Schema Ser)
    → check_name base e v.name ≡ []
    → stream_name v ≡ ok (subject_name v)
unfolding stream_name
stream_name_clean base e v h =
    let (nonempty, short, valid, kebab) = clean_name base e v.name h in
    ground (arith, replace_char_absent b'.' "-" v.name (no_dot v.name valid))
