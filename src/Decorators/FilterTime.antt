-- ===== src/Decorators/FilterTime.antt =====
-- `filter_time` (walnats/decorators/_filter_time.py).
pub mod Matching
use walnats.Prelude.{
  ℕ, ◌≡◌, ◌↔◌, Bool, true, false, ◌||◌, ◌&&◌, not, List, [], ◌∷◌, ltb, contains, nat_eq, ◌==◌,
  arith, if◌then◌else◌,
}
use walnats.Exceptions.{Result, ok, raise, ◌>>=◌}
use walnats.Events.Event.{assert}

-- An argument: `None`, an int or an iterable of ints.
pub data Part : Type 0 where
  anything : Part
  exactly : ℕ → Part
  one_of : List ℕ → Part

pub record FilterTime : Type 0 where
  pub year : Part
  pub month : Part
  pub day : Part
  pub hour : Part
  pub minute : Part

-- The first five items of `dt.timetuple()`.
pub record TimeTuple : Type 0 where
  pub year : ℕ
  pub month : ℕ
  pub day : ℕ
  pub hour : ℕ
  pub minute : ℕ

-- One round of the loop of `_patterns`: the set, as a list.
subparts : Part → Result (List ℕ)
subparts anything = ok []
subparts (exactly n) = assert (ltb n 60 || ltb 2021 n) >>= λ _. ok (n ∷ [])
subparts (one_of ns) = ok ns

unfoldable pub patterns : List Part → Result (List (List ℕ))
unfolding subparts
patterns [] = ok []
patterns (p ∷ ps) = let rest = patterns ps in subparts p >>= λ s. rest >>= λ ss. ok (s ∷ ss)

-- `pattern and value not in pattern`
abbrev excludes : List ℕ → ℕ → Bool
excludes [] v = false
excludes (n ∷ ns) v = not (contains (n ∷ ns) v)

-- The loop of the wrapper: whether it comes to the call of the handler.
abbrev passes : List (List ℕ) → List ℕ → Bool
passes (p ∷ ps) (v ∷ vs) = if excludes p v then false else passes ps vs
passes _ _ = true

abbrev parts_of : FilterTime → List Part
parts_of f = f.year ∷ f.month ∷ f.day ∷ f.hour ∷ f.minute ∷ []

abbrev values_of : TimeTuple → List ℕ
values_of t = t.year ∷ t.month ∷ t.day ∷ t.hour ∷ t.minute ∷ []

-- Whether the wrapper calls the handler.
unfoldable pub runs : FilterTime → TimeTuple → Result Bool
unfolding patterns
runs f t = patterns (parts_of f) >>= λ ps. ok (passes ps (values_of t))
