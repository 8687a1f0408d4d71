-- ===== src/Decorators/FilterTime/Matching.antt =====
-- When `filter_time` lets the handler run.
use walnats.Prelude.{ℕ, ◌≡◌, Bool, true, ◌||◌, ◌&&◌, List, [], ◌∷◌, ltb, contains, nat_eq, ◌==◌}
use walnats.Decorators.FilterTime.{Part, anything, exactly, one_of, FilterTime}

-- An int that the assertion of `_patterns` allows.
abbrev pub IsAllowed : Part → Type 0
IsAllowed (exactly n) = (ltb n 60 || ltb 2021 n) ≡ true
IsAllowed _ = Unit

-- A value fits an argument: an empty iterable is as good as none.
abbrev pub fits : Part → ℕ → Bool
fits anything v = true
fits (exactly n) v = n == v
fits (one_of []) v = true
fits (one_of (n ∷ ns)) v = contains (n ∷ ns) v

abbrev pub all_fit : List Part → List ℕ → Bool
all_fit (p ∷ ps) (v ∷ vs) = fits p v && all_fit ps vs
all_fit _ _ = true
