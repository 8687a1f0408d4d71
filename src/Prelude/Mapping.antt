-- ===== src/Prelude/Mapping.antt =====
-- Dictionaries that are filled entry by entry, and what they hold whatever the order of their entries.
use mathlib.Core.Path.{◌≡◌, refl, ap, ◌∙◌, sym}
use mathlib.Core.Logic.{inl, inr}
use mathlib.Core.Option.{Option, none, some}
use mathlib.Core.List.{List, [], ◌∷◌, ◌++◌}
use mathlib.Core.Quot
use mathlib.Core.Quot.{Quot}
use Prim.Native.String.{String}
use native.Mathlib.Omega.{arith}
use text.Mathlib.TextEquality.{eq_iff}
use package.walnats.Prelude.Tests.{◌==◌, string_eq, Bool-cases}
use package.walnats.Prelude.Dict.{Dict, lookup, insert, update, lookup-insert}

-- Two dictionaries give the same for every key.
abbrev pub SameEntries : {V : Type 0} → Dict V → Dict V → Type 0
SameEntries d e = (k : String) → lookup k d ≡ lookup k e

-- A dictionary without the order of its entries.
abbrev pub Mapping : Type 0 → Type 0
Mapping V = Quot (SameEntries {V = V})

abbrev pub mapping : {V : Type 0} → Dict V → Mapping V
mapping d = Quot.mk d

pub mapping-eq : {V : Type 0} (d e : Dict V) → SameEntries d e → mapping d ≡ mapping e
mapping-eq d e h = Quot.sound h

module _ {V : Type 0} where
  -- No key is listed twice.
  abbrev pub Unique : Dict V → Type 0
  Unique [] = Unit
  Unique ((k, v) ∷ d) = (lookup k d ≡ none) × Unique d

  insert-Unique : (k : String) (v : V) (d : Dict V) → Unique d → Unique (insert k v d)
  unfolding insert lookup
  insert-Unique k v [] u = (refl, tt)
  insert-Unique k v ((j, w) ∷ d) u = elim (Bool-cases (j == k)) [
    | inl same ↦ rw same (ap (λ i. lookup i d) (sym ((eq_iff j k).0 same)) ∙ u.0, u.1)
    | inr other ↦
        let apart : lookup j (insert k v d) ≡ none =
          ground (arith, lookup-insert k j v d, eq_iff j k, eq_iff k j, u.0) in
        rw other (apart, insert-Unique k v d u.1)
  ]

  -- The first value that there is.
  abbrev pub first_of : Option V → Option V → Option V
  first_of none o = o
  first_of (some v) o = some v

  -- What is in the second dictionary counts.
  pub lookup-update :
      (k : String) (d e : Dict V)
      → Unique e
      → lookup k (update d e) ≡ first_of (lookup k e) (lookup k d)
  unfolding update lookup
  lookup-update k d [] u = refl
  lookup-update k d ((j, w) ∷ e) u = elim (Bool-cases (j == k)) [
    | inl same ↦
        let absent : lookup k e ≡ none = ap (λ i. lookup i e) (sym ((eq_iff j k).0 same)) ∙ u.0 in
        ground (arith, same, absent, lookup-update k (insert j w d) e u.1, lookup-insert j k w d)
    | inr other ↦ ground (arith, other, lookup-update k (insert j w d) e u.1, lookup-insert j k w d)
  ]

module _ {A V : Type 0} (key : A → String) (value : A → V) where
  -- `for a in as: d[key(a)] = value(a)`
  abbrev pub set_all : List A → Dict V → Dict V
  set_all [] d = d
  set_all (a ∷ as') d = set_all as' (insert (key a) (value a) d)

  pub set_all-append :
      (xs ys : List A) (d : Dict V) → set_all (xs ++ ys) d ≡ set_all ys (set_all xs d)
  set_all-append [] ys d = refl
  set_all-append (x ∷ xs) ys d = set_all-append xs ys (insert (key x) (value x) d)

  pub set_all-Unique : (xs : List A) (d : Dict V) → Unique d → Unique (set_all xs d)
  set_all-Unique [] d u = u
  set_all-Unique (x ∷ xs) d u =
      set_all-Unique xs (insert (key x) (value x) d) (insert-Unique (key x) (value x) d u)

  pub lookup-set_all :
      (k : String) (xs : List A) (d : Dict V)
      → lookup k (set_all xs d) ≡ first_of (lookup k (set_all xs [])) (lookup k d)
  unfolding lookup
  lookup-set_all k [] d = refl
  lookup-set_all k (x ∷ xs) d = ground (
    arith,
    lookup-set_all k xs (insert (key x) (value x) d),
    lookup-set_all k xs (insert (key x) (value x) []),
    lookup-insert (key x) k (value x) d,
    lookup-insert (key x) k (value x) [],
  )

  -- An update by entries that were set in an empty dictionary is the same as to set them at once.
  pub update-set_all :
      (xs : List A) (d : Dict V) → SameEntries (update d (set_all xs [])) (set_all xs d)
  update-set_all xs d k =
      lookup-update k d (set_all xs []) (set_all-Unique xs [] tt) ∙ sym (lookup-set_all k xs d)

  pub set_all-SameEntries :
      (xs : List A) (d e : Dict V) → SameEntries d e → SameEntries (set_all xs d) (set_all xs e)
  set_all-SameEntries xs d e h k = ground (arith, lookup-set_all k xs d, lookup-set_all k xs e, h k)
