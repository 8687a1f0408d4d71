-- ===== src/Prelude/Lists.antt =====
-- Lists measured by native numbers, and the list functions and predicates that the parts share.
use Prim.Native.Nat.{ℕ, zero, suc, ◌+◌}
use mathlib.Core.Path.{◌≡◌, refl, ap, ◌∙◌}
use mathlib.Core.Bool.{Bool, true, false, ◌||◌, ◌&&◌}
use mathlib.Core.Option.{Option, none, some}
use mathlib.Core.List.{List, [], ◌∷◌, ◌++◌}
use native.Mathlib.Omega.{arith}
use package.walnats.Prelude.Tests.{Eq, ◌==◌}

module _ {ℓ} {A : Type ℓ} where
  abbrev pub length : List A → ℕ
  length [] = 0
  length (x ∷ xs) = suc (length xs)

  abbrev pub get_elem? : List A → ℕ → Option A
  get_elem? [] i = none
  get_elem? (x ∷ xs) zero = some x
  get_elem? (x ∷ xs) (suc i) = get_elem? xs i

  abbrev pub get_or : List A → ℕ → A → A
  get_or [] i d = d
  get_or (x ∷ xs) zero d = x
  get_or (x ∷ xs) (suc i) d = get_or xs i d

  abbrev pub take : ℕ → List A → List A
  take zero xs = []
  take (suc n) [] = []
  take (suc n) (x ∷ xs) = x ∷ take n xs

  abbrev pub drop : ℕ → List A → List A
  drop zero xs = xs
  drop (suc n) [] = []
  drop (suc n) (x ∷ xs) = drop n xs

  pub length-append : (xs ys : List A) → length (xs ++ ys) ≡ length xs + length ys
  length-append [] ys = omega arith
  length-append (x ∷ xs) ys = omega (arith, length-append xs ys)

  pub take-append : (xs ys : List A) → take (length xs) (xs ++ ys) ≡ xs
  take-append [] ys = refl
  take-append (x ∷ xs) ys = ap (λ t. x ∷ t) (take-append xs ys)

  pub drop-append : (xs ys : List A) → drop (length xs) (xs ++ ys) ≡ ys
  drop-append [] ys = refl
  drop-append (x ∷ xs) ys = drop-append xs ys

  pub take-append-drop : (n : ℕ) (xs : List A) → take n xs ++ drop n xs ≡ xs
  take-append-drop zero xs = refl
  take-append-drop (suc n) [] = refl
  take-append-drop (suc n) (x ∷ xs) = ap (λ t. x ∷ t) (take-append-drop n xs)

  -- Every element has the property.
  abbrev pub All {κ} : (A → Type κ) → List A → Type κ
  All P [] = Unit
  All P (x ∷ xs) = P x × All P xs

  pub All-append {κ} :
      (P : A → Type κ) (front back : List A) → All P back × All P front → All P (front ++ back)
  All-append P [] back all = all.0
  All-append P (a ∷ front) back all = (all.1.0, All-append P front back (all.0, all.1.1))

  pub All-map_of {κ ι} :
      {P : A → Type κ} {Q : A → Type ι}
      → ((a : A) → P a → Q a)
      → (xs : List A) → All P xs
      → All Q xs
  All-map_of f [] h = tt
  All-map_of f (x ∷ xs) h = (f x h.0, All-map_of f xs h.1)

module _ {ℓ} {A : Type ℓ} where
  -- Python's `any(...)`.
  abbrev pub any : (A → Bool) → List A → Bool
  any p [] = false
  any p (x ∷ xs) = p x || any p xs

  abbrev pub all : (A → Bool) → List A → Bool
  all p [] = true
  all p (x ∷ xs) = p x && all p xs

  -- How many elements pass the test.
  abbrev pub count_if : (A → Bool) → List A → ℕ
  count_if p [] = 0
  count_if p (x ∷ xs) = (elim (p x) [ true ↦ 1 | false ↦ 0 ]) + count_if p xs

  pub count_if-append :
      (p : A → Bool) (xs ys : List A) → count_if p (xs ++ ys) ≡ count_if p xs + count_if p ys
  count_if-append p [] ys = omega arith
  count_if-append p (x ∷ xs) ys = omega (arith, count_if-append p xs ys)

-- A list with the item in front, where there is one.
module _ {κ} {B : Type κ} where
  abbrev pub prepend : Option B → List B → List B
  prepend none ys = ys
  prepend (some y) ys = y ∷ ys

  prepend-append : (o : Option B) (xs ys : List B) → prepend o (xs ++ ys) ≡ prepend o xs ++ ys
  prepend-append none xs ys = refl
  prepend-append (some y) xs ys = refl

-- What a partial function gives of the items of a list, in their order.
module _ {ℓ κ} {A : Type ℓ} {B : Type κ} where
  abbrev pub collect : (A → Option B) → List A → List B
  collect f [] = []
  collect f (x ∷ xs) = prepend (f x) (collect f xs)

  pub collect-append :
      (f : A → Option B) (xs ys : List A) → collect f (xs ++ ys) ≡ collect f xs ++ collect f ys
  collect-append f [] ys = refl
  collect-append f (x ∷ xs) ys =
      ap (prepend (f x)) (collect-append f xs ys)
      ∙ prepend-append (f x) (collect f xs) (collect f ys)

  -- Nothing comes of a list with no item that passes a test that all items with a result pass.
  pub collect-nil :
      (f : A → Option B) (p : A → Bool) (fails : (x : A) → p x ≡ false → f x ≡ none)
      → (xs : List A) → count_if p xs ≡ 0
      → collect f xs ≡ []
  collect-nil f p fails [] h = refl
  collect-nil f p fails (x ∷ xs) h =
      let no : p x ≡ false = ground (arith, h) in
      let rest : count_if p xs ≡ 0 = ground (arith, h) in
      rw (fails x no) (collect-nil f p fails xs rest)

-- Python's `in`.
module _ {ℓ} {A : Type ℓ} ⦃e : Eq A⦄ where
  abbrev pub contains : List A → A → Bool
  contains [] a = false
  contains (x ∷ xs) a = x == a || contains xs a
