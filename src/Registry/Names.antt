-- ===== src/Registry/Names.antt =====
-- What a registry finds by name.
use walnats.Prelude.{
  String, ◌≡◌, ◌≢◌, ap, eq_iff, ◌==◌, string_eq, none, some, List, [], ◌∷◌, ◌++◌, All, arith,
  Bool-cases, inl, inr,
}
use walnats.Registry.{get}

module _ {Item : Type 0} (name : Item → String) (k : String) where
  -- What `get` gives has the name, and is the first item that has it: no item before it does.
  pub get_first :
      (items : List Item) (x : Item)
      → get name items k ≡ some x
      → (before after : List Item) × (items ≡ before ++ (x ∷ after))
        × (name x ≡ k)
        × All (λ y. name y ≢ k) before
  unfolding get
  get_first [] x e = absurd (cc e)
  get_first (y ∷ ys) x e = elim (Bool-cases (name y == k)) [
    | inl same ↦
        let e' : y ≡ x = ground arith in
        ([], ys, ap (λ z. z ∷ ys) e', rw (← e') ((eq_iff (name y) k).0 same), tt)
    | inr other ↦
        let (before, after, split, named, first) = get_first ys x (rw other at e) in
        (
          y ∷ before,
          after,
          ap (λ l. y ∷ l) split,
          named,
          ((λ h. absurd (cc ((eq_iff (name y) k).1 h, other))), first),
        )
  ]

  -- `get` gives `None` exactly if no item has the name.
  pub get-none : (items : List Item) → get name items k ≡ none → All (λ y. name y ≢ k) items
  unfolding get
  get-none [] e = tt
  get-none (y ∷ ys) e = elim (Bool-cases (name y == k)) [
    | inl same ↦ absurd (ground arith)
    | inr other ↦ ((λ h. absurd (cc ((eq_iff (name y) k).1 h, other))), get-none ys (rw other at e))
  ]
