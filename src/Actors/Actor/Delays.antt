-- ===== src/Actors/Actor/Delays.antt =====
-- The delay before a failed message is delivered again.
use Prim.Native.Nat.{min}
use walnats.Prelude.{
  ℕ, zero, suc, ◌<◌, ◌≡◌, refl, some, List, [], ◌∷◌, arith, length, leb, tests, get_or, inl, inr,
  Bool-cases, get_elem?,
}
use walnats.Actors.Actor.{get_nak_delay, last_or}

get_or-some : (ds : List ℕ) (n d : ℕ) → n < length ds → get_elem? ds n ≡ some (get_or ds n d)
get_or-some [] n d h = elim h [ ]
get_or-some (x ∷ xs) zero d h = refl
get_or-some (x ∷ xs) (suc n) d h = get_or-some xs n d (omega arith)

get_elem?-last : (d : ℕ) (ds : List ℕ) → get_elem? (d ∷ ds) (length ds) ≡ some (last_or d ds)
get_elem?-last d [] = refl
get_elem?-last d (x ∷ xs) = get_elem?-last x xs

-- The delay after the delivery with a number is the item at that number, and the last item for
-- every number past the end.
pub nak_delay_item :
    (d : ℕ) (ds : List ℕ) (n : ℕ)
    → get_elem? (d ∷ ds) (min n (length ds)) ≡ some (get_nak_delay (d ∷ ds) (some n))
unfolding get_nak_delay
nak_delay_item d ds n = elim (Bool-cases (leb (suc (length ds)) n)) [
  | inl past ↦
      let e : min n (length ds) ≡ length ds = omega tests in rw (past, e) (get_elem?-last d ds)
  | inr within ↦
      let e : min n (length ds) ≡ n = ground arith in
      rw (within, e) (get_or-some (d ∷ ds) n 0 (ground arith))
]

-- With two delays or more, the first one is used for no delivery that Nats counts from 1.
pub first_delay_unused :
    (d d' x : ℕ) (ds : List ℕ) (n : ℕ)
    → get_nak_delay (d ∷ x ∷ ds) (some (suc n)) ≡ get_nak_delay (d' ∷ x ∷ ds) (some (suc n))
unfolding get_nak_delay
first_delay_unused d d' x ds n = refl
