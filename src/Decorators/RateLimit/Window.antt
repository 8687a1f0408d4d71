-- ===== src/Decorators/RateLimit/Window.antt =====
-- How many handlers start in any interval of one period.
use walnats.Prelude.{
  ℕ, suc, ◌+◌, ◌<◌, ◌≤◌, ◌≡◌, refl, ap, List, [], ◌∷◌, ◌++◌, Bool, true, false, ltb, leb, ◌&&◌,
  Bool-cases, inl, inr, arith, count_if, length,
}
use walnats.Exceptions.{ok}
use walnats.Decorators.RateLimit.{
  RateLimit, State, release, Step, passes, starts_handler, wakes, Reach, first, next,
}

-- The moment lies in the interval of one period that begins at `from`.
abbrev pub within : RateLimit → ℕ → ℕ → Bool
within r from x = leb from x && ltb x (from + r.period)

-- A start whose period is not over.
abbrev is_recent : RateLimit → ℕ → ℕ → Bool
is_recent r now x = ltb now (x + r.period)

abbrev one_if : Bool → ℕ
one_if b = elim b [ true ↦ 1 | false ↦ 0 ]

abbrev is_asleep : ℕ → ℕ → Bool
is_asleep now until = ltb now until

-- At any moment from now on, every start that is recent then has its task still asleep then.
pub record Inv (r : RateLimit) (s : State) : Type 0 where
  pub permits : s.value + length s.sleeping ≡ r.max_jobs
  pub recent :
      (t : ℕ) → s.now ≤ t → count_if (is_recent r t) s.starts ≤ count_if (is_asleep t) s.sleeping
  pub windows : (from : ℕ) → count_if (within r from) s.starts ≤ r.max_jobs

count_if-le-length : (p : ℕ → Bool) (xs : List ℕ) → count_if p xs ≤ length xs
count_if-le-length p [] = omega arith
count_if-le-length p (x ∷ xs) = ground (arith, count_if-le-length p xs)

module _ (r : RateLimit) (from now : ℕ) (inside : now < from + r.period) where
  -- What began in the interval is recent, while the interval lasts.
  within-recent : (xs : List ℕ) → count_if (within r from) xs ≤ count_if (is_recent r now) xs
  within-recent [] = omega arith
  within-recent (x ∷ xs) = ground (arith, within-recent xs)

-- A start adds to a window only while it lasts; all others of the window are recent then.
within-starts :
    (r : RateLimit) (s : State) (from : ℕ)
    → Inv r s
    → 0 < s.value
    → count_if (within r from) (s.now ∷ s.starts) ≤ r.max_jobs
within-starts r s from inv free = elim (Bool-cases (within r from s.now)) [
  | inr outside ↦ ground (arith, outside, inv.windows from)
  | inl inside ↦ omega (
    arith,
    ap one_if inside,
    within-recent r from s.now (ground (arith, inside)) s.starts,
    inv.recent s.now (omega arith),
    count_if-le-length (is_asleep s.now) s.sleeping,
    inv.permits,
  )
]

count_if-drop :
    (p : ℕ → Bool) (front back : List ℕ) (x : ℕ)
    → p x ≡ false
    → count_if p (front ++ (x ∷ back)) ≡ count_if p (front ++ back)
count_if-drop p [] back x e = rw e (omega arith)
count_if-drop p (y ∷ front) back x e = omega (arith, count_if-drop p front back x e)

length-drop :
    (front back : List ℕ) (x : ℕ) → length (front ++ (x ∷ back)) ≡ suc (length (front ++ back))
length-drop [] back x = refl
length-drop (y ∷ front) back x = ap suc (length-drop front back x)

release-ok : (r : RateLimit) (s : State) (value : ℕ) → release r s ≡ ok value → value ≡ s.value + 1
release-ok r s value done = ground arith

module _ {r : RateLimit} where
  Inv-Step : {s t : State} → Inv r s → Step r s t → Inv r t
  Inv-Step {s} inv (passes later h e) = rw e (record {
    permits = inv.permits;
    recent = λ t h'. inv.recent t (omega arith);
    windows = inv.windows;
  })
  Inv-Step {s} inv (starts_handler free e) = rw e (record {
    permits = omega (arith, inv.permits);
    recent = λ t h. ground (arith, inv.recent t h);
    windows = λ from. within-starts r s from inv free;
  })
  Inv-Step {s} inv (wakes front back until value at over done e) = rw e (record {
    permits =
        omega (
          arith,
          inv.permits,
          release-ok r s value done,
          ap length at,
          length-drop front back until,
        );
    recent = λ t h. omega (
      arith,
      inv.recent t h,
      ap (count_if (is_asleep t)) at,
      count_if-drop (is_asleep t) front back until (ground (arith, over, h)),
    );
    windows = inv.windows;
  })

  pub Reach-Inv : {s : State} → Reach r s → Inv r s
  Reach-Inv (first t) = record {
    permits = omega arith;
    recent = λ t h. omega arith;
    windows = λ from. omega arith;
  }
  Reach-Inv (next h st) = Inv-Step (Reach-Inv h) st

  module _ {s : State} (reach : Reach r s) where
    -- In any interval of one period no more than `max_jobs` handlers start, whatever the order in which
    -- events arrive and tasks wake up.
    pub starts_per_period : (from : ℕ) → count_if (within r from) s.starts ≤ r.max_jobs
    starts_per_period = (Reach-Inv reach).windows

    -- A task of `_release` that is there to wake up never releases above the bound of the semaphore.
    pub release_raises_never :
        (front back : List ℕ) (until : ℕ)
        → s.sleeping ≡ front ++ (until ∷ back)
        → release r s ≡ ok (s.value + 1)
    release_raises_never front back until at =
        let inv = Reach-Inv reach in
        let below : s.value < r.max_jobs =
          omega (arith, inv.permits, ap length at, length-drop front back until) in
        ground arith
