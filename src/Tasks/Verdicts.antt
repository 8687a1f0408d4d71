-- ===== src/Tasks/Verdicts.antt =====
-- What `wait` comes to, told from the events that happen since it began.
use mathlib.Core.Option.{some-injective}
use walnats.Prelude.{
  subst, ℕ, ◌≡◌, ◌<◌, refl, ap, Bool, true, false, none, some, List, [], ◌∷◌, ◌++◌, All, any,
  contains, count_if, inl, inr, nat_eq, nat_beq_iff, ◌==◌, arith, Bool-cases, Option-cases,
}
use walnats.Exceptions.{Exc, Result, ok, raise}
use walnats.Tasks.{Tasks, Event, starts, ends, fails, first_failure, all_happen, are_over, wait}
use walnats.Tasks.Histories.{ends_task, is_failure_of, contains-all_happen}
use walnats.Tasks.Waits.{all_happen-open}

-- The wait is over if every task that was there has ended and none raised. It goes on if none raised and
-- some task has not ended. It raises what the first of its tasks that raised did.
pub data Verdict (s : Tasks) (events : List Event) (w : Result Bool × Tasks) : Type 0 where
  returns :
      All (λ k. any (ends_task k) events ≡ true) s.live
      → count_if (is_failure_of s.live) events ≡ 0
      → w.0 ≡ ok true
      → w.1.is_done ≡ true
      → Verdict s events w
  goes_on :
      (k : ℕ)
      → contains s.live k ≡ true
      → any (ends_task k) events ≡ false
      → count_if (is_failure_of s.live) events ≡ 0
      → w.0 ≡ ok false
      → w.1.is_done ≡ false
      → Verdict s events w
  raises :
      (before after : List Event) (k : ℕ) (e : Exc)
      → events ≡ before ++ (fails k e ∷ after)
      → contains s.live k ≡ true
      → count_if (is_failure_of s.live) before ≡ 0
      → w.0 ≡ raise e
      → w.1.is_done ≡ false
      → Verdict s events w

no_failure :
    (ks : List ℕ) (es : List Event)
    → first_failure ks es ≡ none
    → count_if (is_failure_of ks) es ≡ 0
no_failure ks [] h = refl
no_failure ks (starts ∷ es) h = omega (arith, no_failure ks es h)
no_failure ks (ends k ∷ es) h = omega (arith, no_failure ks es h)
no_failure ks (fails k e ∷ es) h = elim (Bool-cases (contains ks k)) [
  | inl there ↦ absurd (ground (arith, there, h))
  | inr absent ↦ ground (arith, absent, h, no_failure ks es)
]

-- Where the first exception of a task stands among the events.
abbrev FirstAt : List ℕ → List Event → Exc → Type 0
FirstAt ks es e =
    (before : List Event) × (after : List Event) × (k : ℕ) × (es ≡ before ++ (fails k e ∷ after))
    × (contains ks k ≡ true)
    × (count_if (is_failure_of ks) before ≡ 0)

later :
    (ks : List ℕ) (x : Event) (es : List Event) (e : Exc)
    → is_failure_of ks x ≡ false
    → FirstAt ks es e
    → FirstAt ks (x ∷ es) e
later ks x es e passes (before, after, k, same, there, none_before) =
    (x ∷ before, after, k, ap (λ l. x ∷ l) same, there, ground (arith, passes, none_before))

first_at :
    (ks : List ℕ) (es : List Event) (e : Exc) → first_failure ks es ≡ some e → FirstAt ks es e
first_at ks [] e h = absurd (cc h)
first_at ks (starts ∷ es) e h = later ks starts es e refl (first_at ks es e h)
first_at ks (ends k ∷ es) e h = later ks (ends k) es e refl (first_at ks es e h)
first_at ks (fails k x ∷ es) e h = elim (Bool-cases (contains ks k)) [
  | inl there ↦
      let same : some x ≡ some e = ground (arith, there, h) in
      ([], es, k, ap (λ y. fails k y ∷ es) (some-injective _ _ same), there, refl)
  | inr absent ↦ later ks (fails k x) es e absent (first_at ks es e (ground (arith, absent, h)))
]

missing :
    (ks live : List ℕ)
    → are_over ks live ≡ false
    → (k : ℕ) × (contains ks k ≡ true) × (contains live k ≡ true)
missing [] live h = absurd (cc h)
missing (j ∷ js) live h = elim (Bool-cases (contains live j)) [
  | inl there ↦ (j, ground (arith, nat_beq_iff j j), there)
  | inr gone ↦
      let (k, among, there) = missing js live (ground (arith, gone, h)) in
      (k, ground (arith, among), there)
]

module _ (es : List Event) (s : Tasks) where
  each_over :
      (ks : List ℕ)
      → All (λ k. k < s.next) ks
      → ((k : ℕ) → contains ks k ≡ true → contains s.live k ≡ true)
      → are_over ks (all_happen es s).live ≡ true
      → All (λ k. any (ends_task k) es ≡ true) ks
  each_over [] old there over = tt
  each_over (k ∷ ks) old there over =
      let mine = there k (ground (arith, nat_beq_iff k k)) in
      (
        ground (arith, contains-all_happen es s k old.0, mine, over),
        each_over ks old.1 (λ j h. there j (ground (arith, h))) (ground (arith, over)),
      )

-- A task of the list has the property that all have.
All-contains : (P : ℕ → Type 0) (ks : List ℕ) (k : ℕ) → All P ks → contains ks k ≡ true → P k
All-contains P [] k all h = absurd (cc h)
All-contains P (j ∷ js) k all h = elim (Bool-cases (j == k)) [
  | inl same ↦ subst P ((nat_beq_iff j k).0 same) all.0
  | inr other ↦ All-contains P js k all.1 (ground (arith, other, h))
]

-- The outcome of a wait on a supervisor that is not done, in which the tasks have numbers that were
-- given before: it returns exactly if each task that was there at its start has ended and none of these
-- raised, it raises what the first of them that raised did, and else it goes on. The supervisor is done
-- exactly if it returns. Tasks that start meanwhile do not count.
pub wait-Verdict :
    (s : Tasks) (events : List Event)
    → s.is_done ≡ false
    → All (λ k. k < s.next) s.live
    → Verdict s events (wait s events)
unfolding wait
wait-Verdict s events open_still old = elim (Option-cases (first_failure s.live events)) [
  | inr (e, failed) ↦
      let (before, after, k, same, there, none_before) = first_at s.live events e failed in
      raises before after k e same there none_before (ground (arith, open_still, failed))
        (ground (arith, open_still, failed, all_happen-open events s open_still))
  | inl passed ↦ elim (Bool-cases (are_over s.live (all_happen events s).live)) [
    | inl over ↦
        returns (each_over events s s.live old (λ k h. h) over) (no_failure s.live events passed)
          (ground (arith, open_still, passed, over)) (ground (arith, open_still, passed, over))
    | inr going ↦
        let (k, among, there) = missing s.live (all_happen events s).live going in
        goes_on k among
          (ground (
            arith,
            there,
            among,
            contains-all_happen events s k (All-contains (λ j. j < s.next) s.live k old among),
          ))
          (no_failure s.live events passed) (ground (arith, open_still, passed, going))
          (ground (arith, open_still, passed, going, all_happen-open events s open_still))
  ]
]
