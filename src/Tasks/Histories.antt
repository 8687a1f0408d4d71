-- ===== src/Tasks/Histories.antt =====
-- Which tasks run after some events, told from the events alone.
use walnats.Prelude.{
  ℕ, zero, suc, ◌≡◌, ◌<◌, ◌≤◌, ◌+◌, inl, inr, refl, Bool, true, false, not, ◌&&◌, List, [], ◌∷◌,
  ◌++◌, All, any, contains, count_if, nat_eq, nat_beq_iff, ◌==◌, arith, if◌then◌else◌, Bool-cases,
}
use walnats.Tasks.{Tasks, Event, starts, ends, fails, start, on_done, discard, happens, all_happen}

abbrev pub is_start : Event → Bool
is_start starts = true
is_start _ = false

-- The task ends by the event, with an exception or without one.
abbrev pub ends_task : ℕ → Event → Bool
ends_task k starts = false
ends_task k (ends j) = j == k
ends_task k (fails j e) = j == k

-- An exception of one of the tasks.
abbrev pub is_failure_of : List ℕ → Event → Bool
is_failure_of ks (fails k e) = contains ks k
is_failure_of ks _ = false

contains-discard :
    (j : ℕ) (ks : List ℕ) (k : ℕ) → contains (discard j ks) k ≡ (not (j == k) && contains ks k)
unfolding discard
contains-discard j [] k = ground arith
contains-discard j (i ∷ ks) k =
    ground (arith, contains-discard j ks k, nat_beq_iff i j, nat_beq_iff i k, nat_beq_iff j k)

-- A task that was started before the events runs after them if none of them ends it.
pub contains-all_happen :
    (es : List Event) (s : Tasks) (k : ℕ)
    → k < s.next
    → contains (all_happen es s).live k ≡ (not (any (ends_task k) es) && contains s.live k)
unfolding all_happen happens start on_done
contains-all_happen [] s k old = refl
contains-all_happen (starts ∷ es) s k old = elim (Bool-cases s.is_done) [
  | inl done ↦ ground (arith, done, contains-all_happen es s k old)
  | inr open_still ↦
      let t = record s { live = s.next ∷ s.live; next = suc s.next } in
      ground (
        arith,
        open_still,
        old,
        nat_beq_iff s.next k,
        contains-all_happen es t k (omega (arith, old)),
      )
]
contains-all_happen (ends j ∷ es) s k old =
    let t = record s { live = discard j s.live } in
    ground (arith, contains-all_happen es t k old, contains-discard j s.live k)
contains-all_happen (fails j e ∷ es) s k old =
    let t = record s { live = discard j s.live } in
    ground (arith, contains-all_happen es t k old, contains-discard j s.live k)

pub all_happen-append :
    (front back : List Event) (s : Tasks)
    → all_happen (front ++ back) s ≡ all_happen back (all_happen front s)
unfolding all_happen
all_happen-append [] back s = refl
all_happen-append (e ∷ es) back s = all_happen-append es back (happens e s)

-- The tasks with numbers below a bound that none of the events ends.
abbrev pub unended_below : ℕ → List Event → List ℕ
unended_below zero es = []
unended_below (suc k) es =
    if any (ends_task k) es then unended_below k es else k ∷ unended_below k es

-- The tasks of a new supervisor that started and did not end: the tasks have their numbers from 0 on, in
-- the order in which they start.
abbrev pub unended : List Event → List ℕ
unended es = unended_below (count_if is_start es) es

-- A task that is started by the events runs after them if none of them ends it.
started_runs :
    (es : List Event) (s : Tasks) (k : ℕ)
    → s.is_done ≡ false
    → s.next ≤ k
    → k < s.next + count_if is_start es
    → any (ends_task k) es ≡ false
    → contains (all_happen es s).live k ≡ true
unfolding all_happen happens start on_done
started_runs [] s k open_still from below none_ends = absurd (omega (arith, from, below))
started_runs (starts ∷ es) s k open_still from below none_ends =
    let t = record s { live = s.next ∷ s.live; next = suc s.next } in
    elim (Bool-cases (s.next == k)) [
      | inl first ↦
          ground
            (arith, open_still, first, nat_beq_iff s.next k, contains-all_happen es t k, none_ends)
      | inr later ↦
          let more : suc s.next ≤ k = ground (arith, later, from, nat_beq_iff s.next k) in
          ground (
            arith,
            open_still,
            started_runs es t k open_still more (omega (arith, below)) none_ends,
          )
    ]
started_runs (ends j ∷ es) s k open_still from below none_ends =
    let t = record s { live = discard j s.live } in
    started_runs es t k open_still from (omega (arith, below)) (ground (arith, none_ends))
started_runs (fails j e ∷ es) s k open_still from below none_ends =
    let t = record s { live = discard j s.live } in
    started_runs es t k open_still from (omega (arith, below)) (ground (arith, none_ends))

pub unended-runs :
    (es : List Event) (s : Tasks) (n : ℕ)
    → s.is_done ≡ false
    → s.next ≡ 0
    → n ≤ count_if is_start es
    → All (λ k. contains (all_happen es s).live k ≡ true) (unended_below n es)
unended-runs es s zero open_still fresh few = tt
unended-runs es s (suc k) open_still fresh few =
    let rest = unended-runs es s k open_still fresh (omega (arith, few)) in
    elim (Bool-cases (any (ends_task k) es)) [
      | inl ended ↦ rw ended rest
      | inr runs ↦ rw runs (
        started_runs es s k open_still (omega (arith, fresh)) (omega (arith, fresh, few)) runs,
        rest,
      )
    ]
