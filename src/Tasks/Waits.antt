-- ===== src/Tasks/Waits.antt =====
-- What `wait` and `cancel` reach.
use walnats.Prelude.{
  ℕ, ◌≡◌, ◌<◌, ◌∙◌, refl, ap, Bool-cases, inl, inr, true, false, List, [], ◌∷◌, ◌++◌, contains,
  nat_eq, nat_beq_iff, ◌==◌, arith, if◌then◌else◌,
}
use walnats.Exceptions.{ok, raise, cancelled}
use walnats.Tasks.{
  Tasks, cancel, cancel_all, Event, starts, ends, fails, start, on_done, happens, all_happen,
  are_over, wait, interrupt, still,
}

cancel_all_lem : (ks js : List ℕ) → cancel_all ks js ≡ ks ++ js
unfolding cancel_all
cancel_all_lem [] js = refl
cancel_all_lem (k ∷ ks) js = ap (λ l. k ∷ l) (cancel_all_lem ks js)

-- Until a wait is over, `cancel` cancels exactly the tasks that have not ended; after one, none.
pub cancel_lem :
    (s : Tasks) → (cancel s).cancelled ≡ (if s.is_done then s.cancelled else s.live ++ s.cancelled)
unfolding cancel
cancel_lem s = ground (arith, cancel_all_lem s.live s.cancelled)

-- After a wait that returns, a task that was there at its start has ended.
over_lem :
    (ks live : List ℕ) (k : ℕ)
    → are_over ks live ≡ true
    → contains ks k ≡ true
    → contains live k ≡ false
over_lem [] live k o c = cc c
over_lem (j ∷ js) live k o c = elim (Bool-cases (j == k)) [
  | inl same ↦ rw (← (nat_beq_iff j k).0 same) (ground arith)
  | inr other ↦ over_lem js live k (ground arith) (ground arith)
]

-- A task that starts another one as the last thing that it does: the wait is over although the new task
-- is not, and `cancel` leaves it running.
wait_leaves_task :
    (s : Tasks) (k : ℕ)
    → s.live ≡ k ∷ []
    → s.is_done ≡ false
    → k < s.next
    → ((wait s (starts ∷ ends k ∷ [])).0 ≡ ok true)
      × ((wait s (starts ∷ ends k ∷ [])).1.live ≡ s.next ∷ [])
      × ((cancel (wait s (starts ∷ ends k ∷ [])).1).cancelled ≡ s.cancelled)
unfolding wait all_happen cancel
wait_leaves_task s k alone undone older = ground (arith, older, alone, undone)

happens-cancelled : (e : Event) (s : Tasks) → (happens e s).cancelled ≡ s.cancelled
unfolding happens start on_done
happens-cancelled starts s = ground arith
happens-cancelled (ends k) s = refl
happens-cancelled (fails k e) s = refl

all_happen-cancelled : (es : List Event) (s : Tasks) → (all_happen es s).cancelled ≡ s.cancelled
unfolding all_happen
all_happen-cancelled [] s = refl
all_happen-cancelled (e ∷ es) s = all_happen-cancelled es (happens e s) ∙ happens-cancelled e s

-- A task that still runs when a wait has returned was started while the supervisor waited, and `cancel`
-- after the wait cancels neither it nor any other task.
pub left_running :
    (s : Tasks) (events : List Event) (k : ℕ)
    → (wait s events).0 ≡ ok true
    → contains (wait s events).1.live k ≡ true
    → (contains s.live k ≡ false) × ((cancel (wait s events).1).cancelled ≡ s.cancelled)
unfolding wait
left_running s events k returns runs = elim (Bool-cases s.is_done) [
  | inl over ↦ absurd (ground (arith, over, returns))
  | inr open_still ↦
      let done : (wait s events).1 ≡ record (all_happen events s) { is_done = true } =
        ground (arith, open_still, returns) in
      let all_ended : are_over s.live (all_happen events s).live ≡ true =
        ground (arith, open_still, returns) in
      let there : contains (all_happen events s).live k ≡ true = rw done at runs in
      (
        ground (arith, there, over_lem s.live (all_happen events s).live k all_ended),
        rw done (
            ground (
              arith,
              cancel_lem (record (all_happen events s) { is_done = true }),
              all_happen-cancelled events s,
            )),
      )
]

-- Only a wait for the tasks makes the supervisor done.
happens-open : (e : Event) (s : Tasks) → s.is_done ≡ false → (happens e s).is_done ≡ false
unfolding happens start on_done
happens-open starts s h = ground (arith, h)
happens-open (ends k) s h = h
happens-open (fails k e) s h = h

pub all_happen-open :
    (es : List Event) (s : Tasks) → s.is_done ≡ false → (all_happen es s).is_done ≡ false
unfolding all_happen
all_happen-open [] s h = h
all_happen-open (e ∷ es) s h = all_happen-open es (happens e s) (happens-open e s h)

pub contains-append : (ks js : List ℕ) (k : ℕ) → contains ks k ≡ true → contains (ks ++ js) k ≡ true
contains-append [] js k h = absurd (cc h)
contains-append (i ∷ ks) js k h = ground (arith, h, contains-append ks js k)

waiting_state :
    (s : Tasks) (events : List Event)
    → (wait s events).0 ≡ ok false
    → (wait s events).1 ≡ all_happen events s
unfolding wait
waiting_state s events h = ground (arith, h)

-- A wait that is cancelled while it waits raises, and `cancel` after it reaches every task that has not
-- ended, whatever happened meanwhile: also those that were started since the wait began.
interrupt_cancels :
    (s : Tasks) (events : List Event)
    → s.is_done ≡ false
    → (wait s events).0 ≡ ok false
    → ((interrupt s events).0 ≡ raise cancelled)
      × ((k : ℕ)
          → contains (all_happen events s).live k ≡ true
          → contains (cancel (interrupt s events).1).cancelled k ≡ true)
unfolding interrupt
interrupt_cancels s events open_still waits =
    let t = all_happen events s in
    let u = record t { cancelled = still s.live t.live ++ t.cancelled } in
    let same : interrupt s events ≡ (raise cancelled, u) =
      rw (interrupt, waits)
        (ap (λ x. (raise cancelled, record x { cancelled = still s.live x.live ++ x.cancelled }))
          (waiting_state s events waits)) in
    (
      ap (λ r. r.0) same,
      λ k there. rw same (
          rw (cancel_lem u, all_happen-open events s open_still)
            (contains-append t.live u.cancelled k there)),
    )
