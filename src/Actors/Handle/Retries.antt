-- ===== src/Actors/Handle/Retries.antt =====
-- The delays with which `_handle_message` puts a message back.
use Prim.Native.Nat.{min}
use walnats.Prelude.{
  ℕ, ◌≡◌, ◌∙◌, ap, refl, true, false, Option, none, some, List, [], ◌∷◌, ◌++◌, arith, count_if,
  if◌then◌else◌, length, get_elem?, collect, collect-append, collect-nil,
}
use walnats.Exceptions.{Exc, ok}
use walnats.Context.{ErrorContext}
use walnats.Actors.Actor.{get_nak_delay}
use walnats.Actors.Actor.Delays.{nak_delay_item}
use walnats.Actors.Handle.{
  Effect, nak, pulse_started, on_failure, run_hooks, Job, failed, is_caught, cancel_pulse,
  after_failure, after_try, try_block, handle_due,
}
use walnats.Actors.Handle.Counts.{Lacks-try_block}
use walnats.Actors.Handle.Settlement.{is_nak, is_nak-IgnoresTry, Lacks-hooks}

module _ {Bytes : Type 0} where
  delay_of : Effect Bytes → Option ℕ
  delay_of (nak d) = some d
  delay_of _ = none

  -- The delays of the negative acknowledgements of a trace.
  pub nak_delays : List (Effect Bytes) → List ℕ
  unfolding delay_of
  nak_delays t = collect delay_of t

  nak_delays-append :
      (t u : List (Effect Bytes)) → nak_delays (t ++ u) ≡ nak_delays t ++ nak_delays u
  unfolding nak_delays
  nak_delays-append t u = collect-append delay_of t u

  not_nak : (e : Effect Bytes) → is_nak e ≡ false → delay_of e ≡ none
  unfolding delay_of
  not_nak (nak d) h = absurd (cc h)
  not_nak _ h = refl

  nak_delays-nil : (t : List (Effect Bytes)) → count_if is_nak t ≡ 0 → nak_delays t ≡ []
  unfolding nak_delays
  nak_delays-nil t h = collect-nil delay_of is_nak not_nak t h

module _ {Bytes T R : Type 0} (j : Job Bytes T R) (event : Option T) (e : Exc) where
  delays_after_failure :
      nak_delays (after_failure j event e).1 ≡ get_nak_delay j.retry_delay j.msg.num_delivered ∷ []
  unfolding after_failure cancel_pulse nak_delays delay_of
  delays_after_failure =
      let ctx : ErrorContext Bytes T = record {
        actor = j.names;
        msg = j.msg;
        message = event;
        exc = e;
      } in
      let hooks = run_hooks on_failure 0 (λ mw. mw.failure) ctx j.middlewares in
      ground (
        arith,
        nak_delays-nil hooks.1
            (Lacks-hooks j is_nak is_nak-IgnoresTry.hooks on_failure (λ mw. mw.failure) ctx),
      )

  delays_due :
      (try_block j).0 ≡ ok (failed event e)
      → is_caught e ≡ true
      → nak_delays (handle_due j).1 ≡ get_nak_delay j.retry_delay j.msg.num_delivered ∷ []
  unfolding handle_due after_try
  delays_due ends caught =
      let start : List (Effect Bytes) = if j.pulse then pulse_started ∷ [] else [] in
      let failing = (after_failure j event e).1 in
      let trace : (handle_due j).1 ≡ start ++ ((try_block j).1 ++ failing) =
        ground (arith, ends, caught) in
      let quiet_start : nak_delays start ≡ [] = nak_delays-nil start (ground arith) in
      let quiet_try = nak_delays-nil (try_block j).1 (Lacks-try_block is_nak is_nak-IgnoresTry j) in
      rw trace (
        rw (nak_delays-append start ((try_block j).1 ++ failing), quiet_start)
          (rw (nak_delays-append (try_block j).1 failing, quiet_try) delays_after_failure))

  -- A message that is due, and whose handling ends by an exception that is caught, is put back once. For a
  -- delivery with the number n, the delay is the item of `retry_delay` at n, counted from 0, and its last item
  -- if n is past the end.
  pub retry_delays :
      (d : ℕ) (ds : List ℕ) (n : ℕ)
      → (try_block j).0 ≡ ok (failed event e)
      → is_caught e ≡ true
      → j.retry_delay ≡ d ∷ ds
      → j.msg.num_delivered ≡ some n
      → (x : ℕ) × (nak_delays (handle_due j).1 ≡ x ∷ [])
        × (get_elem? (d ∷ ds) (min n (length ds)) ≡ some x)
  retry_delays d ds n ends caught delays number = (
    get_nak_delay (d ∷ ds) (some n),
    delays_due ends caught ∙ ap (λ x. x ∷ []) (rw (delays, number) refl),
    nak_delay_item d ds n,
  )
