-- ===== src/Decorators/Suppress/Outcome.antt =====
-- What `suppress` makes of a handler.
use mathlib.Core.List.{append-nil, append_assoc}
use walnats.Prelude.{
  List, [], ◌∷◌, ◌∙◌, ◌&&◌, if◌then◌else◌, ◌≡◌, refl, ap, ◌++◌, inl, inr, Bool-cases, sym,
}
use walnats.Exceptions.{Result, ok, raise}
use walnats.Effects.{Act, ◌>>=◌, pure}
use walnats.Decorators.Suppress.{
  Log, suppressed, Returned, no_result, awaitable, Handler, coroutine_function, function, Suppress,
  excepting, bind_sync, log, suppress, is_coroutine_function, outcome,
}

module _ (s : Suppress) where
  outcome-bind_sync :
      (m : Act Log Returned)
      → (bind_sync s m >>= λ r. elim r [ no_result ↦ pure tt | awaitable a ↦ a ])
        ≡ excepting s (m >>= λ r. elim r [ no_result ↦ pure tt | awaitable a ↦ a ])
  unfolding bind_sync excepting log
  outcome-bind_sync (raise e, t) = elim (Bool-cases (s.catches e)) [
    | inl caught ↦ rw caught (ap (λ l. (ok tt, l)) (append-nil (t ++ log s)))
    | inr other ↦ rw other refl
  ]
  outcome-bind_sync (ok no_result, t) = refl
  outcome-bind_sync (ok (awaitable (ok u, t')), t) = refl
  outcome-bind_sync (ok (awaitable (raise e, t')), t) = elim (Bool-cases (s.catches e)) [
    | inl caught ↦ rw caught (ap (λ l. (ok tt, l)) (sym (append_assoc t t' (log s))))
    | inr other ↦ rw other refl
  ]

  -- What is left of the outcome of a handler.
  abbrev pub result_of : Result (Unit {0}) → Result (Unit {0})
  result_of (ok u) = ok u
  result_of (raise e) = if s.catches e then ok tt else raise e

  -- The records that the decorator adds.
  abbrev pub added_by : Result (Unit {0}) → List Log
  added_by (ok u) = []
  added_by (raise e) = if s.catches e && s.has_logger then suppressed ∷ [] else []

  excepting_lem : (m : Act Log (Unit {0})) → excepting s m ≡ (result_of m.0, m.1 ++ added_by m.0)
  unfolding excepting log
  excepting_lem (ok u, t) = ap (λ l. (ok u, l)) (sym (append-nil t))
  excepting_lem (raise e, t) = elim (Bool-cases (s.catches e)) [
    | inl caught ↦ rw caught refl
    | inr other ↦ rw other (ap (λ l. (raise e, l)) (sym (append-nil t)))
  ]

  pub outcome-excepting :
      {T : Type 0} (h : Handler T) (event : T)
      → outcome (suppress s h) event ≡ excepting s (outcome h event)
  unfolding suppress
  outcome-excepting (coroutine_function f) event = refl
  outcome-excepting (function f) event = outcome-bind_sync (f event)

  kind-suppress :
      {T : Type 0} (h : Handler T) → is_coroutine_function (suppress s h) ≡ is_coroutine_function h
  unfolding suppress
  kind-suppress (coroutine_function f) = refl
  kind-suppress (function f) = refl

  -- However the handler is written, and whether it raises in the call or while it is awaited: the wrapped
  -- handler ends as it does, except that an exception to suppress ends it without one; it writes the same
  -- records, and one more behind them if an exception is suppressed and there is a logger. It is a
  -- coroutine function exactly if the handler is.
  pub outcome-suppress :
      {T : Type 0} (h : Handler T) (event : T)
      → ((outcome (suppress s h) event).0 ≡ result_of (outcome h event).0)
        × ((outcome (suppress s h) event).1 ≡ (outcome h event).1 ++ added_by (outcome h event).0)
        × (is_coroutine_function (suppress s h) ≡ is_coroutine_function h)
  outcome-suppress h event =
      let same = outcome-excepting h event ∙ excepting_lem (outcome h event) in
      (
        ap (λ (m : Act Log (Unit {0})). m.0) same,
        ap (λ (m : Act Log (Unit {0})). m.1) same,
        kind-suppress h,
      )
