-- ===== src/Events/Sync/Concurrent/Agreement.antt =====
-- The tasks of `register` in any order, against the tasks one after the other.
use walnats.Prelude.{
  ℕ, String, ◌≡◌, ◌≢◌, ◌∙◌, sym, ap, inl, inr, true, some, List, [], ◌∷◌, All, string_eq, eq_iff,
  ◌==◌, Bool-cases,
}
use walnats.Exceptions.{ok, ok-injective}
use walnats.Events.Event.{BaseEvent, StreamConfig, stream_name}
use walnats.Events.Sync.{JetStream, done, register}
use walnats.Events.Sync.Server.{IsJetStream}
use walnats.Events.Sync.Register.{
  DistinctStreams, Registered, name_of_config, others_kept, register_stores,
}
use walnats.Events.Sync.Concurrent.{interleave, create_tasks, AllDone}
use walnats.Events.Sync.Concurrent.Orders.{interleaved_stores}

module _ {Schema Ser : Type 0} (js : JetStream) (L : IsJetStream js) where
  open L use {stream}

  module _ (n : String) (s t : js.State) where
    -- Servers on which the events are registered agree on a stream, if they do on those of no event.
    agree :
        (es : List (BaseEvent Schema Ser))
        → All (Registered js L s) es
        → All (Registered js L t) es
        → (All (λ e. stream_name e ≢ ok n) es → stream s n ≡ stream t n)
        → stream s n ≡ stream t n
    agree [] a b other = other tt
    agree (e ∷ es) ((c, config, mine), a) ((c', config', mine'), b) other =
        elim (Bool-cases (c.name == n)) [
          | inl same ↦
              let equal : c ≡ c' = ok-injective (sym config ∙ config') in
              let name = (eq_iff c.name n).0 same in
              ap (stream s) (sym name)
              ∙ (mine
                  ∙ (ap some equal
                      ∙ (sym mine'
                          ∙ ap (stream t) (ap (λ (x : StreamConfig). x.name) (sym equal) ∙ name))))
          | inr differs ↦ agree es a b (λ rest. other (
            (λ named.
                let name = ok-injective (sym (name_of_config e c config) ∙ named) in
                absurd (cc ((eq_iff c.name n).1 name, differs))),
            rest,
          ))
        ]

  register_keeps :
      (n : String) (es : List (BaseEvent Schema Ser)) (s : js.State)
      → (register js true true es s).0 ≡ done
      → All (λ e. stream_name e ≢ ok n) es
      → stream (register js true true es s).1 n ≡ stream s n
  unfolding register
  register_keeps n [] s d ne = absurd (cc d)
  register_keeps n (e ∷ es) s d ne = others_kept js L n (e ∷ es) s ne d

  -- The order does not matter: if no two events have one stream, and neither `register` with its tasks one
  -- after the other nor its tasks in another order raise, then both leave a server with the same streams.
  pub interleaved_as_register :
      (order : List ℕ) (es : List (BaseEvent Schema Ser)) (s : js.State)
      → DistinctStreams es
      → (register js true true es s).0 ≡ done
      → AllDone (interleave js true order (create_tasks true true es) s).0
      → (n : String)
      → stream (interleave js true order (create_tasks true true es) s).1 n
        ≡ stream (register js true true es s).1 n
  interleaved_as_register order es s d one_by_one ends n =
      let (all, kept) = interleaved_stores js L order es s d ends in
      agree n _ _ es all (register_stores js L es s d one_by_one)
        (λ ne. kept n ne ∙ sym (register_keeps n es s one_by_one ne))
