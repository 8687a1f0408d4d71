-- ===== src/Tests/Registration.antt =====
-- The tasks of `ConnectedEvents.register` (walnats/_events/_connection.py) in mixed orders.
use walnats.Prelude.{
  ◌≡◌, String, true, false, All, List, [], ◌∷◌, arith, ℕ, zero, suc, ◌<◌, ◌≤◌, length, count_if,
  map, ◌==◌, nat_eq,
}
use walnats.Prelude.Dict.{Dict, lookup, insert}
use walnats.Events.Event.{StreamConfig, stream_name, stream_config as configuration}
use walnats.Events.Sync.Concurrent.{Task, advance, step_at, interleave, create_tasks, AllDone}
use walnats.Events.Sync.{done, sync, sync_all, register}
use walnats.Events.Sync.Concurrent.Agreement.{interleaved_as_register}
use walnats.Events.Sync.Concurrent.Outcome.{Settled, interleaved_settles}
use walnats.Tests.Events.{
  memory, memory-IsJetStream, add, update_to, both, distinct, old_streams, differs,
}

abbrev order : List ℕ
order = 1 ∷ 0 ∷ 1 ∷ 0 ∷ []

each_twice : (i : ℕ) → i < length both → 2 ≤ count_if (λ j. j == i) order
each_twice zero lt = omega arith
each_twice (suc zero) lt = omega arith
each_twice (suc (suc i)) lt = absurd (omega arith)

-- The stream of the second event has another subject: its task finds that, the other task adds its stream,
-- and the first one updates.
abbrev mixed : List (Task String String) × Dict StreamConfig
mixed = interleave (memory false) true order (create_tasks true true both) old_streams

interleaved_settles_example :
    All (Settled (memory false) (memory-IsJetStream false) mixed.1) mixed.0
    × (map (λ k. k.event) mixed.0 ≡ both)
interleaved_settles_example =
    interleaved_settles (memory false) (memory-IsJetStream false) order both old_streams
      (distinct, (tt, tt)) each_twice

-- Both tasks end without an exception.
mixed_done : AllDone mixed.0
unfolding interleave step_at create_tasks advance add update_to lookup insert configuration
    stream_name
mixed_done = (ground (arith, differs), (ground (arith, differs), tt))

one_by_one : (register (memory false) true true both old_streams).0 ≡ done
unfolding register sync_all sync add update_to lookup insert configuration stream_name
one_by_one = ground (arith, differs)

interleaved_as_register_example :
    (memory-IsJetStream false).stream mixed.1 "mail-sent"
    ≡ (memory-IsJetStream false).stream
        (register (memory false) true true both old_streams).1
        "mail-sent"
interleaved_as_register_example =
    interleaved_as_register (memory false) (memory-IsJetStream false) order both old_streams
      (distinct, (tt, tt)) one_by_one mixed_done "mail-sent"
