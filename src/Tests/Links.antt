-- ===== src/Tests/Links.antt =====
-- Runs of the connection bookkeeping (src/node/connection_state.rs) and of the reconnects
-- (src/node/backoff.rs).
use punchgate.Common.{◌<◌, ◌≡◌, ◌≢◌, refl, true, false, none, some, List, [], ◌∷◌, nat_eq, arith}
use punchgate.Collections.HashMap
use punchgate.Collections.HashMap.{HashMap, get, get_or, contains_key}
use punchgate.Node.Connections.Defs.{ConnectionStateMachine, OutgoingErrorUpdate, new, new_stats}
use punchgate.Node.Connections.Registry.{has_direct_connection, has_relayed_connection}
use punchgate.Node.Connections.Attempts.{on_connection_established, start_hole_punch_attempt}
use punchgate.Node.Connections.Dials.{on_outgoing_connection_error}
use punchgate.Node.Connections.Invariant.{IsValidAt}
use punchgate.Node.Connections.Reachable.{
  Call, established, start, dialing, failed, closed, due, run, run-new-IsValidAt,
}
use punchgate.Node.Connections.Outcomes.{direct_settles, start_is_fresh}
use punchgate.Node.Connections.Tracking.{IsTracked}
use punchgate.Node.Connections.DialOwners.{run-new-IsTracked, run-new-not_stale}
use punchgate.Node.Backoff.{schedule_reconnect, reset}
use punchgate.Node.Backoff as Backoff
use punchgate.Node.Delays.{delay_after, schedule_times, schedule-reset}
use punchgate.Tests.Toy.{toy}

-- The peer 5 with one relayed connection, 11.
abbrev relayed : ConnectionStateMachine toy
relayed = record (new toy) { relayed_connections = (5, 11 ∷ []) ∷ [] }

-- The same with its first attempt under way.
abbrev pub punching : ConnectionStateMachine toy
punching = record relayed {
  hole_punch_attempts = (5, new_stats 1 100) ∷ [];
  hole_punch_deadlines = (5, record { attempt_id = 1; deadline = 150 }) ∷ [];
  hole_punch_attempt_seq = (5, 1) ∷ [];
}

abbrev calls : List (Call toy)
calls =
    established 5 11 true
    ∷ start 5 50 100
    ∷ dialing 5 12
    ∷ failed none 12 "refused"
    ∷ due 160
    ∷ closed 5 11 0
    ∷ []

run-new-IsValidAt_example : IsValidAt toy 5 (run toy calls (new toy))
run-new-IsValidAt_example = run-new-IsValidAt toy calls 5

direct_settles_example :
    let result = on_connection_established toy 5 12 false punching in
    (result.1.completed_attempt ≡ get 5 punching.hole_punch_attempts)
    × (result.1.relayed_connections_to_close ≡ get_or (get 5 punching.relayed_connections) [])
    × (has_direct_connection toy 5 result.0 ≡ true)
    × (has_relayed_connection toy 5 result.0 ≡ false)
    × (get 5 result.0.hole_punch_attempts ≡ none)
    × (get 5 result.0.hole_punch_deadlines ≡ none)
    × ((start_hole_punch_attempt toy 5 50 160 result.0).1 ≡ none)
direct_settles_example = direct_settles toy 5 12 50 160 punching

start_is_fresh_example :
    let after = (start_hole_punch_attempt toy 5 50 100 relayed).0 in
    (get_or (get 5 relayed.hole_punch_attempt_seq) 0 < 1)
    × (get 5 after.hole_punch_attempts ≡ some (new_stats 1 100))
    × (get 5 after.hole_punch_deadlines ≡ some (record { attempt_id = 1; deadline = 150 }))
    × ((start_hole_punch_attempt toy 5 50 110 after).1 ≡ none)
unfolding new get nat_eq start_hole_punch_attempt
start_is_fresh_example = start_is_fresh toy 5 50 100 110 1 relayed (omega arith) refl

schedule-reset_example :
    (schedule_reconnect toy 9
      (schedule_times toy 3 9 (reset toy 9 (Backoff.new toy ((9, 0) ∷ []))))).1
    ≡ some (0, delay_after 3)
unfolding Backoff.new get nat_eq HashMap.insert
schedule-reset_example = schedule-reset toy 3 9 0 (Backoff.new toy ((9, 0) ∷ [])) refl

run-new-IsTracked_example : IsTracked toy 12 (run toy calls (new toy))
run-new-IsTracked_example = run-new-IsTracked toy calls 12

run-new-not_stale_example :
    (on_outgoing_connection_error toy none 12 "refused" (run toy calls (new toy))).1
    ≢ OutgoingErrorUpdate.stale_tracked 5 2 1
run-new-not_stale_example = run-new-not_stale toy calls none 12 "refused" 5 2 1
