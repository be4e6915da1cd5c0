-- ===== src/Node/Connections/Reachable.antt =====
-- `ConnectionStateMachine` of src/node/connection_state.rs over every sequence of calls.
use Prim.Native.String.{String}
use punchgate.Common.{ℕ, Bool, Option, List, [], ◌∷◌, arith, Eq, nat_eq}
use punchgate.Net.{Libp2p}
use punchgate.Collections.HashMap.{get-remove}
use punchgate.Node.Connections.Defs.{ConnectionId, ConnectionStateMachine, new}
use punchgate.Node.Connections.Attempts.{
  complete_hole_punch_attempt, on_connection_established, start_hole_punch_attempt,
  on_connection_closed,
}
use punchgate.Node.Connections.Dials.{on_dialing, on_outgoing_connection_error}
use punchgate.Node.Connections.Timeouts.{take_due_hole_punch_timeouts}
use punchgate.Node.Connections.Invariant.{
  IsValidAt, new-IsValidAt, on_connection_established-IsValidAt, start_hole_punch_attempt-IsValidAt,
  on_connection_closed-IsValidAt, on_dialing-IsValidAt, on_outgoing_connection_error-IsValidAt,
  take_due-IsValidAt,
}

module _ (net : Libp2p) ⦃pe : Eq net.PeerId⦄ where
  open net use {PeerId}

  -- A call of an operation that changes the state, with the time where it reads the clock.
  pub data Call : Type 0 where
    established : PeerId → ConnectionId → Bool → Call
    start : PeerId → ℕ → ℕ → Call
    closed : PeerId → ConnectionId → ℕ → Call
    dialing : PeerId → ConnectionId → Call
    failed : Option PeerId → ConnectionId → String → Call
    complete : PeerId → Call
    due : ℕ → Call

  unfoldable pub apply : Call → ConnectionStateMachine net → ConnectionStateMachine net
  apply (established peer id relayed) m = (on_connection_established net peer id relayed m).0
  apply (start peer hole_punch_timeout now) m =
      (start_hole_punch_attempt net peer hole_punch_timeout now m).0
  apply (closed peer id num_established) m = (on_connection_closed net peer id num_established m).0
  apply (dialing peer id) m = (on_dialing net peer id m).0
  apply (failed peer_id id error_text) m =
      (on_outgoing_connection_error net peer_id id error_text m).0
  apply (complete peer) m = (complete_hole_punch_attempt net peer m).0
  apply (due now) m = (take_due_hole_punch_timeouts net now m).0

  unfoldable pub run : List Call → ConnectionStateMachine net → ConnectionStateMachine net
  unfolding apply
  run [] m = m
  run (call ∷ calls) m = run calls (apply call m)

  complete-IsValidAt :
      (p peer : PeerId) (m : ConnectionStateMachine net)
      → IsValidAt net p m
      → IsValidAt net p (complete_hole_punch_attempt net peer m).0
  unfolding complete_hole_punch_attempt
  complete-IsValidAt p peer m h =
      ground
        (arith, get-remove peer p m.hole_punch_attempts, get-remove peer p m.hole_punch_deadlines)

  apply-IsValidAt :
      (p : PeerId) (call : Call) (m : ConnectionStateMachine net)
      → IsValidAt net p m
      → IsValidAt net p (apply call m)
  unfolding apply
  apply-IsValidAt p (established peer id relayed) m =
      on_connection_established-IsValidAt net p peer id relayed m
  apply-IsValidAt p (start peer hole_punch_timeout now) m =
      start_hole_punch_attempt-IsValidAt net p peer hole_punch_timeout now m
  apply-IsValidAt p (closed peer id num_established) m =
      on_connection_closed-IsValidAt net p peer id num_established m
  apply-IsValidAt p (dialing peer id) m = on_dialing-IsValidAt net p peer id m
  apply-IsValidAt p (failed peer_id id error_text) m =
      on_outgoing_connection_error-IsValidAt net p peer_id id error_text m
  apply-IsValidAt p (complete peer) m = complete-IsValidAt p peer m
  apply-IsValidAt p (due now) m = take_due-IsValidAt net p now m

  run-IsValidAt :
      (p : PeerId) (calls : List Call) (m : ConnectionStateMachine net)
      → IsValidAt net p m
      → IsValidAt net p (run calls m)
  unfolding run
  run-IsValidAt p [] m h = h
  run-IsValidAt p (call ∷ calls) m h =
      run-IsValidAt p calls (apply call m) (apply-IsValidAt p call m h)

  -- After any calls from the start, every peer is in order: a deadline belongs to the active
  -- attempt of its peer, an active attempt has an id that was issued and its peer has no direct
  -- connection, and an entry of the relayed or the direct connections holds at least one.
  pub run-new-IsValidAt : (calls : List Call) (p : PeerId) → IsValidAt net p (run calls (new net))
  run-new-IsValidAt calls p = run-IsValidAt p calls (new net) (new-IsValidAt net p)
