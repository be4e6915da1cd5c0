-- ===== src/Node/Connections/DialOwners.antt =====
-- The dials that src/node/connection_state.rs tracks, over every sequence of calls.
use Prim.Native.String.{String}
use punchgate.Common.{ℕ, ◌≢◌, Option, List, [], ◌∷◌, arith, Eq, nat_eq}
use punchgate.Net.{Libp2p}
use punchgate.Collections.HashMap.{get}
use punchgate.Node.Connections.Defs.{ConnectionId, OutgoingErrorUpdate, ConnectionStateMachine, new}
use punchgate.Node.Connections.Dials.{on_outgoing_connection_error}
use punchgate.Node.Connections.Timeouts.{take_due_hole_punch_timeouts}
use punchgate.Node.Connections.Reachable.{
  Call, established, start, closed, dialing, failed, complete, due, apply, run,
}
use punchgate.Node.Connections.Tracking.{
  IsTracked, established-IsTracked, start-IsTracked, closed-IsTracked, dialing-IsTracked,
  failed-IsTracked, complete-IsTracked,
}

module _ (net : Libp2p) ⦃pe : Eq net.PeerId⦄ where
  open net use {PeerId}

  apply-IsTracked :
      (c : ConnectionId) (call : Call net) (m : ConnectionStateMachine net)
      → IsTracked net c m
      → IsTracked net c (apply net call m)
  unfolding apply take_due_hole_punch_timeouts
  apply-IsTracked c (established peer id relayed) m h =
      established-IsTracked net c peer id relayed m h
  apply-IsTracked c (start peer hole_punch_timeout now) m h =
      start-IsTracked net c peer hole_punch_timeout now m h
  apply-IsTracked c (closed peer id num_established) m h =
      closed-IsTracked net c peer id num_established m h
  apply-IsTracked c (dialing peer id) m h = dialing-IsTracked net c peer id m h
  apply-IsTracked c (failed peer_id id error_text) m h =
      failed-IsTracked net c peer_id id error_text m h
  apply-IsTracked c (complete peer) m h = complete-IsTracked net c peer m h
  apply-IsTracked c (due now) m h = record { dials = h.dials; belongs = h.belongs }

  run-IsTracked :
      (c : ConnectionId) (calls : List (Call net)) (m : ConnectionStateMachine net)
      → IsTracked net c m
      → IsTracked net c (run net calls m)
  unfolding run
  run-IsTracked c [] m h = h
  run-IsTracked c (call ∷ calls) m h =
      run-IsTracked c calls (apply net call m) (apply-IsTracked c call m h)

  -- After any calls from the start, a dial that is tracked belongs to the attempt that is active
  -- for its peer, and no dial is tracked twice.
  pub run-new-IsTracked :
      (calls : List (Call net)) (c : ConnectionId) → IsTracked net c (run net calls (new net))
  unfolding new get
  run-new-IsTracked calls c = run-IsTracked c calls (new net) (record { dials = tt; belongs = tt })

  IsTracked-not_stale :
      (id : ConnectionId) (peer_id : Option PeerId) (error_text : String) (peer : PeerId)
      (expected received : ℕ) (m : ConnectionStateMachine net)
      → IsTracked net id m
      → (on_outgoing_connection_error net peer_id id error_text m).1
        ≢ OutgoingErrorUpdate.stale_tracked peer expected received
  unfolding on_outgoing_connection_error
  IsTracked-not_stale id peer_id error_text peer expected received m h = ground (arith, h.belongs)

  -- After any calls from the start, a failed dial is never answered as one of a stale attempt.
  pub run-new-not_stale :
      (calls : List (Call net)) (peer_id : Option PeerId) (id : ConnectionId) (error_text : String)
      (peer : PeerId) (expected received : ℕ)
      → (on_outgoing_connection_error net peer_id id error_text (run net calls (new net))).1
        ≢ OutgoingErrorUpdate.stale_tracked peer expected received
  run-new-not_stale calls peer_id id error_text peer expected received =
      IsTracked-not_stale id peer_id error_text peer expected received (run net calls (new net))
        (run-new-IsTracked calls id)
