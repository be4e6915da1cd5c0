-- ===== src/Node/Connections/Attempts.antt =====
-- The life of a hole-punch attempt in src/node/connection_state.rs: it starts while a peer has
-- only relayed connections, and completes with a direct one or with the last one lost. The
-- time is an argument where the source reads the clock.
use punchgate.Common.{
  ℕ, ◌+◌, Bool, true, false, ◌&&◌, ◌||◌, not, Option, none, some, [], nat_eq, Eq, ◌==◌,
  if◌then◌else◌, saturating_add,
}
use punchgate.Net.{Libp2p}
use punchgate.Collections.HashMap
use punchgate.Collections.HashMap.{HashMap, get_or, contains_key, values}
use punchgate.Collections.HashSet
use punchgate.Collections.HashSet.{HashSet}
use punchgate.Node.Connections.Defs.{
  HolePunchAttemptStats, new_stats, ConnectionId, ConnectionEstablishedUpdate,
  ConnectionClosedUpdate, ConnectionStateMachine,
}
use punchgate.Node.Connections.Registry.{
  has_relayed_connection, has_direct_connection, peer_is_relay_only, remove_connection_id,
}

module _ (net : Libp2p) ⦃pe : Eq net.PeerId⦄ where
  open net use {PeerId}

  -- `remove_pending_hole_punch_dials_for_peer`.
  unfoldable pub other_dials :
      PeerId → HashMap ConnectionId (PeerId × ℕ) → HashMap ConnectionId (PeerId × ℕ)
  other_dials peer dials = HashMap.retain (λ _ entry. not (entry.0 == peer)) dials

  unfoldable pub complete_hole_punch_attempt :
      PeerId
      → ConnectionStateMachine net
      → ConnectionStateMachine net × Option HolePunchAttemptStats
  unfolding other_dials
  complete_hole_punch_attempt peer m = (
    record m {
      hole_punch_attempts = HashMap.remove peer m.hole_punch_attempts;
      hole_punch_deadlines = HashMap.remove peer m.hole_punch_deadlines;
      pending_hole_punch_dials = other_dials peer m.pending_hole_punch_dials;
    },
    HashMap.get peer m.hole_punch_attempts,
  )

  unfoldable pub on_relayed_established :
      PeerId
      → ConnectionId
      → ConnectionStateMachine net
      → ConnectionStateMachine net × ConnectionEstablishedUpdate
  on_relayed_established peer connection_id m = (
    record m {
      relayed_connections =
          HashMap.upsert peer [] (HashSet.insert connection_id) m.relayed_connections;
    },
    record {
      started_attempt_id = none;
      completed_attempt = none;
      relayed_connections_to_close = [];
      direct_connection_established = false;
    },
  )

  unfoldable pub on_direct_established :
      PeerId
      → ConnectionId
      → ConnectionStateMachine net
      → ConnectionStateMachine net × ConnectionEstablishedUpdate
  unfolding complete_hole_punch_attempt
  on_direct_established peer connection_id m =
      let (m', completed) = complete_hole_punch_attempt peer (record m {
        direct_connections =
            HashMap.upsert peer [] (HashSet.insert connection_id) m.direct_connections;
      }) in
      (
        record m' { relayed_connections = HashMap.remove peer m'.relayed_connections },
        record {
          started_attempt_id = none;
          completed_attempt = completed;
          relayed_connections_to_close = get_or (HashMap.get peer m'.relayed_connections) [];
          direct_connection_established = true;
        },
      )

  unfoldable pub on_connection_established :
      PeerId
      → ConnectionId
      → Bool
      → ConnectionStateMachine net
      → ConnectionStateMachine net × ConnectionEstablishedUpdate
  unfolding on_relayed_established on_direct_established
  on_connection_established peer connection_id relayed m =
      let m' = record m {
        pending_hole_punch_dials = HashMap.remove connection_id m.pending_hole_punch_dials;
      } in
      if relayed
      then on_relayed_established peer connection_id m'
      else on_direct_established peer connection_id m'

  -- `next_hole_punch_attempt_id`: the id is the count after the call.
  unfoldable pub next_attempt_id : PeerId → ConnectionStateMachine net → ℕ
  next_attempt_id peer m =
      saturating_add 64 (get_or (HashMap.get peer m.hole_punch_attempt_seq) 0) 1

  unfoldable pub start_hole_punch_attempt :
      PeerId → ℕ → ℕ → ConnectionStateMachine net → ConnectionStateMachine net × Option ℕ
  unfolding peer_is_relay_only next_attempt_id
  start_hole_punch_attempt peer hole_punch_timeout now m =
      let attempt_id = next_attempt_id peer m in
      if not (peer_is_relay_only net peer m) || contains_key peer m.hole_punch_attempts
      then (m, none)
      else (
        record m {
          hole_punch_attempt_seq = HashMap.insert peer attempt_id m.hole_punch_attempt_seq;
          hole_punch_attempts =
              HashMap.insert peer (new_stats attempt_id now) m.hole_punch_attempts;
          hole_punch_deadlines =
              HashMap.insert peer
                (record { attempt_id = attempt_id; deadline = now + hole_punch_timeout })
                m.hole_punch_deadlines;
        },
        some attempt_id,
      )

  -- What stays of a peer after its last connection.
  unfoldable pub drop_peer : PeerId → ConnectionStateMachine net → ConnectionStateMachine net
  unfolding complete_hole_punch_attempt
  drop_peer peer m =
      let m' = (complete_hole_punch_attempt peer m).0 in
      record m' {
        relayed_connections = HashMap.remove peer m'.relayed_connections;
        direct_connections = HashMap.remove peer m'.direct_connections;
      }

  unfoldable pub on_connection_closed :
      PeerId
      → ConnectionId
      → ℕ
      → ConnectionStateMachine net
      → ConnectionStateMachine net × ConnectionClosedUpdate
  unfolding remove_connection_id drop_peer has_relayed_connection has_direct_connection
  on_connection_closed peer connection_id num_established m =
      let (relayed, _) = remove_connection_id net peer connection_id m.relayed_connections in
      let (direct, direct_exhausted) =
        remove_connection_id net peer connection_id m.direct_connections in
      let m' = record m {
        pending_hole_punch_dials = HashMap.remove connection_id m.pending_hole_punch_dials;
        relayed_connections = relayed;
        direct_connections = direct;
      } in
      let tracked_connection_alive =
        has_relayed_connection net peer m' || has_direct_connection net peer m' in
      let peer_fully_disconnected = num_established == 0 && not tracked_connection_alive in
      (
        if peer_fully_disconnected then drop_peer peer m' else m',
        record {
          clear_direct_registry = direct_exhausted || peer_fully_disconnected;
          peer_fully_disconnected = peer_fully_disconnected;
        },
      )
