-- ===== src/Node/Connections/Outcomes.antt =====
-- What the operations of src/node/connection_state.rs answer, and how attempts follow each other.
use Prim.Native.String.{String}
use punchgate.Common.{
  ℕ, ◌+◌, ◌-◌, ◌^◌, ◌<◌, ◌≡◌, true, false, saturating_add, Option, none, some, [], arith, Eq,
  nat_eq,
}
use punchgate.Net.{Libp2p}
use punchgate.Collections.HashMap
use punchgate.Collections.HashMap.{
  HashMap, get, get_or, contains_key, values, get-insert, get-remove, IsMap, remove-IsMap,
}
use punchgate.Collections.HashSet
use punchgate.Collections.HashSet.{HashSet}
use punchgate.Node.Connections.Defs.{
  HolePunchAttemptStats, new_stats, ConnectionId, DialingUpdate, OutgoingErrorUpdate,
  ConnectionStateMachine,
}
use punchgate.Node.Connections.Registry.{
  peer_is_relay_only, has_relayed_connection, has_direct_connection,
}
use punchgate.Node.Connections.Attempts.{
  next_attempt_id, on_connection_established, start_hole_punch_attempt,
}
use punchgate.Node.Connections.Dials.{on_dialing, on_outgoing_connection_error}

module _ (net : Libp2p) ⦃pe : Eq net.PeerId⦄ where
  open net use {PeerId}

  -- A direct connection settles a peer: the answer has the attempt that was active and closes
  -- exactly the relayed connections that were open; after it the peer has a direct connection,
  -- no relayed one, no attempt and no deadline, and no further attempt starts.
  pub direct_settles :
      (peer : PeerId) (id hole_punch_timeout now : ℕ) (m : ConnectionStateMachine net)
      → ((on_connection_established net peer id false m).1.completed_attempt
          ≡ get peer m.hole_punch_attempts)
        × ((on_connection_established net peer id false m).1.relayed_connections_to_close
            ≡ get_or (get peer m.relayed_connections) [])
        × (has_direct_connection net peer (on_connection_established net peer id false m).0 ≡ true)
        × (has_relayed_connection net peer (on_connection_established net peer id false m).0
            ≡ false)
        × (get peer (on_connection_established net peer id false m).0.hole_punch_attempts ≡ none)
        × (get peer (on_connection_established net peer id false m).0.hole_punch_deadlines ≡ none)
        × ((start_hole_punch_attempt net peer hole_punch_timeout now
              (on_connection_established net peer id false m).0).1
            ≡ none)
  unfolding on_connection_established start_hole_punch_attempt
  direct_settles peer id hole_punch_timeout now m =
      let ids = HashSet.insert id (get_or (get peer m.direct_connections) []) in
      ground (
        arith,
        get-insert peer peer ids m.direct_connections,
        get-remove peer peer m.hole_punch_attempts,
        get-remove peer peer m.hole_punch_deadlines,
        get-remove peer peer m.relayed_connections,
      )

  -- An attempt that starts, while the peer's sequence number is below 2^64 - 1, has an id above
  -- that number; it is the active attempt with its deadline the timeout later, and while it is
  -- active no other starts.
  pub start_is_fresh :
      (peer : PeerId) (hole_punch_timeout now later id : ℕ) (m : ConnectionStateMachine net)
      → get_or (get peer m.hole_punch_attempt_seq) 0 < 2 ^ 64 - 1
      → (start_hole_punch_attempt net peer hole_punch_timeout now m).1 ≡ some id
      → (get_or (get peer m.hole_punch_attempt_seq) 0 < id)
        × (get peer
              (start_hole_punch_attempt net peer hole_punch_timeout now m).0.hole_punch_attempts
            ≡ some (new_stats id now))
        × (get peer
              (start_hole_punch_attempt net peer hole_punch_timeout now m).0.hole_punch_deadlines
            ≡ some (record { attempt_id = id; deadline = now + hole_punch_timeout }))
        × ((start_hole_punch_attempt net peer hole_punch_timeout later
              (start_hole_punch_attempt net peer hole_punch_timeout now m).0).1
            ≡ none)
  unfolding start_hole_punch_attempt
  start_is_fresh peer hole_punch_timeout now later id m b h =
      let attempt_id = next_attempt_id net peer m in
      ground (
        arith,
        get-insert peer peer attempt_id m.hole_punch_attempt_seq,
        get-insert peer peer (new_stats attempt_id now) m.hole_punch_attempts,
        get-insert peer peer
            (record { attempt_id = attempt_id; deadline = now + hole_punch_timeout })
            m.hole_punch_deadlines,
      )

  -- A dial to a relayed peer with an active attempt.
  dialing_lem :
      (peer : PeerId) (id : ConnectionId) (m : ConnectionStateMachine net)
      (stats : HolePunchAttemptStats)
      → peer_is_relay_only net peer m ≡ true
      → get peer m.hole_punch_attempts ≡ some stats
      → on_dialing net peer id m ≡ (
        record m {
          hole_punch_attempts =
              HashMap.insert peer
                (record stats { dials_started = saturating_add 32 stats.dials_started 1 })
                m.hole_punch_attempts;
          pending_hole_punch_dials =
              HashMap.insert id (peer, stats.attempt_id) m.pending_hole_punch_dials;
        },
        DialingUpdate.tracked stats.attempt_id (saturating_add 32 stats.dials_started 1),
      )
  unfolding on_dialing
  dialing_lem peer id m stats hr ha = ground arith

  -- A failed dial of the active attempt.
  tracked_error_lem :
      (peer : PeerId) (peer_id : Option PeerId) (id : ConnectionId) (error_text : String)
      (m : ConnectionStateMachine net) (stats : HolePunchAttemptStats)
      → get id m.pending_hole_punch_dials ≡ some (peer, stats.attempt_id)
      → peer_is_relay_only net peer m ≡ true
      → get peer m.hole_punch_attempts ≡ some stats
      → ((on_outgoing_connection_error net peer_id id error_text m).1
          ≡ OutgoingErrorUpdate.tracked peer stats.attempt_id stats.dials_started
              (saturating_add 32 stats.dials_failed 1))
        × (get id
              (on_outgoing_connection_error net peer_id id error_text m).0.pending_hole_punch_dials
            ≡ none)
  unfolding on_outgoing_connection_error
  tracked_error_lem peer peer_id id error_text m stats hd hr ha =
      ground (arith, get-remove id id m.pending_hole_punch_dials)

  -- The failure of a dial that `on_dialing` tracked is counted for the same attempt, once: the
  -- answer has the attempt's id, the dials so far with this one, and one more failure, and the
  -- dial is not tracked any more.
  pub tracked_dial_fails :
      (peer : PeerId) (peer_id : Option PeerId) (id : ConnectionId) (error_text : String)
      (m : ConnectionStateMachine net) {stats : HolePunchAttemptStats}
      → peer_is_relay_only net peer m ≡ true
      → get peer m.hole_punch_attempts ≡ some stats
      → ((on_outgoing_connection_error net peer_id id error_text (on_dialing net peer id m).0).1
          ≡ OutgoingErrorUpdate.tracked peer stats.attempt_id
              (saturating_add 32 stats.dials_started 1)
              (saturating_add 32 stats.dials_failed 1))
        × (get id
              (on_outgoing_connection_error net peer_id id error_text
                (on_dialing net peer id m).0).0.pending_hole_punch_dials
            ≡ none)
  unfolding peer_is_relay_only
  tracked_dial_fails peer peer_id id error_text m {stats} hr ha =
      let stats' = record stats { dials_started = saturating_add 32 stats.dials_started 1 } in
      let e = dialing_lem peer id m stats hr ha in
      tracked_error_lem peer peer_id id error_text (on_dialing net peer id m).0 stats'
        (rw e
          (ground (arith, get-insert id id (peer, stats.attempt_id) m.pending_hole_punch_dials)))
        (rw e hr) (rw e (ground (arith, get-insert peer peer stats' m.hole_punch_attempts)))
