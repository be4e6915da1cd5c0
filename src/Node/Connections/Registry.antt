-- ===== src/Node/Connections/Registry.antt =====
-- Which connections each peer has: the queries of src/node/connection_state.rs and the removal
-- of a connection.
use punchgate.Common.{
  ℕ, Bool, true, false, ◌&&◌, not, none, some, is_empty, length, nat_eq, Eq, if◌then◌else◌,
}
use punchgate.Net.{Libp2p}
use punchgate.Collections.HashMap
use punchgate.Collections.HashMap.{HashMap, get_or, contains_key, values}
use punchgate.Collections.HashSet
use punchgate.Collections.HashSet.{HashSet}
use punchgate.Node.Connections.Defs.{ConnectionId, ConnectionStateMachine}

module _ (net : Libp2p) ⦃pe : Eq net.PeerId⦄ where
  open net use {PeerId}

  unfoldable pub has_relayed_connection : PeerId → ConnectionStateMachine net → Bool
  has_relayed_connection peer m = contains_key peer m.relayed_connections

  unfoldable pub has_direct_connection : PeerId → ConnectionStateMachine net → Bool
  has_direct_connection peer m = contains_key peer m.direct_connections

  unfoldable pub peer_is_relay_only : PeerId → ConnectionStateMachine net → Bool
  unfolding has_relayed_connection has_direct_connection
  peer_is_relay_only peer m = has_relayed_connection peer m && not (has_direct_connection peer m)

  unfoldable pub connection_count_for_peer : HashMap PeerId (HashSet ConnectionId) → PeerId → ℕ
  connection_count_for_peer by_peer peer = elim (HashMap.get peer by_peer) [
    | none ↦ 0
    | some ids ↦ length ids
  ]

  -- Whether the last connection went is the second component.
  unfoldable pub remove_connection_id :
      PeerId
      → ConnectionId
      → HashMap PeerId (HashSet ConnectionId)
      → HashMap PeerId (HashSet ConnectionId) × Bool
  remove_connection_id peer connection_id by_peer = elim (HashMap.get peer by_peer) [
    | none ↦ (by_peer, false)
    | some ids ↦
        let ids' = HashSet.remove connection_id ids in
        if is_empty ids'
        then (HashMap.remove peer by_peer, true)
        else (HashMap.insert peer ids' by_peer, false)
  ]
