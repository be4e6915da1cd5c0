-- ===== src/Node/Translate.antt =====
-- src/node/translate.rs: from what libp2p reports to what the machines react to.
pub mod Swarm
pub mod Kad
pub mod Answers
pub mod Closed
pub mod Justified
pub mod Providers
use Prim.Native.String.{String}
use punchgate.Common.{
  ◌==◌, Bool, true, false, ◌&&◌, ◌||◌, not, Option, none, some, List, [], ◌∷◌, ◌++◌, map, any,
  is_empty, contains, Eq, if◌then◌else◌, nat_eq,
}
use punchgate.Net.{Libp2p, Protocol, p2p, p2p_circuit}
use punchgate.Types.{ServiceName}
use punchgate.Collections.HashMap.{HashMap, get, contains_key, remove}
use punchgate.Collections.HashSet.{HashSet}
use punchgate.Collections.Sort.{sort_by}
use punchgate.ExternalAddr.{is_circuit_addr}
use punchgate.Specs.Text.{contains_text}
use punchgate.State.Event as StateEvent
use punchgate.State.Event.{Event, NatStatus}
use punchgate.State.Tunnel.Addresses.{text_le}
use Kad.{Queries, translate_kad_event}
use Swarm.{
  ConnectedPoint, SwarmEvent, BehaviourEvent, KadEvent, QueryResult, GetProvidersResult,
  AutonatStatus,
}

module _ {PeerId : Type 0} where
  -- The inner loop of `extract_relay_peer_from_addrs`: the last peer that is named, and
  -- whether the address has a circuit.
  unfoldable pub scan_relay : Option PeerId → Bool → List (Protocol PeerId) → Option PeerId
  scan_relay peer has_circuit [] = if has_circuit then peer else none
  scan_relay peer has_circuit (p2p pid ∷ rest) = scan_relay (some pid) has_circuit rest
  scan_relay peer has_circuit (p2p_circuit ∷ rest) = scan_relay peer true rest
  scan_relay peer has_circuit (_ ∷ rest) = scan_relay peer has_circuit rest

module _ (net : Libp2p) where
  open net use {PeerId, Multiaddr, iter, peer_string}

  unfoldable pub extract_relay_peer_from_addrs : List Multiaddr → Option PeerId
  unfolding scan_relay
  extract_relay_peer_from_addrs [] = none
  extract_relay_peer_from_addrs (addr ∷ addrs) = elim (scan_relay none false (iter addr)) [
    | some peer ↦ some peer
    | none ↦ extract_relay_peer_from_addrs addrs
  ]

  -- `has_circuit` is `is_circuit_addr` of src/external_addr.rs once more.
  unfoldable pub is_relayed : ConnectedPoint net → Bool
  unfolding is_circuit_addr
  is_relayed (Swarm.dialer address) = is_circuit_addr net address
  is_relayed (Swarm.listener local_addr send_back_addr) =
      is_circuit_addr net local_addr || is_circuit_addr net send_back_addr

  unfoldable pub nat_status : AutonatStatus net → NatStatus
  nat_status (Swarm.autonat_public addr) = StateEvent.public
  nat_status Swarm.autonat_private = StateEvent.private
  nat_status Swarm.autonat_unknown = StateEvent.unknown

  module _ ⦃pe : Eq net.PeerId⦄ where
    -- The reason stands where the listener failed.
    unfoldable pub relay_failure : Option String → Option PeerId → List (Event net)
    relay_failure (some reason) (some peer) = StateEvent.relay_reservation_failed peer reason ∷ []
    relay_failure (some reason) none = []
    relay_failure none _ = []

    unfoldable pub dial_failure : HashSet PeerId → Option PeerId → String → List (Event net)
    unfolding contains_text
    dial_failure bootstrap_peers none err_msg = []
    dial_failure bootstrap_peers (some peer) err_msg =
        if not (contains peer bootstrap_peers) && not (contains_text "local peer id" err_msg)
        then StateEvent.tunnel_dial_failed peer err_msg ∷ []
        else []

  module _ {QueryId : Type 0} ⦃qe : Eq QueryId⦄ where
    unfoldable pub translate_behaviour_event :
        Option QueryId
        → (PeerId → Bool)
        → BehaviourEvent net QueryId
        → Queries net QueryId
        → List (Event net) × Queries net QueryId
    unfolding translate_kad_event nat_status
    translate_behaviour_event active is_connected (Swarm.kademlia event) queries =
        translate_kad_event net active is_connected event queries
    translate_behaviour_event active is_connected (Swarm.discovered list) queries =
        (StateEvent.mdns_discovered list ∷ [], queries)
    translate_behaviour_event active is_connected (Swarm.expired list) queries =
        (StateEvent.mdns_expired list ∷ [], queries)
    translate_behaviour_event active is_connected (Swarm.identify_received peer listen observed)
          queries =
        (StateEvent.peer_identified peer listen observed ∷ [], queries)
    translate_behaviour_event active is_connected (Swarm.status_changed new) queries =
        (StateEvent.nat_status_changed (nat_status new) ∷ [], queries)
    translate_behaviour_event active is_connected (Swarm.reservation_req_accepted peer) queries =
        (StateEvent.relay_reservation_accepted peer ∷ [], queries)
    translate_behaviour_event active is_connected (Swarm.dcutr peer none) queries = ([], queries)
    translate_behaviour_event active is_connected (Swarm.dcutr peer (some e)) queries =
        (StateEvent.hole_punch_failed peer e ∷ [], queries)
    translate_behaviour_event active is_connected Swarm.ignored_behaviour queries = ([], queries)

    module _ ⦃pe : Eq net.PeerId⦄ where
      unfoldable pub translate_swarm_event :
          SwarmEvent net QueryId
          → HashSet PeerId
          → Option QueryId
          → (PeerId → Bool)
          → Queries net QueryId
          → List (Event net) × Queries net QueryId
      unfolding translate_behaviour_event extract_relay_peer_from_addrs is_relayed relay_failure
          dial_failure
      translate_swarm_event (Swarm.new_listen_addr address) bootstrap_peers active is_connected
            queries =
          (StateEvent.listening_on address ∷ [], queries)
      translate_swarm_event (Swarm.connection_established peer endpoint) bootstrap_peers active
            is_connected queries =
          let connected = StateEvent.tunnel_peer_connected peer (is_relayed endpoint) ∷ [] in
          (
            if contains peer bootstrap_peers
                then StateEvent.bootstrap_connected peer (Swarm.get_remote_address net endpoint)
                  ∷ connected
                else connected,
            queries,
          )
      translate_swarm_event (Swarm.behaviour event) bootstrap_peers active is_connected queries =
          translate_behaviour_event active is_connected event queries
      translate_swarm_event Swarm.listener_error bootstrap_peers active is_connected queries =
          ([], queries)
      translate_swarm_event (Swarm.listener_closed reason addresses) bootstrap_peers active
            is_connected queries =
          (relay_failure reason (extract_relay_peer_from_addrs addresses), queries)
      translate_swarm_event (Swarm.outgoing_connection_error peer_id error) bootstrap_peers active
            is_connected queries =
          (dial_failure bootstrap_peers peer_id error, queries)
      translate_swarm_event (Swarm.swarm_external_addr_confirmed address) bootstrap_peers active
            is_connected queries =
          (StateEvent.external_addr_confirmed address ∷ [], queries)
      translate_swarm_event (Swarm.swarm_external_addr_expired address) bootstrap_peers active
            is_connected queries =
          (StateEvent.external_addr_expired address ∷ [], queries)
      translate_swarm_event Swarm.ignored_swarm_event bootstrap_peers active is_connected queries =
          ([], queries)
