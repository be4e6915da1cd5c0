-- ===== src/State/Peer/Machine.antt =====
-- `transition` of src/state/peer.rs.
use punchgate.Common.{true, List, [], ◌∷◌, Eq}
use punchgate.Net.{ip_addr_eq, Libp2p}
use punchgate.Collections.HashSet
use punchgate.State.Event.{
  shutting_down, Event, bootstrap_connected, kademlia_bootstrap_ok, nat_status_changed,
  discovery_timeout, mdns_discovered, mdns_expired, peer_identified, relay_reservation_accepted,
  relay_reservation_failed, no_bootstrap_peers, external_addr_confirmed, external_addr_expired,
  shutdown_requested, connection_lost,
}
use punchgate.State.Command.{Command, shutdown}
use punchgate.State.Peer.Defs.{PeerState, maybe_become_ready}
use punchgate.State.Peer.Handlers.{
  on_bootstrap_connected, on_nat_status_changed, on_discovery_timeout, discover, expire,
  on_peer_identified, on_relay_reservation_failed, on_connection_lost, on_no_bootstrap_peers,
}

module _ (net : Libp2p) ⦃pe : Eq net.PeerId⦄ ⦃ae : Eq net.Multiaddr⦄ where
  open net use {PeerId, Multiaddr}

  unfoldable pub transition : PeerState net → Event net → PeerState net × List (Command net)
  unfolding on_bootstrap_connected maybe_become_ready on_nat_status_changed on_discovery_timeout
      discover expire on_peer_identified on_relay_reservation_failed on_connection_lost
      on_no_bootstrap_peers
  transition s (bootstrap_connected peer addr) = on_bootstrap_connected net peer addr s
  transition s kademlia_bootstrap_ok = maybe_become_ready net (record s { kad_bootstrapped = true })
  transition s (nat_status_changed status) = on_nat_status_changed net status s
  transition s discovery_timeout = on_discovery_timeout net s
  transition s (mdns_discovered peers) =
      let (known, commands) = discover net peers s.known_peers in
      (record s { known_peers = known }, commands)
  transition s (mdns_expired peers) =
      (record s { known_peers = expire net peers s.known_peers }, [])
  transition s (peer_identified peer listen_addrs _) = on_peer_identified net peer listen_addrs s
  transition s (relay_reservation_accepted _) = (record s { relay_reserved = true }, [])
  transition s (relay_reservation_failed _ _) = on_relay_reservation_failed net s
  transition s no_bootstrap_peers = (on_no_bootstrap_peers net s.phase s, [])
  transition s (external_addr_confirmed addr) =
      maybe_become_ready net (record s { external_addrs = HashSet.insert addr s.external_addrs })
  transition s (external_addr_expired addr) =
      (record s { external_addrs = HashSet.remove addr s.external_addrs }, [])
  transition s shutdown_requested = (record s { phase = shutting_down }, shutdown ∷ [])
  transition s (connection_lost peer remaining) = on_connection_lost net peer remaining s
  transition s _ = (s, [])
