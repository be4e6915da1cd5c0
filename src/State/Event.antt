-- ===== src/State/Event.antt =====
-- src/state/event.rs, with `Phase` and `NatStatus` of src/state/peer.rs: what the machines
-- react to.
use punchgate.Common.{ℕ, Bool, String, List, Eq}
use punchgate.Net.{Libp2p}
use punchgate.Types.{ServiceName}

pub data Phase : Type 0 where
  joining ready shutting_down : Phase

unfoldable pub Phase-discrete : Discrete Phase
Phase-discrete = hlevel

instance unfoldable pub phase_eq : Eq Phase
unfolding Phase-discrete
phase_eq = record { dec = Phase-discrete }

pub data NatStatus : Type 0 where
  unknown public private : NatStatus

pub data Event (net : Libp2p) : Type 0 where
  -- Network lifecycle.
  listening_on : net.Multiaddr → Event net
  bootstrap_connected : net.PeerId → net.Multiaddr → Event net
  shutdown_requested : Event net
  kademlia_bootstrap_ok : Event net
  kademlia_bootstrap_failed : String → Event net
  mdns_discovered : List (net.PeerId × net.Multiaddr) → Event net
  mdns_expired : List (net.PeerId × net.Multiaddr) → Event net
  -- The peer, its listen addresses, and the address that it observed us at.
  peer_identified : net.PeerId → List net.Multiaddr → net.Multiaddr → Event net
  nat_status_changed : NatStatus → Event net
  discovery_timeout : Event net
  relay_reservation_accepted : net.PeerId → Event net
  relay_reservation_failed : net.PeerId → String → Event net
  -- The peer, and its remaining connections (u32).
  connection_lost : net.PeerId → ℕ → Event net
  no_bootstrap_peers : Event net
  external_addr_confirmed : net.Multiaddr → Event net
  external_addr_expired : net.Multiaddr → Event net
  -- Tunnel lifecycle. The flags are `connected` and `relayed`, the numbers attempt ids (u64).
  dht_peer_lookup_complete : net.PeerId → Bool → Event net
  dht_service_resolved : ServiceName → List (net.PeerId × Bool) → Event net
  dht_service_failed : ServiceName → String → Event net
  tunnel_dial_failed : net.PeerId → String → Event net
  tunnel_peer_connected : net.PeerId → Bool → Event net
  hole_punch_attempt_started : net.PeerId → ℕ → Event net
  hole_punch_failed : net.PeerId → String → Event net
  hole_punch_attempt_failed : net.PeerId → ℕ → String → Event net
  hole_punch_attempt_timeout : net.PeerId → ℕ → Event net
  -- The bridge that `AppState` makes: old phase, new phase.
  phase_changed : Phase → Phase → Event net
