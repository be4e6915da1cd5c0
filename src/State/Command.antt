-- ===== src/State/Command.antt =====
-- src/state/command.rs: what the machines ask the runtime to do.
use punchgate.Common.{ℕ, List}
use punchgate.Net.{Libp2p}
use punchgate.Types.{ServiceName, KademliaKey, ServiceAddr}

pub data Command (net : Libp2p) : Type 0 where
  kademlia_bootstrap : Command net
  kademlia_add_address : net.PeerId → net.Multiaddr → Command net
  request_relay_reservation : net.PeerId → net.Multiaddr → Command net
  shutdown : Command net
  publish_services : Command net
  dht_lookup_peer : net.PeerId → Command net
  dht_get_providers : ServiceName → KademliaKey → Command net
  dial_peer : net.PeerId → Command net
  -- The attempt id is a u64.
  dial_peer_with_addrs : net.PeerId → List net.Multiaddr → ℕ → Command net
  disconnect_peer : net.PeerId → Command net
  spawn_tunnel : net.PeerId → ServiceName → ServiceAddr → Command net
