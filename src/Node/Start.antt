-- ===== src/Node/Start.antt =====
-- The start of `run` in src/node/mod.rs: the node that its configuration describes, and what it
-- does ahead of the loop. The swarm is the one that listens and dials by then.
pub mod Books
use punchgate.Common.{
  ℕ, Bool, true, false, Option, none, some, String, List, [], ◌∷◌, is_empty, map, Eq, Result,
  if◌then◌else◌,
}
use punchgate.Net.{Libp2p, Protocol, p2p, udp}
use punchgate.Types.{ServiceName, ServiceAddr, Spec, NatMapping}
use punchgate.Types as Types
use punchgate.Collections.HashSet.{HashSet, insert}
use punchgate.State.Event as StateEvent
use punchgate.State.Event.{Event}
use punchgate.State.Peer.Defs as Peers
use punchgate.State.Tunnel.Defs.{set_nat_mapping}
use punchgate.State.Tunnel.Runs.{configure}
use punchgate.Specs.Addr.{IpText}
use punchgate.Specs.Named.{ExposedService, TunnelSpec, TunnelByNameSpec}
use punchgate.Wire.Registries.{TunnelRegistry, new_registry, shutdown_all}
use punchgate.Node.Backoff as Backoff
use punchgate.Node.Connections.Defs as Connections
use punchgate.Node.Execute.{Swarm}
use punchgate.Node.Loop.{feed}
use punchgate.Node.Turn.{LoopCalls, LoopState, moved}

-- `NodeConfig`; the identity and the addresses to listen on are used ahead of the loop alone.
pub record NodeConfig (net : Libp2p) : Type 0 where
  pub bootstrap_addrs : List net.Multiaddr
  pub exposed : List ExposedService
  pub tunnel_specs : List (TunnelSpec net.PeerId)
  pub tunnel_by_name_specs : List TunnelByNameSpec

module _ {PeerId : Type 0} where
  unfoldable pub first_peer : List (Protocol PeerId) → Option PeerId
  first_peer [] = none
  first_peer (p2p peer ∷ rest) = some peer
  first_peer (_ ∷ rest) = first_peer rest

  unfoldable pub first_udp : List (Protocol PeerId) → Option ℕ
  first_udp [] = none
  first_udp (udp port ∷ rest) = some port
  first_udp (_ ∷ rest) = first_udp rest

  abbrev pub peer_spec : TunnelSpec PeerId → PeerId × ServiceName × ServiceAddr
  peer_spec spec = (spec.remote_peer, spec.service_name, spec.bind_addr)

abbrev pub name_spec : TunnelByNameSpec → Spec
name_spec spec = (spec.service_name, spec.bind_addr)

module _ (net : Libp2p) ⦃pe : Eq net.PeerId⦄ where
  open net use {PeerId, Multiaddr, iter}

  unfoldable pub extract_peer_id : Multiaddr → Option PeerId
  unfolding first_peer
  extract_peer_id addr = first_peer (iter addr)

  unfoldable pub extract_quic_udp_port : Multiaddr → Option ℕ
  unfolding first_udp
  extract_quic_udp_port addr = first_udp (iter addr)

  abbrev pub with_addr :
      Option PeerId → Multiaddr → List (PeerId × Multiaddr) → List (PeerId × Multiaddr)
  with_addr none addr rest = rest
  with_addr (some peer) addr rest = (peer, addr) ∷ rest

  unfoldable pub bootstrap_peers_with_addrs : List Multiaddr → List (PeerId × Multiaddr)
  unfolding extract_peer_id
  bootstrap_peers_with_addrs [] = []
  bootstrap_peers_with_addrs (addr ∷ addrs) =
      with_addr (extract_peer_id addr) addr (bootstrap_peers_with_addrs addrs)

  unfoldable pub collect_peers : List (PeerId × Multiaddr) → HashSet PeerId → HashSet PeerId
  unfolding insert
  collect_peers [] peers = peers
  collect_peers ((peer, addr) ∷ rest) peers = collect_peers rest (insert peer peers)

  unfoldable pub bootstrap_peer_ids : NodeConfig net → HashSet PeerId
  unfolding bootstrap_peers_with_addrs collect_peers
  bootstrap_peer_ids config = collect_peers (bootstrap_peers_with_addrs config.bootstrap_addrs) []

  -- The probe is skipped where there is no bootstrap address.
  unfoldable pub initial_nat_mapping : NodeConfig net → NatMapping → NatMapping
  initial_nat_mapping config probed =
      if is_empty config.bootstrap_addrs then Types.unknown else probed

module _ (net : Libp2p) ⦃pe : Eq net.PeerId⦄ ⦃ae : Eq net.Multiaddr⦄ {QueryId Handle : Type 0}
    ⦃qe : Eq QueryId⦄ (swarm : Swarm net QueryId Handle) (loop : LoopCalls swarm) (ip : IpText)
    (name_to_vec : ServiceName → Result String (List ℕ)) (config : NodeConfig net) where
  -- The loop of the configured node.
  abbrev pub Configured : Type 0
  Configured =
      LoopState net swarm loop ip name_to_vec config.exposed (bootstrap_peer_ids net config)

  unfoldable pub initial : NatMapping → swarm.State → Configured
  unfolding initial_nat_mapping bootstrap_peer_ids bootstrap_peers_with_addrs configure
      set_nat_mapping new_registry Backoff.new Connections.new Peers.new
  initial probed sw = record {
    machines = record {
      app = record {
        peer = record (Peers.new net) { bootstrap_peers = bootstrap_peer_ids net config };
        tunnel = set_nat_mapping net (initial_nat_mapping net config probed) (
            configure net (map peer_spec config.tunnel_specs)
              (map name_spec config.tunnel_by_name_specs));
      };
      connections = Connections.new net;
    };
    direct_peers = record { peers = [] };
    reconnects = record {
      backoff = Backoff.new net (bootstrap_peers_with_addrs net config.bootstrap_addrs);
      pending = [];
    };
    confirmed_external_by_ip = [];
    bootstrap_observed_external_by_ip = [];
    discovery_timeout_fired = false;
    ctx = record {
      active_bootstrap_query = none;
      queries = record { tunnels = []; services = [] };
      tunnel_registry = new_registry;
    };
    sw = sw;
    translated = [];
    carried_out = [];
  }

  -- The event ahead of the loop.
  unfoldable pub first_event : Event net
  first_event =
      if is_empty config.bootstrap_addrs
      then StateEvent.no_bootstrap_peers
      else StateEvent.nat_status_changed StateEvent.private

  unfoldable pub start : ℕ → NatMapping → swarm.State → Option Configured
  unfolding initial first_event moved feed
  start now probed sw =
      let s = initial probed sw in
      moved net swarm loop ip name_to_vec config.exposed (bootstrap_peer_ids net config) now s
        (feed net now first_event s.machines)

  -- Behind the loop: the handles of the tasks that are aborted.
  unfoldable pub finish : Configured → List Handle × TunnelRegistry Handle
  unfolding shutdown_all
  finish s = shutdown_all s.ctx.tunnel_registry
