-- ===== src/Node/Execute.antt =====
-- src/node/execute.rs: the commands of the machines, carried out on the libp2p swarm.
pub mod QueryIds
pub mod Asked
pub mod Reservation
use Prim.Native.String.{◌++◌ as push_str}
use punchgate.Common.{
  ℕ, ◌+◌, ◌*◌, Bool, true, false, Option, none, some, String, List, [], ◌∷◌, ◌++◌, Eq, nat_eq,
  Result, ok, err,
}
use punchgate.Net.{Libp2p, Protocol, p2p, p2p_circuit}
use punchgate.Types.{ServiceName, ServiceAddr, KademliaKey, for_service}
use punchgate.Collections.HashMap.{insert}
use punchgate.State.Command as Command
use punchgate.State.Command.{Command}
use punchgate.State.Tunnel.Defs.{from_secs}
use punchgate.Node.Translate.Kad.{Queries}
use punchgate.Specs.Addr.{IpText, service_addr_to_string}
use punchgate.Specs.Named.{ExposedService}
use punchgate.Specs.Text.{joined}
use punchgate.Wire.Registries.{TunnelRegistry, register_tunnel}

-- What the source calls on the swarm and on the runtime, with the state that the calls change.
-- A result that the source only logs is left out.
pub record Swarm (net : Libp2p) (QueryId Handle : Type 0) : Type 1 where
  pub State : Type 0
  -- `kademlia.bootstrap()`, which may fail.
  pub bootstrap : State → Option QueryId × State
  pub get_closest_peers : net.PeerId → State → QueryId × State
  pub get_providers : KademliaKey → State → QueryId × State
  pub add_address : net.PeerId → net.Multiaddr → State → State
  pub start_providing : KademliaKey → State → State
  -- The key, the value, the publisher and the expiry.
  pub put_record : KademliaKey → List ℕ → net.PeerId → ℕ → State → State
  pub local_peer_id : State → net.PeerId
  pub listen_on : List (Protocol net.PeerId) → State → State
  -- `dial` on the condition that no other dial is in progress, with the addresses given.
  pub dial : net.PeerId → List net.Multiaddr → State → State
  pub disconnect_peer_id : net.PeerId → State → State
  -- The task that runs `connect_tunnel`.
  pub spawn : net.PeerId → ServiceName → ServiceAddr → State → Handle × State

pub record ExecutionContext (net : Libp2p) (QueryId Handle : Type 0) : Type 0 where
  pub active_bootstrap_query : Option QueryId
  pub queries : Queries net QueryId
  pub tunnel_registry : TunnelRegistry Handle

-- `DHT_RECORD_TTL`.
abbrev pub dht_record_ttl : ℕ
dht_record_ttl = from_secs (15 * 60)

module _ {PeerId : Type 0} where
  -- The `take_while` of the relay reservation.
  unfoldable pub before_p2p : List (Protocol PeerId) → List (Protocol PeerId)
  before_p2p [] = []
  before_p2p (p2p pid ∷ rest) = []
  before_p2p (c ∷ rest) = c ∷ before_p2p rest

  -- The address that a reservation listens on.
  unfoldable pub reservation_addr : PeerId → List (Protocol PeerId) → List (Protocol PeerId)
  unfolding before_p2p
  reservation_addr relay_peer relay_addr =
      before_p2p relay_addr ++ p2p relay_peer ∷ p2p_circuit ∷ []

module _ (net : Libp2p) {QueryId Handle : Type 0} ⦃qe : Eq QueryId⦄
    (swarm : Swarm net QueryId Handle) where
  open net use {PeerId, Multiaddr, iter, peer_string}
  open swarm use {
    State, bootstrap, get_closest_peers, get_providers, add_address, start_providing, put_record,
    local_peer_id, listen_on, dial, disconnect_peer_id, spawn,
  }

  abbrev pub Context : Type 0
  Context = ExecutionContext net QueryId Handle

  module _ (ip : IpText) (name_to_vec : ServiceName → Result String (List ℕ)) (now : ℕ) where
    -- One service of `publish_services`; `name_to_vec` is `serde_json::to_vec`.
    unfoldable pub publish_service : ServiceName → State → State
    unfolding for_service
    publish_service name sw =
        let key = for_service name in
        let provided = start_providing key sw in
        elim (name_to_vec name) [
          | ok metadata ↦ put_record key metadata (local_peer_id sw) (now + dht_record_ttl) provided
          | err e ↦ provided
        ]

    unfoldable pub publish_services : List ExposedService → State → State
    unfolding publish_service
    publish_services [] sw = sw
    publish_services (svc ∷ rest) sw = publish_services rest (publish_service svc.name sw)

    -- The label of a spawned tunnel, `peer:service@bind`.
    unfoldable pub tunnel_label : PeerId → ServiceName → ServiceAddr → String
    unfolding service_addr_to_string
    tunnel_label peer service bind =
        joined ":" (peer_string peer) (joined "@" service.text (service_addr_to_string ip bind))

    -- The registry's overflow is the only panic, `none`.
    unfoldable pub registered :
        Option (ℕ × TunnelRegistry Handle) → State → Context → Option (State × Context)
    registered none sw ctx = none
    registered (some (id, registry)) sw ctx = some (sw, record ctx { tunnel_registry = registry })

    module _ (exposed : List ExposedService) where
      unfoldable pub execute_command : Command net → State → Context → Option (State × Context)
      unfolding publish_services reservation_addr insert tunnel_label register_tunnel registered
      execute_command Command.kademlia_bootstrap sw ctx =
          let (query_id, sw') = bootstrap sw in
          some (sw', record ctx { active_bootstrap_query = query_id })
      execute_command (Command.kademlia_add_address peer addr) sw ctx =
          some (add_address peer addr sw, ctx)
      execute_command (Command.request_relay_reservation relay_peer relay_addr) sw ctx =
          some (listen_on (reservation_addr relay_peer (iter relay_addr)) sw, ctx)
      execute_command Command.publish_services sw ctx = some (publish_services exposed sw, ctx)
      execute_command Command.shutdown sw ctx = some (sw, ctx)
      execute_command (Command.dht_lookup_peer peer) sw ctx =
          let (query_id, sw') = get_closest_peers peer sw in
          some (
            sw',
            record ctx {
              queries = record {
                tunnels = insert query_id peer ctx.queries.tunnels;
                services = ctx.queries.services;
              };
            },
          )
      execute_command (Command.dht_get_providers service_name key) sw ctx =
          let (query_id, sw') = get_providers key sw in
          some (
            sw',
            record ctx {
              queries = record {
                tunnels = ctx.queries.tunnels;
                services = insert query_id service_name ctx.queries.services;
              };
            },
          )
      execute_command (Command.dial_peer peer) sw ctx = some (dial peer [] sw, ctx)
      execute_command (Command.dial_peer_with_addrs peer addrs attempt_id) sw ctx =
          some (dial peer addrs sw, ctx)
      execute_command (Command.disconnect_peer peer) sw ctx = some (disconnect_peer_id peer sw, ctx)
      execute_command (Command.spawn_tunnel peer service bind) sw ctx =
          let (handle, sw') = spawn peer service bind sw in
          registered (register_tunnel (tunnel_label peer service bind) handle ctx.tunnel_registry)
            sw' ctx

      unfoldable pub execute_commands :
          List (Command net) → State → Context → Option (State × Context)
      unfolding execute_command
      execute_commands [] sw ctx = some (sw, ctx)
      execute_commands (cmd ∷ cmds) sw ctx = elim (execute_command cmd sw ctx) [
        | none ↦ none
        | some (sw', ctx') ↦ execute_commands cmds sw' ctx'
      ]
