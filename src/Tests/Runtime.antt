-- ===== src/Tests/Runtime.antt =====
-- src/port_mapping.rs and src/node/execute.rs at concrete inputs.
use punchgate.Common.{
  ℕ, suc, ◌+◌, ◌≡◌, refl, true, false, none, some, String, List, [], ◌∷◌, arith, ltb, nat_eq,
  Result, ok, err,
}
use punchgate.Net.{Ipv4Addr, v4, Libp2p, Protocol}
use punchgate.Types.{ServiceName, service_name_eq, for_service}
use punchgate.ExternalAddr.{extract_public_ip_port, is_valid_external_candidate}
use punchgate.Collections.HashMap.{get}
use punchgate.PortMapping.{Gateways, nat_pmp_first, nat_pmp, acquire_port_mapping}
use punchgate.PortMapping.Acquired.{acquired_is_public}
use punchgate.PortMapping.Routable.{mapped_parts}
use punchgate.State.Command.{Command, dht_lookup_peer, dht_get_providers}
use punchgate.Node.Execute.{Swarm, ExecutionContext, execute_commands}
use punchgate.Node.Execute.QueryIds.{SwarmLaws}
use punchgate.Node.Execute.Asked.{
  AreIssued, asks, asks_service, asks_peer, execute_commands-IsAsked,
}
use punchgate.Node.Translate.Answers.{service_asked, peer_asked, AreMaps}
use punchgate.Tests.Parsing.{tallies}
use punchgate.Tests.Toy.{toy, public_ip, web}

abbrev lan : Ipv4Addr
lan = record { a = 192; b = 168; c = 1; d = 1 }

-- No UPnP, but NAT-PMP maps to the public address.
abbrev home : Gateways
home = record {
  get_default_gateway = ok (v4 lan);
  get_interfaces = record { is_loopback_interface = false; ipv4 = lan ∷ [] } ∷ [];
  search_gateway = err "no gateway";
  get_external_ip = err "no gateway";
  add_port = λ port ip. err "no gateway";
  new_mapping = λ gateway client port. ok (4001, nat_pmp);
  natpmp_external_address = λ gateway. ok public_ip;
}

acquire_home :
    acquire_port_mapping home nat_pmp_first 9000
    ≡ some (record { external_ip = v4 public_ip; external_port = 4001; protocol_used = "NAT-PMP" })
unfolding acquire_port_mapping nat_eq
acquire_home = refl

-- Addresses that are their components.
abbrev plain : Libp2p
plain = record {
  PeerId = ℕ;
  Multiaddr = List (Protocol ℕ);
  peer_string = λ peer. "peer";
  addr_string = λ addr. "addr";
  iter = λ addr. addr;
}

acquired_is_public_example :
    (extract_public_ip_port plain (mapped_parts plain public_ip 4001) ≡ some (v4 public_ip, 4001))
    × (is_valid_external_candidate plain (mapped_parts plain public_ip 4001) ≡ true)
acquired_is_public_example =
    acquired_is_public home plain nat_pmp_first 9000 4001 public_ip "NAT-PMP"
      (mapped_parts plain public_ip 4001) acquire_home refl

-- A swarm that numbers its queries, and whose state is the next number.
abbrev pub counting : Swarm toy ℕ ℕ
counting = record {
  State = ℕ;
  bootstrap = λ s. (some s, suc s);
  get_closest_peers = λ p s. (s, suc s);
  get_providers = λ k s. (s, suc s);
  add_address = λ p a s. s;
  start_providing = λ k s. s;
  put_record = λ k v p t s. s;
  local_peer_id = λ s. 0;
  listen_on = λ a s. s;
  dial = λ p a s. s;
  disconnect_peer_id = λ p s. s;
  spawn = λ p n a s. (7, s);
}

below-suc : (q s : ℕ) → ltb q s ≡ true → ltb q (suc s) ≡ true
below-suc q s h = ground (arith, h)

below-next : (s : ℕ) → ltb s (suc s) ≡ true
below-next s = ground arith

not_below : (s : ℕ) → ltb s s ≡ false
not_below s = ground arith

pub counting-SwarmLaws : SwarmLaws counting
counting-SwarmLaws = record {
  issued = λ s q. ltb q s;
  peers_new = λ p s. not_below s;
  peers_given = λ p s. below-next s;
  providers_new = λ k s. not_below s;
  providers_given = λ k s. below-next s;
  peers_keep = λ p s q h. below-suc q s h;
  providers_keep = λ k s q h. below-suc q s h;
  bootstrap_keep = λ s q h. below-suc q s h;
  add_keep = λ p a s q h. h;
  start_keep = λ k s q h. h;
  put_keep = λ k v p t s q h. h;
  listen_keep = λ a s q h. h;
  dial_keep = λ p a s q h. h;
  disconnect_keep = λ p s q h. h;
  spawn_keep = λ p n a s q h. h;
}

abbrev commands : List (Command toy)
commands = dht_lookup_peer 5 ∷ dht_get_providers web (for_service web) ∷ dht_lookup_peer 6 ∷ []

abbrev idle : ExecutionContext toy ℕ ℕ
idle = record {
  active_bootstrap_query = none;
  queries = record { tunnels = []; services = [] };
  tunnel_registry = record { tunnels = []; next_id = 0 };
}

abbrev asked : ExecutionContext toy ℕ ℕ
asked = record idle {
  queries = record { tunnels = (0, 5) ∷ (2, 6) ∷ []; services = (1, web) ∷ [] };
}

abbrev pub json_name : ServiceName → Result String (List ℕ)
json_name name = ok []

execute_run : execute_commands toy counting tallies json_name 0 [] commands 0 idle ≡ some (3, asked)
unfolding execute_commands nat_eq
execute_run = refl

execute_commands-IsAsked_example :
    (service_asked toy web asked.queries
      ≡ service_asked toy web idle.queries + asks toy (asks_service toy web) commands)
    × (peer_asked toy 5 asked.queries
        ≡ peer_asked toy 5 idle.queries + asks toy (asks_peer toy 5) commands)
    × AreMaps toy asked.queries
    × AreIssued toy counting counting-SwarmLaws 3 asked.queries
unfolding get
execute_commands-IsAsked_example =
    execute_commands-IsAsked toy counting counting-SwarmLaws tallies json_name 0 [] web 5 commands 0
      3 idle asked (tt, tt) (λ q e. (refl, refl)) execute_run
