-- ===== src/Node/Translate/Swarm.antt =====
-- What libp2p reports, as far as src/node/translate.rs tells it apart. An error stands for
-- its text, and `ignored` and `other` for every variant that the source takes no notice of.
use punchgate.Common.{Bool, Option, String, List}
use punchgate.Net.{Libp2p}

-- `libp2p::core::ConnectedPoint`: the address dialled, or the local address and the one that
-- the peer called from.
pub data ConnectedPoint (net : Libp2p) : Type 0 where
  dialer : net.Multiaddr → ConnectedPoint net
  listener : net.Multiaddr → net.Multiaddr → ConnectedPoint net

module _ (net : Libp2p) where
  open net use {Multiaddr}

  -- `ConnectedPoint::get_remote_address`.
  abbrev pub get_remote_address : ConnectedPoint net → Multiaddr
  get_remote_address (dialer address) = address
  get_remote_address (listener local_addr send_back_addr) = send_back_addr

-- `Result<kad::GetProvidersOk, kad::GetProvidersError>`.
pub data GetProvidersResult (net : Libp2p) : Type 0 where
  found_providers : List net.PeerId → GetProvidersResult net
  finished_with_no_additional_record : GetProvidersResult net
  get_providers_error : String → GetProvidersResult net

-- `kad::QueryResult`; the text is the error's, where the bootstrap failed.
pub data QueryResult (net : Libp2p) : Type 0 where
  bootstrap : Option String → QueryResult net
  get_closest_peers : QueryResult net
  get_providers : GetProvidersResult net → QueryResult net
  other_result : QueryResult net

-- `kad::Event`: the query, its result, and whether this is its last step.
pub data KadEvent (net : Libp2p) (QueryId : Type 0) : Type 0 where
  outbound_query_progressed : QueryId → QueryResult net → Bool → KadEvent net QueryId
  other_kad_event : KadEvent net QueryId

-- `autonat::NatStatus`.
pub data AutonatStatus (net : Libp2p) : Type 0 where
  autonat_public : net.Multiaddr → AutonatStatus net
  autonat_private autonat_unknown : AutonatStatus net

-- `BehaviourEvent` of src/behaviour.rs.
pub data BehaviourEvent (net : Libp2p) (QueryId : Type 0) : Type 0 where
  kademlia : KadEvent net QueryId → BehaviourEvent net QueryId
  discovered : List (net.PeerId × net.Multiaddr) → BehaviourEvent net QueryId
  expired : List (net.PeerId × net.Multiaddr) → BehaviourEvent net QueryId
  identify_received : net.PeerId → List net.Multiaddr → net.Multiaddr → BehaviourEvent net QueryId
  status_changed : AutonatStatus net → BehaviourEvent net QueryId
  reservation_req_accepted : net.PeerId → BehaviourEvent net QueryId
  -- The remote peer, and the error's text where the upgrade failed.
  dcutr : net.PeerId → Option String → BehaviourEvent net QueryId
  ignored_behaviour : BehaviourEvent net QueryId

-- `libp2p::swarm::SwarmEvent`.
pub data SwarmEvent (net : Libp2p) (QueryId : Type 0) : Type 0 where
  new_listen_addr : net.Multiaddr → SwarmEvent net QueryId
  connection_established : net.PeerId → ConnectedPoint net → SwarmEvent net QueryId
  behaviour : BehaviourEvent net QueryId → SwarmEvent net QueryId
  listener_error : SwarmEvent net QueryId
  -- The error's text where the listener failed, and its addresses.
  listener_closed : Option String → List net.Multiaddr → SwarmEvent net QueryId
  outgoing_connection_error : Option net.PeerId → String → SwarmEvent net QueryId
  swarm_external_addr_confirmed swarm_external_addr_expired : net.Multiaddr → SwarmEvent net QueryId
  ignored_swarm_event : SwarmEvent net QueryId
